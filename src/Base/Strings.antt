-- ===== src/Base/Strings.antt =====
-- Text as the list of its bytes, and the functions of Go's package strings that the program calls.
use Prim.Native.Nat.{ℕ, ◌+◌, ◌-◌, ◌*◌, ◌%◌, ◌^◌}
use Prim.Native.Char.{code}
use Prim.Native.String.{String}
use mathlib.Core.Path.{◌≡◌, refl}
use mathlib.Core.Logic.{◌↔◌}
use mathlib.Core.Bool.{Bool, true, false, ◌&&◌, ◌||◌}
use mathlib.Core.Option.{Option, none, some}
use mathlib.Core.List.{List, [], ◌∷◌, ◌++◌, map, reverse}
use native.Mathlib.Omega.{arith}
use iold.Base.Tests.{leb, ◌==◌, if◌then◌else◌}

abbrev pub Text : Type 0
Text = List ℕ

-- A literal of the source.
abbrev pub codes : String → Text
codes String.[] = []
codes (String.◌∷◌ c s) = code c ∷ codes s

unfoldable pub text_eq : Text → Text → Bool
text_eq [] [] = true
text_eq [] (y ∷ ys) = false
text_eq (x ∷ xs) [] = false
text_eq (x ∷ xs) (y ∷ ys) = (x == y) && text_eq xs ys

pub text_eq_iff : (a b : Text) → (text_eq a b ≡ true) ↔ (a ≡ b)
unfolding text_eq
text_eq_iff [] [] = ground arith
text_eq_iff [] (y ∷ ys) = ground arith
text_eq_iff (x ∷ xs) [] = ground arith
text_eq_iff (x ∷ xs) (y ∷ ys) = ground (arith, text_eq_iff xs ys)

pub text_eq_refl : (a : Text) → text_eq a a ≡ true
text_eq_refl a = (text_eq_iff a a).1 refl

-- `s == ""`.
abbrev pub is_empty : Text → Bool
is_empty [] = true
is_empty (x ∷ xs) = false

-- `strings.HasPrefix(s, prefix)`.
unfoldable pub has_prefix : Text → Text → Bool
has_prefix s [] = true
has_prefix [] (y ∷ ys) = false
has_prefix (x ∷ xs) (y ∷ ys) = (x == y) && has_prefix xs ys

-- `strings.Contains(s, sub)`.
unfoldable pub contains_text : Text → Text → Bool
unfolding has_prefix
contains_text [] sub = has_prefix [] sub
contains_text (x ∷ xs) sub = has_prefix (x ∷ xs) sub || contains_text xs sub

-- `unicode.IsSpace` on ASCII.
abbrev pub is_space : ℕ → Bool
is_space c = (leb 9 c && leb c 13) || c == 32

-- `strings.Fields`: `word` is the field being read, backwards.
abbrev close_field : Text → List Text → List Text
close_field [] rest = rest
close_field (c ∷ word) rest = reverse (c ∷ word) ∷ rest

unfoldable pub fields_from : Text → Text → List Text
fields_from word [] = close_field word []
fields_from word (c ∷ s) =
    let rest = fields_from (if is_space c then [] else c ∷ word) s in
    if is_space c then close_field word rest else rest

unfoldable pub fields : Text → List Text
unfolding fields_from
fields s = fields_from [] s

-- `strings.Join(parts, " ")`.
unfoldable pub join_words : List Text → Text
join_words [] = []
join_words (w ∷ []) = w
join_words (w ∷ v ∷ ws) = w ++ 32 ∷ join_words (v ∷ ws)

-- `strings.TrimSpace`, `strings.TrimRight(s, cutset)` for a cutset of one byte.
unfoldable pub drop_while : (ℕ → Bool) → Text → Text
drop_while p [] = []
drop_while p (c ∷ s) = let rest = drop_while p s in if p c then rest else c ∷ s

unfoldable pub trim_space : Text → Text
unfolding drop_while
trim_space s = reverse (drop_while is_space (reverse (drop_while is_space s)))

unfoldable pub trim_right : ℕ → Text → Text
unfolding drop_while
trim_right b s = reverse (drop_while (λ c. c == b) (reverse s))

-- `strings.ReplaceAll(s, old, new)` for two bytes.
unfoldable pub replace_byte : ℕ → ℕ → Text → Text
replace_byte old new s = map (λ c. if c == old then new else c) s

-- `strings.Split(s, sep)` for a separator of one byte: `part` is read backwards.
unfoldable pub split_from : ℕ → Text → Text → List Text
split_from sep part [] = reverse part ∷ []
split_from sep part (c ∷ s) =
    let rest = split_from sep (if c == sep then [] else c ∷ part) s in
    if c == sep then reverse part ∷ rest else rest

unfoldable pub split : ℕ → Text → List Text
unfolding split_from
split sep s = split_from sep [] s

-- `s[strings.LastIndex(s, b)+1:]`; `none` if `b` does not occur.
unfoldable pub after_last : ℕ → Text → Option Text
after_last b [] = none
after_last b (c ∷ s) = elim (after_last b s) [
  | some t ↦ some t
  | none ↦ if c == b then some s else none
]

-- A run of decimal digits as a number, from an accumulator.
unfoldable pub digits_from : ℕ → Text → Option ℕ
digits_from n [] = some n
digits_from n (c ∷ s) =
    let rest = digits_from (n * 10 + (c - 48)) s in if leb 48 c && leb c 57 then rest else none

-- The non-negative results of `strconv.ParseInt(s, 10, 64)`: at least one digit, perhaps behind a
-- sign, and no more than 2^63 - 1.
abbrev in_range : ℕ → Option ℕ
in_range n = if leb n 9223372036854775807 then some n else none

abbrev bounded : Option ℕ → Option ℕ
bounded none = none
bounded (some n) = in_range n

abbrev only_zero : Option ℕ → Option ℕ
only_zero none = none
only_zero (some n) = if n == 0 then some 0 else none

abbrev digits : Text → Option ℕ
digits [] = none
digits (c ∷ s) = digits_from 0 (c ∷ s)

unfoldable pub parse_nat : Text → Option ℕ
unfolding digits_from
parse_nat [] = none
parse_nat (c ∷ s) =
    if c == b'+'
    then bounded (digits s)
    else if c == b'-'
    then only_zero (digits s)
    else bounded (digits (c ∷ s))

-- `strings.ToLower`, `strings.ToUpper` on ASCII.
unfoldable pub to_lower : Text → Text
to_lower s = map (λ c. if leb b'A' c && leb c b'Z' then c + 32 else c) s

unfoldable pub to_upper : Text → Text
to_upper s = map (λ c. if leb b'a' c && leb c b'z' then c - 32 else c) s

-- `strings.ReplaceAll(s, b, "")` for one byte.
unfoldable pub remove_byte : ℕ → Text → Text
remove_byte b [] = []
remove_byte b (c ∷ s) = let rest = remove_byte b s in if c == b then rest else c ∷ rest

-- `strings.Cut(s, b)` for one byte: what stands before it, and what stands behind it; the whole text
-- and the empty one when it does not occur.
unfoldable pub before_byte : ℕ → Text → Text
before_byte b [] = []
before_byte b (c ∷ s) = let rest = before_byte b s in if c == b then [] else c ∷ rest

unfoldable pub after_byte : ℕ → Text → Text
after_byte b [] = []
after_byte b (c ∷ s) = let rest = after_byte b s in if c == b then s else rest

-- `strconv.Atoi` on a machine with words of 64 bits: the bit pattern of the number.
abbrev negated : Option ℕ → Option ℕ
negated none = none
negated (some n) = if leb n 9223372036854775808 then some ((2 ^ 64 - n) % 2 ^ 64) else none

unfoldable pub atoi : Text → Option ℕ
unfolding digits_from
atoi [] = none
atoi (c ∷ s) =
    if c == b'+'
    then bounded (digits s)
    else if c == b'-'
    then negated (digits s)
    else bounded (digits (c ∷ s))
