-- ===== src/Base/Words.antt =====
-- Go's int and int64 as bit patterns below 2 ^ 64.
use Prim.Native.Nat.{ℕ, ◌+◌, ◌-◌, ◌/◌, ◌%◌, ◌^◌}
use mathlib.Core.Bool.{Bool, not, ◌&&◌}
use iold.Base.Tests.{ltb, leb, ◌==◌, if◌then◌else◌}

-- The result of an operation that overflows silently.
abbrev pub wrap : ℕ → ℕ
wrap n = n % 2 ^ 64

abbrev pub is_negative : ℕ → Bool
is_negative a = leb (2 ^ 63) a

abbrev pub is_positive : ℕ → Bool
is_positive a = not (is_negative a) && not (a == 0)

-- `<` and `<=`: the patterns in order when the sign bit is turned over.
abbrev pub lt64 : ℕ → ℕ → Bool
lt64 a b = ltb (wrap (a + 2 ^ 63)) (wrap (b + 2 ^ 63))

abbrev pub le64 : ℕ → ℕ → Bool
le64 a b = leb (wrap (a + 2 ^ 63)) (wrap (b + 2 ^ 63))

-- `/`, which rounds to nought, by a positive number.
abbrev pub quot64 : ℕ → ℕ → ℕ
quot64 a b = if is_negative a then wrap (2 ^ 64 - (2 ^ 64 - a) / b) else a / b
