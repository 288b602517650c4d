-- ===== src/Supervisor/Ports.antt =====
-- internal/supervisor/ports.go: the port that a deployment gets.
use iold.Base.{
  ℕ, zero, suc, ◌+◌, ◌≤◌, ◌<◌, ◌≡◌, ◌||◌, ◌==◌, ==_iff, Bool, true, false, List, [], ◌∷◌, arith,
  subst, sym, if◌then◌else◌, Bool-cases, inl, inr, Option, none, some,
}

abbrev pub port_scan_window : ℕ
port_scan_window = 100

-- `slices.Contains`.
unfoldable pub reserves : List ℕ → ℕ → Bool
reserves [] port = false
reserves (r ∷ rs) port = r == port || reserves rs port

-- Whether each port can be bound is asked port by port: `free i` is the answer of the i-th listen.
-- The state of the scan is the answers left.
unfoldable pub scan : (free : ℕ → Bool) → List ℕ → (rounds port : ℕ) → Option ℕ
scan free reserved zero port = none
scan free reserved (suc rounds) port =
    let rest = scan free reserved rounds (port + 1) in
    if reserves reserved port then rest else if free port then some port else rest

-- `none` stands for ErrNoFreePort.
unfoldable pub allocate_port : (free : ℕ → Bool) → ℕ → List ℕ → Option ℕ
unfolding scan
allocate_port free preferred reserved = scan free reserved port_scan_window preferred

-- The port `p` may be given out.
abbrev pub Usable : (ℕ → Bool) → List ℕ → ℕ → Type 0
Usable free reserved p = (reserves reserved p ≡ false) × (free p ≡ true)

scan-some :
    (free : ℕ → Bool) (reserved : List ℕ) (rounds port p : ℕ)
    → scan free reserved rounds port ≡ some p
    → (port ≤ p) × (p < port + rounds) × Usable free reserved p
unfolding scan
scan-some free reserved zero port p e = cc
scan-some free reserved (suc rounds) port p e =
    ground (arith, scan-some free reserved rounds (port + 1) p)

scan_first :
    (free : ℕ → Bool) (reserved : List ℕ) (rounds port p q : ℕ)
    → scan free reserved rounds port ≡ some p
    → port ≤ q
    → q < p
    → Usable free reserved q
    → ⊥
unfolding scan
scan_first free reserved zero port p q e a b u = cc
scan_first free reserved (suc rounds) port p q e a b u = elim (Bool-cases (port == q)) [
  | inl here ↦ first_is ((==_iff port q).0 here)
  | inr on ↦ ground (arith, scan_first free reserved rounds (port + 1) p q)
]
  where
    first_is : port ≡ q → ⊥
    first_is h = ground (arith, subst (λ x. Usable free reserved x) (sym h) u)

scan-none :
    (free : ℕ → Bool) (reserved : List ℕ) (rounds port q : ℕ)
    → scan free reserved rounds port ≡ none
    → port ≤ q
    → q < port + rounds
    → Usable free reserved q
    → ⊥
unfolding scan
scan-none free reserved zero port q e a b u = omega arith
scan-none free reserved (suc rounds) port q e a b u = elim (Bool-cases (port == q)) [
  | inl here ↦ first_is ((==_iff port q).0 here)
  | inr on ↦ ground (arith, scan-none free reserved rounds (port + 1) q)
]
  where
    first_is : port ≡ q → ⊥
    first_is h = ground (arith, subst (λ x. Usable free reserved x) (sym h) u)

-- A port that `AllocatePort` returns lies in the window of 100 from the preferred one, is not reserved
-- and is free.
pub allocate_port-Usable :
    (free : ℕ → Bool) (preferred : ℕ) (reserved : List ℕ) (p : ℕ)
    → allocate_port free preferred reserved ≡ some p
    → (preferred ≤ p) × (p < preferred + 100) × Usable free reserved p
unfolding allocate_port
allocate_port-Usable free preferred reserved p e =
    scan-some free reserved port_scan_window preferred p e

-- It is the first such port: none between the preferred one and it is usable.
pub allocate_port-first :
    (free : ℕ → Bool) (preferred : ℕ) (reserved : List ℕ) (p q : ℕ)
    → allocate_port free preferred reserved ≡ some p
    → preferred ≤ q
    → q < p
    → ¬ Usable free reserved q
unfolding allocate_port
allocate_port-first free preferred reserved p q e a b u =
    scan_first free reserved port_scan_window preferred p q e a b u

-- `AllocatePort` fails only if no port of the window is usable.
pub allocate_port-none :
    (free : ℕ → Bool) (preferred : ℕ) (reserved : List ℕ) (q : ℕ)
    → allocate_port free preferred reserved ≡ none
    → preferred ≤ q
    → q < preferred + 100
    → ¬ Usable free reserved q
unfolding allocate_port
allocate_port-none free preferred reserved q e a b u =
    scan-none free reserved port_scan_window preferred q e a b u
