-- ===== src/Store/Size.antt =====
-- internal/config/filesize.go.
use hpcc.Prelude.{
  ℕ, zero, suc, ◌+◌, ◌-◌, ◌*◌, ◌/◌, ◌%◌, ◌^◌, ◌≤◌, ◌<◌, ◌≡◌, ◌⊎◌, inl, inr, Bool, ◌||◌, ◌&&◌,
  Option, none, some, List, [], ◌∷◌, Bytes, codes, bytes_eq, bytes_eq_iff, All, arith, Bool-cases,
  Option-cases, ltb, leb, ◌==◌, if◌then◌else◌,
}
use mathlib.Core.Logic.{◌↔◌}
use native.Mathlib.Nat.{div-lt_iff_lt-mul}
use hpcc.Prelude.Assoc.{lookup, lookup-All}

abbrev pub size_suffixes : List (Bytes × ℕ)
size_suffixes =
    (codes "", 1)
    ∷ (codes "b", 1)
    ∷ (codes "k", 1024)
    ∷ (codes "kb", 1024)
    ∷ (codes "kib", 1024)
    ∷ (codes "m", 1048576)
    ∷ (codes "mb", 1048576)
    ∷ (codes "mib", 1048576)
    ∷ (codes "g", 1073741824)
    ∷ (codes "gb", 1073741824)
    ∷ (codes "gib", 1073741824)
    ∷ (codes "t", 1099511627776)
    ∷ (codes "tb", 1099511627776)
    ∷ (codes "tib", 1099511627776)
    ∷ []

pub data SizeError : Type 0 where
  no_leading_digits unknown_unit out_of_range overflow : SizeError

pub data SizeResult : Type 0 where
  ok : ℕ → SizeResult
  err : SizeError → SizeResult

-- ASCII white space, and strings.TrimSpace.
is_space : ℕ → Bool
is_space c = c == b' ' || (leb 9 c && leb c 13)

trim_left : Bytes → Bytes
unfolding is_space
trim_left [] = []
trim_left (c ∷ s) = if is_space c then trim_left s else c ∷ s

trim_right : Bytes → Bytes
unfolding is_space
trim_right [] = []
trim_right (c ∷ s) = elim (trim_right s) [
  | [] ↦ if is_space c then [] else c ∷ []
  | x ∷ rest ↦ c ∷ x ∷ rest
]

unfoldable pub trim_space : Bytes → Bytes
unfolding trim_left trim_right
trim_space s = trim_right (trim_left s)

to_lower : Bytes → Bytes
to_lower [] = []
to_lower (c ∷ s) = (if leb b'A' c && leb c b'Z' then c + 32 else c) ∷ to_lower s

is_digit : ℕ → Bool
is_digit c = leb b'0' c && leb c b'9'

-- The unit that the table is asked for.
unfoldable pub unit_of : Bytes → Bytes
unfolding to_lower
unit_of rest = to_lower (trim_space rest)

-- The digits in front and the rest.
unfoldable pub split_digits : Bytes → Bytes × Bytes
unfolding is_digit
split_digits [] = ([], [])
split_digits (c ∷ s) =
    let rest = split_digits s in if is_digit c then (c ∷ rest.0, rest.1) else ([], c ∷ s)

-- The number that digits write.
unfoldable pub decimal : ℕ → Bytes → ℕ
decimal n [] = n
decimal n (c ∷ s) = decimal (10 * n + (c - 48)) s

-- strconv.ParseInt of digits, base 10 and 64 bits.
unfoldable pub parse_int : Bytes → Option ℕ
parse_int s = if ltb (decimal 0 s) (2 ^ 63) then some (decimal 0 s) else none

-- The multiplication of two int64 that are not negative, as a number modulo 2^64.
unfoldable pub scale : ℕ → ℕ → SizeResult
scale val multiplier =
    if ltb 1 multiplier && ltb (2 ^ 62 / multiplier) val
    then err overflow
    else ok (val * multiplier % 2 ^ 64)

unfoldable pub parse_digits : Bytes → Bytes → SizeResult
parse_digits digits rest = elim (lookup (unit_of rest) size_suffixes) [
  | none ↦ err unknown_unit
  | some multiplier ↦ elim (parse_int digits) [
    | none ↦ err out_of_range
    | some val ↦ scale val multiplier
  ]
]

unfoldable pub parse_trimmed : Bytes → SizeResult
parse_trimmed s =
    if bytes_eq s []
    then ok 0
    else if bytes_eq (split_digits s).0 []
    then err no_leading_digits
    else parse_digits (split_digits s).0 (split_digits s).1

unfoldable pub parse_size : Bytes → SizeResult
parse_size s = parse_trimmed (trim_space s)

-- A power of two from 1 to 2^40.
abbrev IsMultiplier : ℕ → Type 0
IsMultiplier m = (1 ≤ m) × (m ≤ 2 ^ 40)

multipliers : All (λ e. IsMultiplier e.1) size_suffixes
multipliers = ground arith

-- For a multiplier of at least 2 the overflow is reported exactly for products above 2^62, so also
-- for the sizes between 2^62 and 2^63 that an int64 holds.
pub scale-overflow : (val m : ℕ) → 2 ≤ m → (scale val m ≡ err overflow) ↔ (2 ^ 62 < val * m)
unfolding scale
scale-overflow val m h = (
  λ e. ground (arith, div-lt_iff_lt-mul {k = m} {x = 2 ^ 62} {y = val} (omega (arith, h))),
  λ l. ground (arith, div-lt_iff_lt-mul {k = m} {x = 2 ^ 62} {y = val} (omega (arith, h))),
)

scale_exact :
    (val m n : ℕ) → val < 2 ^ 63 → 1 ≤ m → scale val m ≡ ok n → (n ≡ val * m) × (n < 2 ^ 63)
unfolding scale
scale_exact val zero n h k e = absurd (omega (arith, k))
scale_exact val (suc zero) n h k e = (ground arith, ground arith)
scale_exact val (suc (suc m)) n h k e =
    let small : val * suc (suc m) ≤ 2 ^ 62 = ground (arith, scale-overflow val (suc (suc m))) in
    (ground (arith, small), ground (arith, small))

-- What an accepted size was: nothing, or digits and a unit, whose product it is.
pub record Exact (s : Bytes) (n : ℕ) : Type 0 where
  pub multiplier : ℕ
  pub unit : lookup (unit_of (split_digits s).1) size_suffixes ≡ some multiplier
  pub value : n ≡ decimal 0 (split_digits s).0 * multiplier

parse_digits-ok :
    (digits rest : Bytes) (n : ℕ)
    → parse_digits digits rest ≡ ok n
    → (m : ℕ) × (lookup (unit_of rest) size_suffixes ≡ some m)
      × (n ≡ decimal 0 digits * m)
      × (n < 2 ^ 63)
unfolding parse_digits parse_int
parse_digits-ok digits rest n h = elim (Option-cases (lookup (unit_of rest) size_suffixes)) [
  | inl unknown ↦ absurd (let q : ⊥ = ground arith in q)
  | inr (m, unit) ↦ elim (Bool-cases (ltb (decimal 0 digits) (2 ^ 63))) [
    | inr large ↦ absurd (let q : ⊥ = ground arith in q)
    | inl small ↦
        let b =
          lookup-All (λ k x. IsMultiplier x) (unit_of rest) m size_suffixes multipliers unit in
        let (value, bound) = scale_exact (decimal 0 digits) m n (ground arith) b.0 (ground arith) in
        (m, unit, value, bound)
  ]
]

-- A size that parse_size accepts is below 2^63, and it is 0 for a blank text or else exactly the
-- number that the leading digits write, times the multiplier of the unit, without wrapping.
pub parse_size-Exact :
    (s : Bytes) (n : ℕ)
    → parse_size s ≡ ok n
    → (n < 2 ^ 63) × (((trim_space s ≡ []) × (n ≡ 0)) ⊎ Exact (trim_space s) n)
unfolding parse_size parse_trimmed
parse_size-Exact s n h = elim (Bool-cases (bytes_eq (trim_space s) [])) [
  | inl empty ↦ (ground arith, inl ((bytes_eq_iff (trim_space s) []).0 empty, ground arith))
  | inr text ↦ elim (Bool-cases (bytes_eq (split_digits (trim_space s)).0 [])) [
    | inl no_digits ↦ absurd (let q : ⊥ = ground arith in q)
    | inr digits ↦
        let (m, unit, value, bound) = parse_digits-ok _ _ n (ground arith) in
        (bound, inr (record { multiplier = m; unit = unit; value = value }))
  ]
]
