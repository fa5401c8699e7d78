-- ===== src/Store/Paths.antt =====
-- Which names and keys share a file.
use hpcc.Prelude.{
  ℕ, ◌/◌, ◌%◌, ◌<◌, ◌≡◌, ◌≢◌, refl, sym, ap, inl, inr, true, false, [], ◌∷◌, ◌++◌, Bytes, codes,
  bytes_eq, bytes_eq_iff, All, arith, Bool-cases, length, length-append,
}
use mathlib.Core.List.{append_assoc}
use hpcc.Prelude.Cut.{Without, last_injective}
use hpcc.Store.{
  DiskCacheStore, has_separator, validate_name, join, hex_digit, hex, entry_dir, blob_path,
  tmp_path,
}

-- The bytes of a digest.
abbrev pub IsBytes : Bytes → Type 0
IsBytes s = All (λ c. c < 256) s

hex_digit_injective : (m n : ℕ) → m < 16 → n < 16 → hex_digit m ≡ hex_digit n → m ≡ n
hex_digit_injective m n hm hn e = ground arith

pub hex_injective : (s t : Bytes) → IsBytes s → IsBytes t → hex s ≡ hex t → s ≡ t
unfolding hex
hex_injective [] [] a b e = refl
hex_injective [] (d ∷ t) a b e = absurd (let q : ⊥ = cc in q)
hex_injective (c ∷ s) [] a b e = absurd (let q : ⊥ = cc in q)
hex_injective (c ∷ s) (d ∷ t) a b e =
    let upper : hex_digit (c / 16) ≡ hex_digit (d / 16) = cc in
    let lower : hex_digit (c % 16) ≡ hex_digit (d % 16) = cc in
    let rest : hex s ≡ hex t = cc in
    let high =
      hex_digit_injective (c / 16) (d / 16) (omega (arith, a.0)) (omega (arith, b.0)) upper in
    let low = hex_digit_injective (c % 16) (d % 16) (omega arith) (omega arith) lower in
    let heads : c ≡ d = omega (arith, high, low) in let tails = hex_injective s t a.1 b.1 rest in cc

pub hex_digit_slash : (n : ℕ) → hex_digit n ≢ b'/'
hex_digit_slash n e = ground arith

pub hex-Without : (s : Bytes) → IsBytes s → Without b'/' (hex s)
unfolding hex
hex-Without [] a = tt
hex-Without (c ∷ s) a = (hex_digit_slash (c / 16), (hex_digit_slash (c % 16), hex-Without s a.1))

entry_dir_below : (d : DiskCacheStore) (c : ℕ) (key : Bytes) → d.dir ≢ entry_dir d (c ∷ key)
unfolding entry_dir
entry_dir_below d c key e = omega (
  arith,
  ap length e,
  length-append (join d.dir shard) (b'/' ∷ hex (c ∷ key)),
  length-append d.dir (b'/' ∷ shard),
)
  where
    shard : Bytes
    shard = hex_digit (c / 16) ∷ hex_digit (c % 16) ∷ []

entry_dir_injective :
    (d : DiskCacheStore) (s t : Bytes)
    → IsBytes s
    → IsBytes t
    → entry_dir d s ≡ entry_dir d t
    → s ≡ t
unfolding entry_dir
entry_dir_injective d [] [] a b e = refl
entry_dir_injective d [] (c ∷ t) a b e = absurd (entry_dir_below d c t e)
entry_dir_injective d (c ∷ s) [] a b e = absurd (entry_dir_below d c s (sym e))
entry_dir_injective d (c ∷ s) (x ∷ t) a b e =
    hex_injective (c ∷ s) (x ∷ t) a b
      (last_injective b'/' _ _ (hex (c ∷ s)) (hex (x ∷ t)) (hex-Without (c ∷ s) a)
        (hex-Without (x ∷ t) b) e).1

pub has_separator-Without : (s : Bytes) → has_separator s ≡ false → Without b'/' s
unfolding has_separator
has_separator-Without [] h = tt
has_separator-Without (c ∷ s) h = (λ e. ground arith, has_separator-Without s (ground arith))

pub validate_name-Without : (name : Bytes) → validate_name name ≡ true → Without b'/' name
unfolding validate_name
validate_name-Without name h = has_separator-Without name (ground arith)

-- Two keys of bytes and two valid names that have one path in a store are the same key and the
-- same name, so no two blobs share a file.
pub blob_path_injective :
    (d : DiskCacheStore) (k j name other : Bytes)
    → IsBytes k
    → IsBytes j
    → validate_name name ≡ true
    → validate_name other ≡ true
    → blob_path d k name ≡ blob_path d j other
    → (k ≡ j) × (name ≡ other)
unfolding blob_path
blob_path_injective d k j name other a b v w e =
    let (dirs, names) =
      last_injective b'/' (entry_dir d k) (entry_dir d j) name other (validate_name-Without name v)
        (validate_name-Without other w) e in
    (entry_dir_injective d k j a b dirs, names)

has_separator-append :
    (s t : Bytes)
    → has_separator s ≡ false
    → has_separator t ≡ false
    → has_separator (s ++ t) ≡ false
unfolding has_separator
has_separator-append [] t h k = k
has_separator-append (c ∷ s) t h k = ground (arith, has_separator-append s t)

bytes_eq_longer : (s t : Bytes) → length t < length s → bytes_eq s t ≡ false
bytes_eq_longer s t h = elim (Bool-cases (bytes_eq s t)) [
  | inl same ↦ absurd (omega (arith, h, ap length ((bytes_eq_iff s t).0 same)))
  | inr other ↦ other
]

tmp-separator : has_separator (codes ".tmp") ≡ false
unfolding has_separator
tmp-separator = refl

validate_name-tmp :
    (name : Bytes) → validate_name name ≡ true → validate_name (name ++ codes ".tmp") ≡ true
unfolding validate_name
validate_name-tmp name v =
    let longer : 3 < length (name ++ codes ".tmp") =
      omega (arith, length-append name (codes ".tmp")) in
    let a = bytes_eq_longer (name ++ codes ".tmp") [] (omega (arith, longer)) in
    let b = bytes_eq_longer (name ++ codes ".tmp") (codes ".") (omega (arith, longer)) in
    let c = bytes_eq_longer (name ++ codes ".tmp") (codes "..") (omega (arith, longer)) in
    let d = has_separator-append name (codes ".tmp") (ground arith) tmp-separator in
    rw (a, b, c, d) refl

-- For every valid name the name with the suffix .tmp is valid too, and its path is the temporary
-- file of the first name, so a put of the one overwrites and removes a blob of the other.
pub tmp_path-blob_path :
    (d : DiskCacheStore) (key name : Bytes)
    → validate_name name ≡ true
    → (validate_name (name ++ codes ".tmp") ≡ true)
      × (tmp_path (blob_path d key name) ≡ blob_path d key (name ++ codes ".tmp"))
unfolding tmp_path blob_path
tmp_path-blob_path d key name v =
    (validate_name-tmp name v, append_assoc (entry_dir d key) (b'/' ∷ name) (codes ".tmp"))
