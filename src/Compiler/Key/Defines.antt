-- ===== src/Compiler/Key/Defines.antt =====
-- The macro definitions in the flags chunk: sorting and encoding keep the map.
use mathlib.Core.Path.{ap₂}
use hpcc.Prelude.{
  ℕ, ◌≡◌, refl, ◌≢◌, inl, inr, List, [], ◌∷◌, ◌++◌, Bytes, arith, All, some, bytes_eq, bytes_eq_iff,
  if◌then◌else◌, Bool-cases,
}
use hpcc.Prelude.Assoc.{lookup, Fresh, Distinct}
use hpcc.Compiler.Key.{define_entries, place_define, sort_by_key, bytes_lt}
use hpcc.Compiler.Key.Decode.{Free, IsItem, split_at}

-- A macro name holds neither a null nor "=", a value no null.
abbrev pub IsDefine : Bytes × Bytes → Type 0
IsDefine (k, v) = Free 0 k × Free b'=' k × Free 0 v

Free-append : (b : ℕ) (s t : Bytes) → Free b s → Free b t → Free b (s ++ t)
Free-append b [] t fs ft = ft
Free-append b (c ∷ s) t fs ft = (fs.0, Free-append b s t fs.1 ft)

append-ne-nil : (s : Bytes) (c : ℕ) (t : Bytes) → s ++ (c ∷ t) ≢ []
append-ne-nil [] c t e = cc
append-ne-nil (d ∷ s) c t e = cc

define_entries-IsItem : (m : List (Bytes × Bytes)) → All IsDefine m → All IsItem (define_entries m)
define_entries-IsItem [] h = tt
define_entries-IsItem ((k, v) ∷ m) h = (
  (Free-append 0 k (b'=' ∷ v) h.0.0 (λ e. omega arith, h.0.2), append-ne-nil k b'=' v),
  define_entries-IsItem m h.1,
)

-- The entries determine the definitions.
pub define_entries_injective :
    (m n : List (Bytes × Bytes))
    → All IsDefine m
    → All IsDefine n
    → define_entries m ≡ define_entries n
    → m ≡ n
define_entries_injective [] [] hm hn e = refl
define_entries_injective [] (d ∷ n) hm hn e = cc
define_entries_injective (d ∷ m) [] hm hn e = cc
define_entries_injective ((k, v) ∷ m) ((j, w) ∷ n) hm hn e =
    let heads : k ++ (b'=' ∷ v) ≡ j ++ (b'=' ∷ w) = cc in
    let tails : define_entries m ≡ define_entries n = cc in
    let (keys, values) = split_at b'=' k j v w hm.0.1 hn.0.1 heads in
    let ih = define_entries_injective m n hm.1 hn.1 tails in
    let pairs : ◌≡◌ {A = Bytes × Bytes} (k, v) (j, w) = λ i. (keys i, values i) in ap₂ ◌∷◌ pairs ih

place_define-All :
    (d : Bytes × Bytes) (m : List (Bytes × Bytes))
    → IsDefine d
    → All IsDefine m
    → All IsDefine (place_define d m)
unfolding place_define
place_define-All d [] hd h = (hd, tt)
place_define-All (k, v) ((j, w) ∷ m) hd h = elim (Bool-cases (bytes_lt j k)) [
  | inl e ↦ rw e (h.0, place_define-All (k, v) m hd h.1)
  | inr e ↦ rw e (hd, h)
]

pub sort_by_key-All : (m : List (Bytes × Bytes)) → All IsDefine m → All IsDefine (sort_by_key m)
unfolding sort_by_key
sort_by_key-All [] h = tt
sort_by_key-All (d ∷ m) h = place_define-All d (sort_by_key m) h.0 (sort_by_key-All m h.1)

pub sort_by_key-IsItem :
    (m : List (Bytes × Bytes)) → All IsDefine m → All IsItem (define_entries (sort_by_key m))
sort_by_key-IsItem m h = define_entries-IsItem (sort_by_key m) (sort_by_key-All m h)

lookup-place_define :
    (i k v : Bytes) (m : List (Bytes × Bytes))
    → Fresh k m
    → lookup i (place_define (k, v) m) ≡ (if bytes_eq k i then some v else lookup i m)
unfolding place_define lookup
lookup-place_define i k v [] f = refl
lookup-place_define i k v ((j, w) ∷ m) f =
    ground
      (arith, bytes_eq_iff k i, bytes_eq_iff j i, bytes_eq_iff j k, lookup-place_define i k v m)

-- Sorting keeps the map.
pub lookup-sort_by_key :
    (i : Bytes) (m : List (Bytes × Bytes)) → Distinct m → lookup i (sort_by_key m) ≡ lookup i m
unfolding sort_by_key lookup
lookup-sort_by_key i [] d = refl
lookup-sort_by_key i ((k, v) ∷ m) d = ground (
  arith,
  lookup-place_define i k v (sort_by_key m),
  lookup-sort_by_key i m d.1,
  lookup-sort_by_key k m d.1,
)
