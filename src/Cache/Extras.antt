-- ===== src/Cache/Extras.antt =====
-- The blob of extra outputs is read back as the map that was written.
use hpcc.Prelude.{
  ℕ, suc, ◌+◌, ◌%◌, ◌^◌, ◌<◌, ◌≡◌, refl, sym, ◌∙◌, ap, subst, none, some, [], ◌∷◌, ◌++◌, Bytes,
  bytes_eq, bytes_eq_iff, le→ltb_false, if◌then◌else◌, length, length-append, take, drop,
  take-length-append, drop-length-append, All, arith,
}
use hpcc.Prelude.Endian.{be_value, be_value-be_bytes, length-be_bytes}
use hpcc.Prelude.Assoc.{lookup, insert, Distinct, Fresh, lookup-insert}
use hpcc.Cache.{
  Extras, place_path, sort_paths, uint32, uint64, encode_entries, encode_extras, read_value,
  read_path, read_entry, decode_entries, decode_extras,
}

lookup-place_path :
    (i k v : Bytes) (m : Extras)
    → Fresh k m
    → lookup i (place_path (k, v) m) ≡ (if bytes_eq k i then some v else lookup i m)
unfolding place_path lookup
lookup-place_path i k v [] f = refl
lookup-place_path i k v ((j, w) ∷ m) f =
    ground (arith, lookup-place_path i k v m, bytes_eq_iff k i, bytes_eq_iff j i, bytes_eq_iff j k)

place_path-Distinct :
    (k v : Bytes) (m : Extras) → Fresh k m → Distinct m → Distinct (place_path (k, v) m)
unfolding place_path lookup
place_path-Distinct k v [] f d = (refl, tt)
place_path-Distinct k v ((j, w) ∷ m) f d = ground (
  arith,
  place_path-Distinct k v m,
  lookup-place_path j k v m,
  bytes_eq_iff j k,
  bytes_eq_iff k j,
  f,
  d,
)

lookup-sort_paths : (i : Bytes) (m : Extras) → Distinct m → lookup i (sort_paths m) ≡ lookup i m
unfolding sort_paths lookup
lookup-sort_paths i [] d = refl
lookup-sort_paths i ((k, v) ∷ m) d =
    lookup-place_path i k v (sort_paths m) (lookup-sort_paths k m d.1 ∙ d.0)
    ∙ ap (λ o. if bytes_eq k i then some v else o) (lookup-sort_paths i m d.1)

sort_paths-Distinct : (m : Extras) → Distinct m → Distinct (sort_paths m)
unfolding sort_paths
sort_paths-Distinct [] d = tt
sort_paths-Distinct ((k, v) ∷ m) d =
    place_path-Distinct k v (sort_paths m) (lookup-sort_paths k m d.1 ∙ d.0)
      (sort_paths-Distinct m d.1)

length-place_path : (e : Bytes × Bytes) (m : Extras) → length (place_path e m) ≡ suc (length m)
unfolding place_path
length-place_path e [] = refl
length-place_path (k, v) ((j, w) ∷ m) = ground (arith, length-place_path (k, v) m)

length-sort_paths : (m : Extras) → length (sort_paths m) ≡ length m
unfolding sort_paths
length-sort_paths [] = refl
length-sort_paths (e ∷ m) = length-place_path e (sort_paths m) ∙ ap suc (length-sort_paths m)

-- Lengths that fit their fields.
abbrev pub IsShort : Bytes × Bytes → Type 0
IsShort e = (length e.0 < 2 ^ 32) × (length e.1 < 2 ^ 64)

place_path-IsShort :
    (e : Bytes × Bytes) (m : Extras) → IsShort e → All IsShort m → All IsShort (place_path e m)
unfolding place_path
place_path-IsShort e [] s a = (s, tt)
place_path-IsShort (k, v) ((j, w) ∷ m) s a = ground (arith, place_path-IsShort (k, v) m s a.1)

sort_paths-IsShort : (m : Extras) → All IsShort m → All IsShort (sort_paths m)
unfolding sort_paths
sort_paths-IsShort [] a = tt
sort_paths-IsShort (e ∷ m) a = place_path-IsShort e (sort_paths m) a.0 (sort_paths-IsShort m a.1)

-- A field of a known width in front of a text is taken off it.
take_field : (k : ℕ) (s t : Bytes) → length s ≡ k → take k (s ++ t) ≡ s
take_field k s t h = subst (λ n. take n (s ++ t) ≡ s) h (take-length-append s t)

drop_field : (k : ℕ) (s t : Bytes) → length s ≡ k → drop k (s ++ t) ≡ t
drop_field k s t h = subst (λ n. drop n (s ++ t) ≡ t) h (drop-length-append s t)

value_uint32 : (n : ℕ) → n < 2 ^ 32 → be_value (uint32 n) ≡ n
value_uint32 n h = be_value-be_bytes 4 (n % 2 ^ 32) (omega arith) ∙ omega (arith, h)

value_uint64 : (n : ℕ) → n < 2 ^ 64 → be_value (uint64 n) ≡ n
value_uint64 n h = be_value-be_bytes 8 (n % 2 ^ 64) (omega arith) ∙ omega (arith, h)

read_value-field :
    (path value rest : Bytes)
    → length value < 2 ^ 64
    → read_value path (uint64 (length value) ++ (value ++ rest)) ≡ some (path, value, rest)
unfolding read_value
read_value-field path value rest h =
    rw
      (
        take_field 8 (uint64 (length value)) (value ++ rest) (length-be_bytes 8 _),
        drop_field 8 (uint64 (length value)) (value ++ rest) (length-be_bytes 8 _),
        value_uint64 (length value) h,
        take-length-append value rest,
        drop-length-append value rest,
        le→ltb_false (length (value ++ rest)) (length value)
            (omega (arith, length-append value rest)),
      )
      refl

read_path-field :
    (path value rest : Bytes)
    → length value < 2 ^ 64
    → read_path (length path) (path ++ (uint64 (length value) ++ (value ++ rest)))
      ≡ some (path, value, rest)
unfolding read_path
read_path-field path value rest h =
    rw
      (
        take-length-append path (uint64 (length value) ++ (value ++ rest)),
        drop-length-append path (uint64 (length value) ++ (value ++ rest)),
        le→ltb_false (length (path ++ (uint64 (length value) ++ (value ++ rest)))) (length path + 8)
            (omega (
              arith,
              length-append path (uint64 (length value) ++ (value ++ rest)),
              length-append (uint64 (length value)) (value ++ rest),
              length-be_bytes 8 (length value % 2 ^ 64),
            )),
      )
      (read_value-field path value rest h)

read_entry-field :
    (path value rest : Bytes)
    → IsShort (path, value)
    → read_entry (uint32 (length path) ++ (path ++ (uint64 (length value) ++ (value ++ rest))))
      ≡ some (path, value, rest)
unfolding read_entry
read_entry-field path value rest h =
    rw
      (
        take_field 4 (uint32 (length path)) tail (length-be_bytes 4 _),
        drop_field 4 (uint32 (length path)) tail (length-be_bytes 4 _),
        value_uint32 (length path) h.0,
        le→ltb_false (length (uint32 (length path) ++ tail)) 4 (
            omega (
              arith,
              length-append (uint32 (length path)) tail,
              length-be_bytes 4 (length path % 2 ^ 32),
            )),
      )
      (read_path-field path value rest h.1)
  where
    tail : Bytes
    tail = path ++ (uint64 (length value) ++ (value ++ rest))

-- The entries go into the map one by one.
unfoldable inserts : Extras → Extras → Extras
inserts [] out = out
inserts ((path, value) ∷ m) out = inserts m (insert path value out)

decode_entries-encode_entries :
    (m out : Extras)
    → All IsShort m
    → decode_entries (length m) (encode_entries m) out ≡ some (inserts m out)
unfolding decode_entries encode_entries inserts
decode_entries-encode_entries [] out a = refl
decode_entries-encode_entries ((path, value) ∷ m) out a =
    rw (read_entry-field path value (encode_entries m) a.0, decode_entries)
      (decode_entries-encode_entries m (insert path value out) a.1)

lookup-inserts :
    (i : Bytes) (m out : Extras)
    → Distinct m
    → lookup i (inserts m out) ≡ elim (lookup i m) [ none ↦ lookup i out | some v ↦ some v ]
unfolding inserts lookup
lookup-inserts i [] out d = refl
lookup-inserts i ((k, v) ∷ m) out d =
    ground (
      arith,
      lookup-inserts i m (insert k v out) d.1,
      lookup-insert k i v out,
      bytes_eq_iff k i,
      d.0,
    )

-- decode_extras reads what encode_extras wrote, as the same map from paths to contents, if the
-- paths are distinct and the count and the lengths fit their fields of 32, 32 and 64 bits.
pub decode_extras-encode_extras :
    (extras : Extras)
    → Distinct extras
    → All IsShort extras
    → length extras < 2 ^ 32
    → (decoded : Extras) × (decode_extras (encode_extras extras) ≡ some decoded)
      × ((path : Bytes) → lookup path decoded ≡ lookup path extras)
unfolding decode_extras encode_extras lookup
decode_extras-encode_extras extras d a small = (inserts sorted [], read, same)
  where
    sorted : Extras
    sorted = sort_paths extras

    read : decode_extras (encode_extras extras) ≡ some (inserts sorted [])
    read =
        rw
          (
            le→ltb_false (length (uint32 (length extras) ++ encode_entries sorted)) 4 (
                omega (
                  arith,
                  length-append (uint32 (length extras)) (encode_entries sorted),
                  length-be_bytes 4 (length extras % 2 ^ 32),
                )),
            take_field 4 (uint32 (length extras)) (encode_entries sorted) (length-be_bytes 4 _),
            drop_field 4 (uint32 (length extras)) (encode_entries sorted) (length-be_bytes 4 _),
            value_uint32 (length extras) small,
            sym (length-sort_paths extras),
          )
          (decode_entries-encode_entries sorted [] (sort_paths-IsShort extras a))

    same : (path : Bytes) → lookup path (inserts sorted []) ≡ lookup path extras
    same path = ground (
      arith,
      lookup-inserts path sorted [] (sort_paths-Distinct extras d),
      lookup-sort_paths path extras d,
    )
