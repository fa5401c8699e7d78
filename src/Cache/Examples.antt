-- ===== src/Cache/Examples.antt =====
-- The cache's theorems at concrete inputs.
use hpcc.Prelude.{◌≡◌, refl, some, List, [], ◌∷◌, map, Bytes, codes, bytes_eq, All, arith}
use hpcc.Prelude.Int.{pos}
use hpcc.Prelude.Assoc.{lookup, Distinct}
use hpcc.Cache.{
  Extras, InvocationResult, Got, absent, Blobs, view, store_result, lookup_layers, hit,
  encode_extras, decode_extras,
}
use hpcc.Cache.Extras.{IsShort, decode_extras-encode_extras}
use hpcc.Cache.Results.{Replayed, lookup_layers-store_result}

abbrev extras : Extras
extras = (codes "b.d", codes "b.o: b.c") ∷ (codes "a.d", codes "a.o: a.c") ∷ []

extras-Distinct : Distinct extras
unfolding lookup bytes_eq
extras-Distinct = (refl, (refl, tt))

extras-IsShort : All IsShort extras
extras-IsShort = ((omega arith, omega arith), ((omega arith, omega arith), tt))

decode_extras-encode_extras_example :
    (decoded : Extras) × (decode_extras (encode_extras extras) ≡ some decoded)
    × ((path : Bytes) → lookup path decoded ≡ lookup path extras)
decode_extras-encode_extras_example =
    decode_extras-encode_extras extras extras-Distinct extras-IsShort (omega arith)

abbrev result : InvocationResult
result = record {
  exit_code = pos 0;
  stdout = [];
  stderr = codes "warning";
  output = codes "ELF";
  extras = extras;
}

no_file : Bytes → Got
no_file path = absent

lookup_layers-store_result_example :
    (stored : List Blobs) × (again : InvocationResult) × (store_result no_file
        (codes "b.o")
        (codes "meta")
        result
        ([] ∷ [] ∷ [])
      ≡ some stored)
    × (lookup_layers (codes "b.o") (map view stored) ≡ hit again)
    × Replayed (codes "b.o") result again
unfolding lookup
lookup_layers-store_result_example =
    lookup_layers-store_result no_file (codes "b.o") (codes "meta") result [] ([] ∷ []) refl
      (λ e. cc) (extras-Distinct, extras-IsShort, omega arith) refl
