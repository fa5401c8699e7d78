-- ===== src/Cache/Results.antt =====
-- A result that Store writes is the one that Lookup returns.
use hpcc.Prelude.{
  ◌^◌, ◌<◌, ◌≡◌, ◌≢◌, refl, sym, ◌∙◌, ap, inl, inr, Bool, true, false, Option, none, some, List, [],
  ◌∷◌, map, Bytes, codes, bytes_eq, bytes_eq_iff, if◌then◌else◌, length, All, arith, Bool-cases,
}
use hpcc.Prelude.Int.{pos}
use hpcc.Prelude.Assoc.{lookup, insert, Distinct, lookup-insert}
use hpcc.Store.Size.{split_digits, decimal}
use hpcc.Cache.{
  Extras, InvocationResult, Got, absent, present, Layer, loaded, hit, atoi, atoi_digits,
  load_extras, load_output, load_streams, load_entry, lookup_layers, Blobs, blob_of, view,
  stored_output, store_entry, store_all, store_result, encode_extras, put_some, extras_blob,
  is_entry,
}
use hpcc.Cache.Extras.{IsShort, decode_extras-encode_extras}

-- Extra outputs that fit their fields.
abbrev pub FitsBlob : Extras → Type 0
FitsBlob extras = Distinct extras × All IsShort extras × (length extras < 2 ^ 32)

blob_of-some :
    (blobs : Blobs) (name value : Bytes)
    → lookup name blobs ≡ some value
    → blob_of blobs name ≡ present value
unfolding blob_of
blob_of-some blobs name value h = rw (h, blob_of) refl

blob_of-none :
    (blobs : Blobs) (name : Bytes) → lookup name blobs ≡ none → blob_of blobs name ≡ absent
unfolding blob_of
blob_of-none blobs name h = rw (h, blob_of) refl

module _ (output meta : Bytes) (res : InvocationResult) (blobs : Blobs) where
  abbrev pub after : Blobs
  after = store_entry (some output) meta res blobs

  abbrev Reads : Bytes → Bytes → Type 0
  Reads name value = blob_of after name ≡ present value

  abbrev with_output : Blobs
  with_output = insert (codes "output") output blobs

  abbrev with_stdout : Blobs
  with_stdout = insert (codes "stdout") res.stdout with_output

  abbrev with_stderr : Blobs
  with_stderr = insert (codes "stderr") res.stderr with_stdout

  abbrev with_exit_code : Blobs
  with_exit_code = insert (codes "exit_code") (codes "0") with_stderr

  abbrev with_metadata : Blobs
  with_metadata = insert (codes "metadata") meta with_exit_code

  -- The last put leaves every other blob alone.
  other_blob :
      (x : Option Bytes) (name : Bytes)
      → bytes_eq (codes "extras") name ≡ false
      → lookup name (put_some (codes "extras") x with_metadata) ≡ lookup name with_metadata
  other_blob none name h = refl
  other_blob (some s) name h =
      lookup-insert (codes "extras") name s with_metadata
      ∙ ap (λ b. if b then some s else lookup name with_metadata) h

  reads :
      (name value : Bytes)
      → bytes_eq (codes "extras") name ≡ false
      → lookup name with_metadata ≡ some value
      → Reads name value
  unfolding store_entry
  reads name value h e =
      blob_of-some after name value (other_blob (extras_blob res.extras) name h ∙ e)

  Reads-exit_code : Reads (codes "exit_code") (codes "0")
  unfolding bytes_eq
  Reads-exit_code = reads (codes "exit_code") (codes "0") refl (
      lookup-insert (codes "metadata") (codes "exit_code") meta with_exit_code
      ∙ lookup-insert (codes "exit_code") (codes "exit_code") (codes "0") with_stderr)

  Reads-stderr : Reads (codes "stderr") res.stderr
  unfolding bytes_eq
  Reads-stderr = reads (codes "stderr") res.stderr refl (
      lookup-insert (codes "metadata") (codes "stderr") meta with_exit_code
      ∙ lookup-insert (codes "exit_code") (codes "stderr") (codes "0") with_stderr
      ∙ lookup-insert (codes "stderr") (codes "stderr") res.stderr with_stdout)

  Reads-stdout : Reads (codes "stdout") res.stdout
  unfolding bytes_eq
  Reads-stdout = reads (codes "stdout") res.stdout refl (
      lookup-insert (codes "metadata") (codes "stdout") meta with_exit_code
      ∙ lookup-insert (codes "exit_code") (codes "stdout") (codes "0") with_stderr
      ∙ lookup-insert (codes "stderr") (codes "stdout") res.stderr with_stdout
      ∙ lookup-insert (codes "stdout") (codes "stdout") res.stdout with_output)

  Reads-output : Reads (codes "output") output
  unfolding bytes_eq
  Reads-output = reads (codes "output") output refl (
      lookup-insert (codes "metadata") (codes "output") meta with_exit_code
      ∙ lookup-insert (codes "exit_code") (codes "output") (codes "0") with_stderr
      ∙ lookup-insert (codes "stderr") (codes "output") res.stderr with_stdout
      ∙ lookup-insert (codes "stdout") (codes "output") res.stdout with_output
      ∙ lookup-insert (codes "output") (codes "output") output blobs)

  -- The extra outputs, where no older blob of them is there.
  no_extras : lookup (codes "extras") blobs ≡ none → lookup (codes "extras") with_metadata ≡ none
  unfolding bytes_eq
  no_extras h =
      lookup-insert (codes "metadata") (codes "extras") meta with_exit_code
      ∙ lookup-insert (codes "exit_code") (codes "extras") (codes "0") with_stderr
      ∙ lookup-insert (codes "stderr") (codes "extras") res.stderr with_stdout
      ∙ lookup-insert (codes "stdout") (codes "extras") res.stdout with_output
      ∙ lookup-insert (codes "output") (codes "extras") output blobs
      ∙ h

  extras_from :
      (extras : Extras)
      → FitsBlob extras
      → lookup (codes "extras") blobs ≡ none
      → (path : Bytes)
      → lookup path (
          load_extras (
            blob_of
              (put_some (codes "extras") (extras_blob extras) with_metadata)
              (codes "extras")))
        ≡ lookup path extras
  unfolding load_extras bytes_eq
  extras_from [] f h path = rw (blob_of-none with_metadata (codes "extras") (no_extras h)) refl
  extras_from (e ∷ extras) f h path =
      let (decoded, read, same) = decode_extras-encode_extras (e ∷ extras) f.0 f.1 f.2 in
      let there =
        lookup-insert (codes "extras") (codes "extras") (encode_extras (e ∷ extras))
          with_metadata in
      rw (blob_of-some _ (codes "extras") (encode_extras (e ∷ extras)) there, load_extras, read)
        (same path)

  loads_extras :
      FitsBlob res.extras
      → lookup (codes "extras") blobs ≡ none
      → (path : Bytes)
      → lookup path (load_extras (blob_of after (codes "extras"))) ≡ lookup path res.extras
  unfolding store_entry
  loads_extras = extras_from res.extras

-- The exit code that is stored is read as 0.
atoi_zero : atoi (codes "0") ≡ some (pos 0)
unfolding atoi atoi_digits bytes_eq split_digits decimal
atoi_zero = refl

-- What Lookup returns after a Store of `res`.
pub record Replayed (output_path : Bytes) (res again : InvocationResult) : Type 0 where
  pub exit_code : again.exit_code ≡ res.exit_code
  pub stdout : again.stdout ≡ res.stdout
  pub stderr : again.stderr ≡ res.stderr
  pub output : again.output ≡ (if bytes_eq output_path [] then [] else res.output)
  pub extras : (path : Bytes) → lookup path again.extras ≡ lookup path res.extras

-- An entry with all its blobs loads.
load_entry-present :
    (layer : Layer) (path stdout stderr output : Bytes)
    → layer.get (codes "exit_code") ≡ present (codes "0")
    → layer.get (codes "stdout") ≡ present stdout
    → layer.get (codes "stderr") ≡ present stderr
    → layer.get (codes "output") ≡ present output
    → load_entry layer path
      ≡ loaded (record {
        exit_code = pos 0;
        stdout = stdout;
        stderr = stderr;
        output = if bytes_eq path [] then [] else output;
        extras = load_extras (layer.get (codes "extras"));
      })
unfolding load_entry load_streams load_output
load_entry-present layer path stdout stderr output a b c d = elim (Bool-cases (bytes_eq path [])) [
  | inl no_path ↦ rw (a, load_entry, atoi_zero, b, load_streams, c, no_path, load_output) refl
  | inr wanted ↦ rw (a, load_entry, atoi_zero, b, load_streams, c, wanted, load_output, d) refl
]

is_entry-insert : (name value : Bytes) (blobs : Blobs) → is_entry (insert name value blobs) ≡ true
unfolding insert
is_entry-insert name value [] = refl
is_entry-insert name value ((j, w) ∷ blobs) = ground arith

is_entry-after :
    (output meta : Bytes) (res : InvocationResult) (blobs : Blobs)
    → is_entry (after output meta res blobs) ≡ true
unfolding store_entry
is_entry-after output meta res blobs = from (extras_blob res.extras)
  where
    from :
        (x : Option Bytes)
        → is_entry (put_some (codes "extras") x (with_metadata output meta res blobs)) ≡ true
    from none = is_entry-insert (codes "metadata") meta _
    from (some s) = is_entry-insert (codes "extras") s _

store_result-stored :
    (read_file : Bytes → Got) (output_path meta : Bytes) (res : InvocationResult) (blobs : Blobs)
    (layers : List Blobs)
    → res.exit_code ≡ pos 0
    → res.output ≢ []
    → store_result read_file output_path meta res (blobs ∷ layers)
      ≡ some (store_all (some res.output) meta res (blobs ∷ layers))
unfolding store_result stored_output
store_result-stored read_file output_path meta res blobs layers zero_exit full =
    let some_output : bytes_eq res.output [] ≡ false =
      ground (arith, bytes_eq_iff res.output [], full) in
    simp (zero_exit, some_output, store_result, stored_output) refl

lookup_layers-first :
    (path : Bytes) (layer : Layer) (layers : List Layer) (res : InvocationResult)
    → layer.has ≡ some true
    → load_entry layer path ≡ loaded res
    → lookup_layers path (layer ∷ layers) ≡ hit res
unfolding lookup_layers
lookup_layers-first path layer layers res h e = rw (h, e, lookup_layers) refl

-- When the result of a compile with the exit code 0 and an output that is not empty is stored, and
-- the first store held no extra outputs for its key, the lookup that follows is a hit: the exit
-- code and the two streams are the stored ones, the output is the stored one or is left out where
-- none is asked for, and the extra outputs are the stored ones as a map, if they have distinct
-- paths and fit their length fields.
pub lookup_layers-store_result :
    (read_file : Bytes → Got) (output_path meta : Bytes) (res : InvocationResult) (blobs : Blobs)
    (layers : List Blobs)
    → res.exit_code ≡ pos 0
    → res.output ≢ []
    → FitsBlob res.extras
    → lookup (codes "extras") blobs ≡ none
    → (stored : List Blobs) × (again : InvocationResult) × (store_result read_file output_path meta
          res
          (blobs ∷ layers)
        ≡ some stored)
      × (lookup_layers output_path (map view stored) ≡ hit again)
      × Replayed output_path res again
unfolding store_all
lookup_layers-store_result read_file output_path meta res blobs layers zero_exit full fits fresh = (
  store_all (some res.output) meta res (blobs ∷ layers),
  again,
  store_result-stored read_file output_path meta res blobs layers zero_exit full,
  lookup_layers-first output_path (view first)
      (map view (store_all (some res.output) meta res layers)) again
      (ap (λ (b : Bool). some b) (is_entry-after res.output meta res blobs))
      (load_entry-present (view first) output_path res.stdout res.stderr res.output
        (Reads-exit_code res.output meta res blobs) (Reads-stdout res.output meta res blobs)
        (Reads-stderr res.output meta res blobs) (Reads-output res.output meta res blobs)),
  record {
    exit_code = sym zero_exit;
    stdout = refl;
    stderr = refl;
    output = refl;
    extras = loads_extras res.output meta res blobs fits fresh;
  },
)
  where
    first : Blobs
    first = after res.output meta res blobs

    again : InvocationResult
    again = record {
      exit_code = pos 0;
      stdout = res.stdout;
      stderr = res.stderr;
      output = if bytes_eq output_path [] then [] else res.output;
      extras = load_extras (blob_of first (codes "extras"));
    }
