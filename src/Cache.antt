-- ===== src/Cache.antt =====
-- internal/cache/compile.go: the blob of extra outputs, and the results of compiles in a list of
-- stores. A store's blobs of one tenant and one key are a map from names to contents; the clock and
-- the JSON text of the metadata are arguments.
pub mod Extras
pub mod Results
mod Examples
use hpcc.Prelude.{
  ℕ, zero, suc, ◌+◌, ◌-◌, ◌%◌, ◌^◌, Bool, true, false, not, ◌||◌, ◌==◌, Option, none, some, List,
  [], ◌∷◌, ◌++◌, Bytes, codes, bytes_eq, ltb, if◌then◌else◌, length, take, drop,
}
use hpcc.Prelude.Int.{ℤ, pos, negsuc}
use hpcc.Store.Size.{split_digits, decimal}
use hpcc.Prelude.Endian.{be_bytes, be_value}
use hpcc.Prelude.Assoc.{lookup, insert}
use hpcc.Compiler.Key.{bytes_lt}

-- The map of extra outputs by their paths.
abbrev pub Extras : Type 0
Extras = List (Bytes × Bytes)

unfoldable pub place_path : Bytes × Bytes → Extras → Extras
place_path e [] = e ∷ []
place_path (k, v) ((j, w) ∷ m) =
    if bytes_lt j k then (j, w) ∷ place_path (k, v) m else (k, v) ∷ (j, w) ∷ m

-- The entries in the order of sort.Strings over the paths.
unfoldable pub sort_paths : Extras → Extras
sort_paths [] = []
sort_paths (e ∷ m) = place_path e (sort_paths m)

-- uint32 and uint64 in big-endian order.
abbrev pub uint32 : ℕ → Bytes
uint32 n = be_bytes 4 (n % 2 ^ 32)

abbrev pub uint64 : ℕ → Bytes
uint64 n = be_bytes 8 (n % 2 ^ 64)

unfoldable pub encode_entries : Extras → Bytes
encode_entries [] = []
encode_entries ((path, value) ∷ m) =
    uint32 (length path) ++ (path ++ (uint64 (length value) ++ (value ++ encode_entries m)))

unfoldable pub encode_extras : Extras → Bytes
encode_extras extras = uint32 (length extras) ++ encode_entries (sort_paths extras)

-- The value behind a path that was read, and the bytes behind it: none where too few are left.
unfoldable pub read_value : Bytes → Bytes → Option (Bytes × Bytes × Bytes)
read_value path rest =
    if ltb (length (drop 8 rest)) (be_value (take 8 rest))
    then none
    else some (
      path,
      take (be_value (take 8 rest)) (drop 8 rest),
      drop (be_value (take 8 rest)) (drop 8 rest),
    )

unfoldable pub read_path : ℕ → Bytes → Option (Bytes × Bytes × Bytes)
read_path size rest =
    if ltb (length rest) (size + 8) then none else read_value (take size rest) (drop size rest)

-- One round of decodeExtras.
unfoldable pub read_entry : Bytes → Option (Bytes × Bytes × Bytes)
read_entry rest =
    if ltb (length rest) 4 then none else read_path (be_value (take 4 rest)) (drop 4 rest)

unfoldable pub decode_entries : ℕ → Bytes → Extras → Option Extras
decode_entries zero rest out = some out
decode_entries (suc n) rest out = elim (read_entry rest) [
  | none ↦ none
  | some (path, value, rest') ↦ decode_entries n rest' (insert path value out)
]

unfoldable pub decode_extras : Bytes → Option Extras
decode_extras blob =
    if ltb (length blob) 4 then none else decode_entries (be_value (take 4 blob)) (drop 4 blob) []

pub record InvocationResult : Type 0 where
  pub exit_code : ℤ
  pub stdout : Bytes
  pub stderr : Bytes
  pub output : Bytes
  pub extras : Extras

-- A read of a blob, and of a file.
pub data Got : Type 0 where
  failed absent : Got
  present : Bytes → Got

-- What a store shows of one tenant and one key: whether there is an entry (none where the query
-- fails), and its blobs.
pub record Layer : Type 0 where
  pub has : Option Bool
  pub get : Bytes → Got

pub data Loaded : Type 0 where
  load_failed incomplete : Loaded
  loaded : InvocationResult → Loaded

-- strconv.Atoi.
unfoldable pub atoi_digits : (ℕ → ℤ) → ℕ → Bytes → Option ℤ
atoi_digits sign limit digits =
    if bytes_eq digits [] || not (bytes_eq (split_digits digits).1 [])
    then none
    else if ltb limit (decimal 0 digits)
    then none
    else some (sign (decimal 0 digits))

abbrev minus : ℕ → ℤ
minus zero = pos zero
minus (suc n) = negsuc n

unfoldable pub atoi : Bytes → Option ℤ
atoi [] = none
atoi (c ∷ s) =
    if c == b'-'
    then atoi_digits minus (2 ^ 63) s
    else if c == b'+'
    then atoi_digits (λ n. pos n) (2 ^ 63 - 1) s
    else atoi_digits (λ n. pos n) (2 ^ 63 - 1) (c ∷ s)

-- The extra outputs, where their blob is there and decodes.
unfoldable pub load_extras : Got → Extras
load_extras failed = []
load_extras absent = []
load_extras (present blob) = elim (decode_extras blob) [ none ↦ [] | some extras ↦ extras ]

-- The rest of loadEntry, once the exit code and the two streams are read.
unfoldable pub load_output : Layer → Bytes → ℤ → Bytes → Bytes → Loaded
load_output layer output_path exit_code stdout stderr =
    if bytes_eq output_path []
    then loaded (record {
      exit_code = exit_code;
      stdout = stdout;
      stderr = stderr;
      output = [];
      extras = load_extras (layer.get (codes "extras"));
    })
    else elim (layer.get (codes "output")) [
      | failed ↦ load_failed
      | absent ↦ incomplete
      | present output ↦ loaded (record {
        exit_code = exit_code;
        stdout = stdout;
        stderr = stderr;
        output = output;
        extras = load_extras (layer.get (codes "extras"));
      })
    ]

unfoldable pub load_streams : Layer → Bytes → ℤ → Loaded
load_streams layer output_path exit_code = elim (layer.get (codes "stdout")) [
  | failed ↦ load_failed
  | absent ↦ elim (layer.get (codes "stderr")) [
    | failed ↦ load_failed
    | absent ↦ load_output layer output_path exit_code [] []
    | present err_text ↦ load_output layer output_path exit_code [] err_text
  ]
  | present out_text ↦ elim (layer.get (codes "stderr")) [
    | failed ↦ load_failed
    | absent ↦ load_output layer output_path exit_code out_text []
    | present err_text ↦ load_output layer output_path exit_code out_text err_text
  ]
]

unfoldable pub load_entry : Layer → Bytes → Loaded
load_entry layer output_path = elim (layer.get (codes "exit_code")) [
  | failed ↦ load_failed
  | absent ↦ incomplete
  | present raw ↦ elim (atoi raw) [
    | none ↦ incomplete
    | some exit_code ↦ load_streams layer output_path exit_code
  ]
]

pub data Answer : Type 0 where
  lookup_failed miss : Answer
  hit : InvocationResult → Answer

-- Lookup's loop over the stores.
unfoldable pub lookup_layers : Bytes → List Layer → Answer
lookup_layers output_path [] = miss
lookup_layers output_path (layer ∷ layers) =
    let rest = lookup_layers output_path layers in
    elim layer.has [
      | none ↦ rest
      | some false ↦ rest
      | some true ↦ elim (load_entry layer output_path) [
        | load_failed ↦ lookup_failed
        | incomplete ↦ rest
        | loaded res ↦ hit res
      ]
    ]

-- The blobs of a tenant and a key in a store that works, and the view of them.
abbrev pub Blobs : Type 0
Blobs = List (Bytes × Bytes)

unfoldable pub blob_of : Blobs → Bytes → Got
blob_of blobs name = elim (lookup name blobs) [ none ↦ absent | some s ↦ present s ]

abbrev pub is_entry : Blobs → Bool
is_entry [] = false
is_entry (b ∷ blobs) = true

abbrev pub view : Blobs → Layer
view blobs = record { has = some (is_entry blobs); get = blob_of blobs }

-- The output that Store writes: none for a failed read, and no blob where there is no file.
unfoldable pub stored_output : (Bytes → Got) → Bytes → InvocationResult → Option (Option Bytes)
stored_output read_file output_path res =
    if not (bytes_eq res.output [])
    then some (some res.output)
    else if bytes_eq output_path []
    then some none
    else elim (read_file output_path) [
      | failed ↦ none
      | absent ↦ some none
      | present s ↦ some (some s)
    ]

abbrev pub put_some : Bytes → Option Bytes → Blobs → Blobs
put_some name none blobs = blobs
put_some name (some s) blobs = insert name s blobs

abbrev pub extras_blob : Extras → Option Bytes
extras_blob [] = none
extras_blob (e ∷ extras) = some (encode_extras (e ∷ extras))

-- Store's puts into one store. A result is stored for the exit code 0 only.
unfoldable pub store_entry : Option Bytes → Bytes → InvocationResult → Blobs → Blobs
store_entry output meta res blobs = put_some (codes "extras") (extras_blob res.extras) (
    insert (codes "metadata") meta (
      insert (codes "exit_code") (codes "0") (
        insert (codes "stderr") res.stderr
          (insert (codes "stdout") res.stdout (put_some (codes "output") output blobs)))))

unfoldable pub store_all : Option Bytes → Bytes → InvocationResult → List Blobs → List Blobs
store_all output meta res [] = []
store_all output meta res (blobs ∷ layers) =
    store_entry output meta res blobs ∷ store_all output meta res layers

abbrev pub is_zero : ℤ → Bool
is_zero (pos n) = n == 0
is_zero (negsuc n) = false

-- Store, for an invocation with a cache key: none for a failed read of the output.
unfoldable pub store_result :
    (Bytes → Got) → Bytes → Bytes → InvocationResult → List Blobs → Option (List Blobs)
store_result read_file output_path meta res [] = some []
store_result read_file output_path meta res (blobs ∷ layers) =
    if not (is_zero res.exit_code)
    then some (blobs ∷ layers)
    else elim (stored_output read_file output_path res) [
      | none ↦ none
      | some output ↦ some (store_all output meta res (blobs ∷ layers))
    ]
