-- ===== src/Compiler/Key.antt =====
-- internal/compiler/cache_key.go and the cache key of internal/compiler/invocation.go. BLAKE3, the
-- preprocessor, the manifest builder and the compiler's identity are parameters.
pub mod Decode
pub mod Defines
pub mod Flags
pub mod Collisions
pub mod Sides
pub mod Omissions
use hpcc.Prelude.{
  ℕ, suc, zero, ◌≡◌, Bool, true, false, not, ◌||◌, Option, none, some, List, [], ◌∷◌, ◌++◌, Bytes,
  codes, bytes_eq, length, ◌==◌, ◌-◌, ◌&&◌, if◌then◌else◌, ltb, ◌%◌, ◌/◌, ◌^◌, ◌*◌,
}
use hpcc.Prelude.Endian.{be_bytes}
use hpcc.Compiler.Invocation.{
  Invocation, InvocationMode, unknown_mode, compile_mode, preprocess_mode, assemble_mode, link_mode,
  dep_only_mode,
}

-- Each entry behind a null, and a null behind the last.
abbrev entries : List Bytes → Bytes
entries [] = 0 ∷ []
entries (item ∷ items) = item ++ (0 ∷ entries items)

pub write_list : Bytes → List Bytes → Bytes
write_list tag items = tag ++ (0 ∷ entries items)

pub write_kv : Bytes → Bytes → Bytes
write_kv tag value = tag ++ (b'=' ∷ (value ++ (0 ∷ [])))

-- The buffer after a sequence of writes.
abbrev pub buffer : List Bytes → Bytes
buffer [] = []
buffer (w ∷ ws) = w ++ buffer ws

-- Go's order of strings, `s < t`.
unfoldable pub bytes_lt : Bytes → Bytes → Bool
bytes_lt s [] = false
bytes_lt [] (d ∷ t) = true
bytes_lt (c ∷ s) (d ∷ t) = if c == d then bytes_lt s t else ltb c d

place_define : Bytes × Bytes → List (Bytes × Bytes) → List (Bytes × Bytes)
place_define e [] = e ∷ []
place_define (k, v) ((j, w) ∷ m) =
    if bytes_lt j k then (j, w) ∷ place_define (k, v) m else (k, v) ∷ (j, w) ∷ m

-- The entries of the map in the order of slices.Sort over its keys.
unfoldable pub sort_by_key : List (Bytes × Bytes) → List (Bytes × Bytes)
unfolding place_define bytes_lt
sort_by_key [] = []
sort_by_key (e ∷ m) = place_define e (sort_by_key m)

abbrev pub define_entry : Bytes × Bytes → Bytes
define_entry (k, v) = k ++ (b'=' ∷ v)

abbrev pub define_entries : List (Bytes × Bytes) → List Bytes
define_entries [] = []
define_entries (e ∷ m) = define_entry e ∷ define_entries m

-- `fmt.Sprintf("%d", inv.Mode)`, the constants of enum.InvocationMode from 0.
abbrev pub mode_digits : InvocationMode → Bytes
mode_digits unknown_mode = codes "0"
mode_digits compile_mode = codes "1"
mode_digits preprocess_mode = codes "2"
mode_digits assemble_mode = codes "3"
mode_digits link_mode = codes "4"
mode_digits dep_only_mode = codes "5"

-- `skip` is skipNext.
filter_passthrough : Bool → List Bytes → List Bytes
filter_passthrough skip [] = []
filter_passthrough true (a ∷ rest) = filter_passthrough false rest
filter_passthrough false (a ∷ rest) =
    let drop_one = filter_passthrough false rest in
    let drop_two = filter_passthrough true rest in
    if bytes_eq a (codes "-MD") || bytes_eq a (codes "-MMD")
    then drop_one
    else if bytes_eq a (codes "-MF") || bytes_eq a (codes "-MT") || bytes_eq a (codes "-MQ")
    then drop_two
    else if bytes_eq a (codes "/showIncludes")
    then drop_one
    else a ∷ drop_one

unfoldable pub filter_irrelevant_passthrough : List Bytes → List Bytes
unfolding filter_passthrough
filter_irrelevant_passthrough passthrough = filter_passthrough false passthrough

unfoldable pub cache_key_flags : Invocation → Bytes
unfolding write_list write_kv
cache_key_flags inv = buffer (
    write_list (codes "I") inv.includes
    ∷ write_list (codes "isystem") inv.system_includes
    ∷ write_list (codes "U") inv.undefines
    ∷ write_list (codes "D") (define_entries (sort_by_key inv.defines))
    ∷ write_kv (codes "std") inv.std
    ∷ write_kv (codes "opt") inv.optim
    ∷ write_kv (codes "dbg") inv.debug
    ∷ write_kv (codes "lang") inv.language
    ∷ write_kv (codes "mode") (mode_digits inv.mode)
    ∷ write_list (codes "W") inv.warnings
    ∷ write_list (codes "f") inv.features
    ∷ write_list (codes "m") inv.machine
    ∷ write_list (codes "pass") (filter_irrelevant_passthrough inv.passthrough)
    ∷ write_list (codes "unk") inv.unknown
    ∷ [])

-- enum.SourceMode.
pub data SourceMode : Type 0 where
  source_mode_unspecified source_mode_preprocessed source_mode_cas : SourceMode

pub data KeyError : Type 0 where
  no_input_files compiler_identity preprocess_failed preprocessor_exit manifest_failed : KeyError

pub data KeyResult {ℓ} (A : Type ℓ) : Type ℓ where
  ok : A → KeyResult A
  err : KeyError → KeyResult A

infixl 5 ◌>>=◌
abbrev ◌>>=◌ {ℓ κ} : {A : Type ℓ} {B : Type κ} → KeyResult A → (A → KeyResult B) → KeyResult B
ok a >>= f = f a
err e >>= f = err e

abbrev or_fail {ℓ} : {A : Type ℓ} → Option A → KeyError → KeyResult A
or_fail none e = err e
or_fail (some a) e = ok a

-- What the code calls: BLAKE3 over all that was written, Compiler.Identity, Compiler.Preprocess (the
-- exit code and the digest of its output) and BuildManifest (the manifest's digest).
pub record Context : Type 0 where
  pub blake3 : Bytes → Bytes
  pub identity_override : Option Bytes
  pub identity : Option Bytes
  pub source_mode : SourceMode
  pub preprocess : Invocation → Option (ℕ × Bytes)
  pub build_manifest : Invocation → Option Bytes

pub write_chunk : Bytes → Bytes
write_chunk chunk = be_bytes 8 (length chunk % 2 ^ 64) ++ chunk

pub compiler_identity_of : Context → KeyResult Bytes
compiler_identity_of ctx = elim ctx.identity_override [
  | some id ↦ ok id
  | none ↦ or_fail ctx.identity compiler_identity
]

preprocessed_source : Option (ℕ × Bytes) → KeyResult (Bytes × Option Bytes)
preprocessed_source none = err preprocess_failed
preprocessed_source (some (zero, digest)) = ok (digest, none)
preprocessed_source (some (suc code, digest)) = err preprocessor_exit

-- The last two cases of the switch: the configured source mode.
configured_source : SourceMode → Context → Invocation → KeyResult (Bytes × Option Bytes)
unfolding preprocessed_source
configured_source source_mode_preprocessed ctx inv = preprocessed_source (ctx.preprocess inv)
configured_source _ ctx inv = do
  m ← or_fail (ctx.build_manifest inv) manifest_failed
  ok (m, some m)

-- The switch: the digest that stands for the source, and the manifest that was built for it.
pub source_chunk : Context → Invocation → KeyResult (Bytes × Option Bytes)
unfolding configured_source
source_chunk ctx inv = elim inv.manifest_digest [
  | some d ↦ ok (d, none)
  | none ↦ elim inv.preprocessed_digest [
    | some d ↦ ok (d, none)
    | none ↦ configured_source ctx.source_mode ctx inv
  ]
]

pub key_bytes : Bytes → Bytes → Bytes → Bytes
unfolding write_chunk
key_bytes source id flags = buffer (write_chunk source ∷ write_chunk id ∷ write_chunk flags ∷ [])

unfoldable pub cache_key_with_manifest : Context → Invocation → KeyResult (Bytes × Option Bytes)
unfolding source_chunk compiler_identity_of
cache_key_with_manifest ctx inv = elim inv.inputs [
  | [] ↦ err no_input_files
  | _ ∷ _ ↦ do
    id ← compiler_identity_of ctx
    (source, manifest) ← source_chunk ctx inv
    ok (ctx.blake3 (key_bytes source id (cache_key_flags inv)), manifest)
]
