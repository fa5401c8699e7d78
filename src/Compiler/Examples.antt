-- ===== src/Compiler/Examples.antt =====
-- Runs of the parsers and of the cache key, and the component's theorems at concrete inputs.
use hpcc.Prelude.{
  ◌+◌, ◌≡◌, ◌≤◌, refl, Bool, true, false, Option, none, some, List, [], ◌∷◌, Bytes, codes, arith,
  bytes_eq, has_prefix, cut_byte, All, length, ◌⊎◌,
}
use hpcc.Prelude.Assoc.{lookup, insert}
use hpcc.Compiler.Invocation.{Invocation, new_invocation, compile_mode, is_compile, is_unknown}
use hpcc.Compiler.Grammar.{gnu_flags, joined_value, separate_value, cat_passthrough, cat_output}
use hpcc.Compiler.Response.{Result, ok, err, is_response_ref, expand_response_files, fields}
use hpcc.Compiler.Response.Expansion.{Plain, expand_response_files-Plain}
use hpcc.Compiler.Gnu.{parse_gnu, match_gnu_flag, cut_define, base_name, trim_ext, FlagMatch}
use hpcc.Compiler.Gnu.Matching.{Fits, match_gnu_flag-longest, Consumed, match_gnu_flag-Consumed}
use hpcc.Compiler.Msvc.{parse_msvc}
use hpcc.Compiler.Key
use hpcc.Compiler.Key.{
  KeyResult, cache_key_flags, Context, cache_key_with_manifest, source_mode_cas,
  source_mode_preprocessed, sort_by_key, filter_irrelevant_passthrough,
}
use hpcc.Compiler.Key.Flags.{IsKeyable, SameFlags, cache_key_flags_injective}
use hpcc.Compiler.Key.Collisions.{Collision, SameCompile, PartsFit, cache_key-Collision}

no_files : Bytes → Option Bytes
no_files path = none

one_file : Bytes → Option Bytes
one_file path = if_flags (bytes_eq path (codes "flags"))
  where
    if_flags : Bool → Option Bytes
    if_flags true = some (codes "-c  main.c")
    if_flags false = none

abbrev get : Result Invocation → Invocation
get (ok inv) = inv
get (err e) = new_invocation

abbrev compile_args : List Bytes
compile_args =
    codes "-c"
    ∷ codes "src/main.c"
    ∷ codes "-DN=1"
    ∷ codes "-Iinc"
    ∷ codes "-Wl,-z"
    ∷ codes "-isystem"
    ∷ codes "sys"
    ∷ []

-- Parsers that run.
run_gnu : (Bytes → Option Bytes) → List Bytes → Invocation
unfolding parse_gnu bytes_eq has_prefix is_compile is_unknown is_response_ref insert trim_ext
    base_name fields cut_define cut_byte
run_gnu read_file args = get (parse_gnu read_file args)

run_msvc : (Bytes → Option Bytes) → List Bytes → Invocation
unfolding parse_msvc bytes_eq has_prefix is_compile is_unknown is_response_ref insert trim_ext
    base_name
run_msvc read_file args = get (parse_msvc read_file args)

parsed_output : (run_gnu no_files compile_args).output ≡ codes "main.o"
unfolding run_gnu
parsed_output = refl

parsed_defines : (run_gnu no_files compile_args).defines ≡ (codes "N", codes "1") ∷ []
unfolding run_gnu
parsed_defines = refl

expanded_inputs : (run_gnu one_file (codes "@flags" ∷ [])).inputs ≡ codes "main.c" ∷ []
unfolding run_gnu one_file
expanded_inputs = refl

msvc_output :
    (run_msvc no_files (codes "-c" ∷ codes "/Fo:a.obj" ∷ codes "x.c" ∷ [])).output ≡ codes "a.obj"
unfolding run_msvc
msvc_output = refl

-- gcc writes bar.o; the parser takes the flag for an unknown one.
glued_output :
    (run_gnu no_files (codes "-c" ∷ codes "x.c" ∷ codes "-obar.o" ∷ [])).output ≡ codes "x.o"
unfolding run_gnu
glued_output = refl

expand_response_files-Plain_example :
    Plain one_file (expand_response_files one_file (codes "@flags" ∷ codes "-g" ∷ []))
expand_response_files-Plain_example =
    expand_response_files-Plain one_file (codes "@flags" ∷ codes "-g" ∷ [])

linker_match : FlagMatch
linker_match = record {
  spec = record { name = codes "-Wl,"; value = joined_value; category = cat_passthrough };
  value = codes "-z";
  consumed = 1;
}

match_gnu_flag-longest_example :
    All (λ s. Fits (codes "-Wl,-z") [] s → length s.name ≤ length linker_match.spec.name) gnu_flags
unfolding match_gnu_flag linker_match bytes_eq has_prefix
match_gnu_flag-longest_example = match_gnu_flag-longest (codes "-Wl,-z") [] linker_match refl

output_match : FlagMatch
output_match = record {
  spec = record { name = codes "-o"; value = separate_value; category = cat_output };
  value = codes "a.o";
  consumed = 2;
}

match_gnu_flag-Consumed_example :
    Consumed (codes "-o") (codes "a.o" ∷ []) output_match
    × (1 ≤ output_match.consumed)
    × (output_match.consumed ≤ 1 + length (codes "a.o" ∷ []))
unfolding match_gnu_flag output_match bytes_eq has_prefix
match_gnu_flag-Consumed_example =
    match_gnu_flag-Consumed (codes "-o") (codes "a.o" ∷ []) output_match refl

abbrev compile_of : Bytes → Invocation
compile_of input = record new_invocation { mode = compile_mode; inputs = input ∷ [] }

-- A client that builds manifests, and a worker that is told the client's compiler identity.
abbrev client : Context
client = record {
  blake3 = λ s. s;
  identity_override = none;
  identity = some (codes "gcc-14");
  source_mode = source_mode_cas;
  preprocess = λ inv. some (0, codes "text");
  build_manifest = λ inv. some (codes "closure");
}

abbrev worker : Context
worker = record client { identity_override = some (codes "gcc-14"); identity = none }

abbrev key_of : KeyResult (Bytes × Option Bytes) → Bytes
key_of (Key.ok r) = r.0
key_of (Key.err e) = []

client_key : Context → Invocation → Bytes
unfolding cache_key_with_manifest
client_key ctx inv = key_of (cache_key_with_manifest ctx inv)

optimised : Invocation
optimised = record (compile_of (codes "x.c")) {
  includes = codes "inc" ∷ [];
  defines = (codes "N", codes "1") ∷ (codes "A", []) ∷ [];
  optim = codes "2";
  warnings = codes "all" ∷ [];
}

optimised-IsKeyable : IsKeyable optimised
unfolding optimised lookup bytes_eq
optimised-IsKeyable = record {
  includes = ((omega arith, λ e. cc), tt);
  system_includes = tt;
  undefines = tt;
  defines = (omega arith, (omega arith, tt));
  distinct = (refl, (refl, tt));
  std = tt;
  optim = omega arith;
  debug = tt;
  language = tt;
  warnings = ((omega arith, λ e. cc), tt);
  features = tt;
  machine = tt;
  passthrough = tt;
  unknown = tt;
}

cache_key_flags_injective_example : SameFlags optimised optimised
cache_key_flags_injective_example =
    cache_key_flags_injective optimised optimised optimised-IsKeyable optimised-IsKeyable refl

optimised-PartsFit : PartsFit client optimised
unfolding optimised cache_key_flags cache_key_with_manifest sort_by_key
    filter_irrelevant_passthrough
optimised-PartsFit = ((λ i e. ground arith), (λ s m e. ground arith), omega arith)

cache_key-Collision_example :
    SameCompile client client optimised optimised ⊎ Collision client.blake3
unfolding client_key optimised
cache_key-Collision_example =
    cache_key-Collision client client optimised optimised (client_key client optimised)
      (some (codes "closure")) (some (codes "closure")) refl optimised-IsKeyable optimised-IsKeyable
      optimised-PartsFit optimised-PartsFit refl refl
