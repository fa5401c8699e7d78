-- ===== src/Compiler/Invocation.antt =====
-- internal/compiler/invocation.go (the parsed command and the tests that gate the cache) and the
-- modes of internal/enum.
use hpcc.Prelude.{
  ℕ, Bool, true, false, not, ◌||◌, Option, none, List, [], ◌∷◌, ◌++◌, Bytes, codes, bytes_eq,
  has_prefix, length, ◌==◌, leb, ◌&&◌, map, ◌+◌, if◌then◌else◌,
}

pub data InvocationMode : Type 0 where
  unknown_mode compile_mode preprocess_mode assemble_mode link_mode dep_only_mode : InvocationMode

-- `mode == CompileMode`.
unfoldable pub is_compile : InvocationMode → Bool
is_compile compile_mode = true
is_compile _ = false

-- `mode == UnknownMode`.
unfoldable pub is_unknown : InvocationMode → Bool
is_unknown unknown_mode = true
is_unknown _ = false

-- `Defines` is the Go map; its order in the list has no meaning.
pub record Invocation : Type 0 where
  pub mode : InvocationMode
  pub inputs : List Bytes
  pub output : Bytes
  pub includes : List Bytes
  pub system_includes : List Bytes
  pub defines : List (Bytes × Bytes)
  pub undefines : List Bytes
  pub libraries : List Bytes
  pub library_dirs : List Bytes
  pub std : Bytes
  pub optim : Bytes
  pub debug : Bytes
  pub warnings : List Bytes
  pub features : List Bytes
  pub machine : List Bytes
  pub language : Bytes
  pub passthrough : List Bytes
  pub unknown : List Bytes
  pub raw_args : List Bytes
  pub preprocessed_digest : Option Bytes
  pub manifest_digest : Option Bytes

abbrev pub new_invocation : Invocation
new_invocation = record {
  mode = unknown_mode;
  inputs = [];
  output = [];
  includes = [];
  system_includes = [];
  defines = [];
  undefines = [];
  libraries = [];
  library_dirs = [];
  std = [];
  optim = [];
  debug = [];
  warnings = [];
  features = [];
  machine = [];
  language = [];
  passthrough = [];
  unknown = [];
  raw_args = [];
  preprocessed_digest = none;
  manifest_digest = none;
}

any_input : (Bytes → Bool) → List Bytes → Bool
any_input p [] = false
any_input p (i ∷ is) = if p i then true else any_input p is

unfoldable pub reads_stdin : Invocation → Bool
unfolding any_input
reads_stdin inv =
    any_input (λ i. bytes_eq i (codes "-") || bytes_eq i (codes "/dev/stdin")) inv.inputs

-- strings.ToLower, on ASCII.
unfoldable pub to_lower : ℕ → ℕ
to_lower c = if leb b'A' c && leb c b'Z' then c + 32 else c

-- filepath.Ext: from the last dot of the last path element; `ext` is what follows the last dot so
-- far, with the dot.
ext_from : Bytes → Bytes → Bytes
ext_from ext [] = ext
ext_from ext (c ∷ s) =
    ext_from
      (if c == b'/'
        then []
        else if c == b'.'
        then c ∷ []
        else elim ext [ [] ↦ [] | open_ext ↦ open_ext ++ c ∷ [] ])
      s

unfoldable pub path_ext : Bytes → Bytes
unfolding ext_from
path_ext s = ext_from [] s

unfoldable pub is_assembly : Invocation → Bool
unfolding any_input to_lower path_ext
is_assembly inv =
    if bytes_eq inv.language (codes "assembler")
      || bytes_eq inv.language (codes "assembler-with-cpp")
    then true
    else any_input
        (λ i.
          let e = map to_lower (path_ext i) in bytes_eq e (codes ".s") || bytes_eq e (codes ".S"))
        inv.inputs

unfoldable pub is_probe_invocation : Invocation → Bool
unfolding any_input
is_probe_invocation inv =
    if bytes_eq inv.output (codes "/dev/null")
    then true
    else any_input (λ i. bytes_eq i (codes "/dev/null")) inv.inputs

-- The cases of the switch in `HasUncapturedSideEffectFlag`, in its order.
unfoldable pub is_side_effect_flag : Bytes → Bool
is_side_effect_flag a =
    bytes_eq a (codes "-save-temps")
    || has_prefix a (codes "-save-temps=")
    || has_prefix a (codes "-fdump-")
    || bytes_eq a (codes "-fcallgraph-info")
    || has_prefix a (codes "-fcallgraph-info=")
    || bytes_eq a (codes "-fprofile-generate")
    || has_prefix a (codes "-fprofile-generate=")
    || bytes_eq a (codes "-fprofile-arcs")
    || bytes_eq a (codes "-ftest-coverage")
    || bytes_eq a (codes "--coverage")
    || bytes_eq a (codes "-gsplit-dwarf")
    || bytes_eq a (codes "-fdiagnostics-format=sarif-file")
    || bytes_eq a (codes "-fdiagnostics-format=json-file")

unfoldable pub has_uncaptured_side_effect_flag : List Bytes → Bool
has_uncaptured_side_effect_flag [] = false
has_uncaptured_side_effect_flag (a ∷ args) =
    if is_side_effect_flag a then true else has_uncaptured_side_effect_flag args

unfoldable pub cacheable_shape : Invocation → Bool
cacheable_shape inv =
    if not (is_compile inv.mode)
    then false
    else if not (length inv.inputs == 1)
    then false
    else if reads_stdin inv
    then false
    else if is_probe_invocation inv
    then false
    else if has_uncaptured_side_effect_flag inv.raw_args
    then false
    else true

unfoldable pub cacheable : Invocation → Bool
cacheable inv = if not (cacheable_shape inv) then false else if is_assembly inv then false else true

unfoldable pub dispatchable_under_cas : Invocation → Bool
dispatchable_under_cas inv = cacheable_shape inv
