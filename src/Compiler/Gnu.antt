-- ===== src/Compiler/Gnu.antt =====
-- internal/compiler/parser.go: ParseGNU. The loop over the index i is a recursion over the rest of
-- argv; an argument that a flag consumed as its value is skipped.
pub mod Matching
pub mod RawArgs
pub mod Outputs
use hpcc.Prelude.{
  ℕ, zero, suc, ◌≡◌, Bool, true, false, not, ◌||◌, Option, none, some, List, [], ◌∷◌, ◌++◌, Bytes,
  codes, bytes_eq, has_prefix, length, ◌==◌, ◌-◌, ◌&&◌, if◌then◌else◌, drop, cut_byte,
}
use hpcc.Prelude.Assoc.{insert}
use hpcc.Compiler.Invocation.{
  Invocation, new_invocation, InvocationMode, unknown_mode, compile_mode, preprocess_mode,
  assemble_mode, link_mode, dep_only_mode, is_compile, is_unknown,
}
use hpcc.Compiler.Grammar.{
  FlagSpec, Category, ValueMode, no_value, joined_value, separate_value, joined_or_separate,
  cat_unknown, cat_mode, cat_output, cat_include, cat_system_include, cat_define, cat_undefine,
  cat_library, cat_library_dir, cat_standard, cat_optim, cat_debug, cat_warning, cat_feature,
  cat_machine, cat_language, cat_passthrough, gnu_flags_sorted,
}
use hpcc.Compiler.Response.{Result, ok, err, ◌>>=◌, expand_response_files}

-- (spec, value, consumed) of a match; consumed is 1 or 2.
pub record FlagMatch : Type 0 where
  pub spec : FlagSpec
  pub value : Bytes
  pub consumed : ℕ

-- A flag that takes the next argument, or nothing at the end of argv.
abbrev pub separate : FlagSpec → List Bytes → FlagMatch
separate spec [] = record { spec = spec; value = []; consumed = 1 }
separate spec (next ∷ _) = record { spec = spec; value = next; consumed = 2 }

-- The switch on spec.Value: `arg` is args[i] and `rest` what follows it.
pub match_spec : Bytes → List Bytes → FlagSpec → ValueMode → Option FlagMatch
match_spec arg rest spec no_value =
    if bytes_eq arg spec.name then some (record { spec = spec; value = []; consumed = 1 }) else none
match_spec arg rest spec separate_value =
    if bytes_eq arg spec.name then some (separate spec rest) else none
match_spec arg rest spec joined_value =
    if has_prefix arg spec.name
    then some (record { spec = spec; value = drop (length spec.name) arg; consumed = 1 })
    else none
match_spec arg rest spec joined_or_separate =
    if bytes_eq arg spec.name
    then some (separate spec rest)
    else if has_prefix arg spec.name
    then some (record { spec = spec; value = drop (length spec.name) arg; consumed = 1 })
    else none

pub match_in : List FlagSpec → Bytes → List Bytes → Option FlagMatch
unfolding match_spec
match_in [] arg rest = none
match_in (spec ∷ specs) arg rest = elim (match_spec arg rest spec spec.value) [
  | some m ↦ some m
  | none ↦ match_in specs arg rest
]

unfoldable pub match_gnu_flag : Bytes → List Bytes → Option FlagMatch
unfolding match_in gnu_flags_sorted
match_gnu_flag arg rest = match_in gnu_flags_sorted arg rest

-- The inner switch of CatMode; a name it does not list changes nothing.
gnu_mode : Bytes → InvocationMode → InvocationMode
gnu_mode name mode =
    if bytes_eq name (codes "-c")
    then compile_mode
    else if bytes_eq name (codes "-E")
    then preprocess_mode
    else if bytes_eq name (codes "-S")
    then assemble_mode
    else if bytes_eq name (codes "-M") || bytes_eq name (codes "-MM")
    then dep_only_mode
    else mode

-- strings.Cut(value, "="): without "=" the second part is empty.
unfoldable pub cut_define : Bytes → Bytes × Bytes
cut_define value = elim (cut_byte b'=' value) [ none ↦ (value, []) | some parts ↦ parts ]

abbrev passthrough_tokens : ValueMode → Bytes → Bytes → List Bytes
passthrough_tokens no_value name value = name ∷ []
passthrough_tokens joined_value name value = (name ++ value) ∷ []
passthrough_tokens separate_value name value = name ∷ value ∷ []
passthrough_tokens joined_or_separate name value = name ∷ value ∷ []

apply_category : Category → FlagSpec → Bytes → Invocation → Invocation
unfolding gnu_mode
apply_category cat_unknown spec value inv = inv
apply_category cat_mode spec value inv = record inv { mode = gnu_mode spec.name inv.mode }
apply_category cat_output spec value inv = record inv { output = value }
apply_category cat_include spec value inv = record inv { includes = inv.includes ++ value ∷ [] }
apply_category cat_system_include spec value inv = record inv {
  system_includes = inv.system_includes ++ value ∷ [];
}
apply_category cat_define spec value inv = record inv {
  defines = insert (cut_define value).0 (cut_define value).1 inv.defines;
}
apply_category cat_undefine spec value inv = record inv { undefines = inv.undefines ++ value ∷ [] }
apply_category cat_library spec value inv = record inv { libraries = inv.libraries ++ value ∷ [] }
apply_category cat_library_dir spec value inv = record inv {
  library_dirs = inv.library_dirs ++ value ∷ [];
}
apply_category cat_standard spec value inv = record inv { std = value }
apply_category cat_optim spec value inv = record inv { optim = value }
apply_category cat_debug spec value inv = record inv { debug = value }
apply_category cat_warning spec value inv = record inv { warnings = inv.warnings ++ value ∷ [] }
apply_category cat_feature spec value inv = record inv { features = inv.features ++ value ∷ [] }
apply_category cat_machine spec value inv = record inv { machine = inv.machine ++ value ∷ [] }
apply_category cat_language spec value inv = record inv { language = value }
apply_category cat_passthrough spec value inv = record inv {
  passthrough = inv.passthrough ++ passthrough_tokens spec.value spec.name value;
}

unfoldable pub apply_flag : FlagSpec → Bytes → Invocation → Invocation
unfolding apply_category
apply_flag spec value inv = apply_category spec.category spec value inv

-- One round of the loop ends it, or goes on behind a number of further consumed arguments.
pub data Round : Type 0 where
  stop : Invocation → Round
  next : ℕ → Invocation → Round

abbrev pub add_inputs : List Bytes → Invocation → Invocation
add_inputs more inv = record inv { inputs = inv.inputs ++ more }

unfoldable pub gnu_round : Bytes → List Bytes → Invocation → Round
gnu_round a rest inv =
    if bytes_eq a (codes "--")
    then stop (add_inputs rest inv)
    else if not (has_prefix a (codes "-")) || bytes_eq a (codes "-")
    then next 0 (add_inputs (a ∷ []) inv)
    else elim (match_gnu_flag a rest) [
      | none ↦ next 0 (record inv { unknown = inv.unknown ++ a ∷ [] })
      | some m ↦ next (m.consumed - 1) (apply_flag m.spec m.value inv)
    ]

-- `loop skip argv inv`: `skip` arguments at the head of argv are consumed already.
unfoldable pub parse_loop :
    (Bytes → List Bytes → Invocation → Round) → ℕ → List Bytes → Invocation → Invocation
parse_loop round skip [] inv = inv
parse_loop round (suc skip) (a ∷ rest) inv = parse_loop round skip rest inv
parse_loop round zero (a ∷ rest) inv = elim (round a rest inv) [
  | stop done ↦ done
  | next skip inv' ↦ parse_loop round skip rest inv'
]

-- `base[i+1:]` for the last separator at i; `base` is the part since the last one so far.
base_from : Bytes → Bytes → Bytes
base_from base [] = base
base_from base (c ∷ s) = base_from (if c == b'/' || c == 92 then [] else base ++ c ∷ []) s

unfoldable pub base_name : Bytes → Bytes
unfolding base_from
base_name s = base_from [] s

-- `base[:dot]` for the last dot, if it is not the first byte.
cut_last_dot : Bytes → Option Bytes
cut_last_dot [] = none
cut_last_dot (c ∷ s) = elim (cut_last_dot s) [
  | some l ↦ some (c ∷ l)
  | none ↦ if c == b'.' then some [] else none
]

unfoldable pub trim_ext : Bytes → Bytes
unfolding cut_last_dot
trim_ext base = elim (cut_last_dot base) [ none ↦ base | some [] ↦ base | some (c ∷ l) ↦ c ∷ l ]

default_output : List Bytes → Bytes → Bytes
default_output (input ∷ []) obj_ext =
    if bytes_eq input (codes "-")
    then []
    else elim (trim_ext (base_name input)) [ [] ↦ [] | c ∷ stem ↦ (c ∷ stem) ++ obj_ext ]
default_output _ obj_ext = []

unfoldable pub infer_default_output : Bytes → Invocation → Invocation
unfolding default_output
infer_default_output obj_ext inv =
    if not (is_compile inv.mode) || not (bytes_eq inv.output [])
    then inv
    else record inv { output = default_output inv.inputs obj_ext }

-- What ParseGNU and ParseMSVC do behind the loop.
unfoldable pub finish : Bytes → Invocation → Invocation
unfolding infer_default_output
finish obj_ext inv =
    infer_default_output obj_ext
      (record inv { mode = if is_unknown inv.mode then link_mode else inv.mode })

unfoldable pub parse_gnu : (Bytes → Option Bytes) → List Bytes → Result Invocation
unfolding gnu_round match_gnu_flag apply_flag parse_loop finish expand_response_files
parse_gnu read_file args = expand_response_files read_file args >>= λ expanded. ok (
    finish (codes ".o")
      (parse_loop gnu_round 0 expanded (record new_invocation { raw_args = expanded })))
