-- ===== src/Compiler/Msvc.antt =====
-- internal/compiler/parser_msvc.go: ParseMSVC, over the loop of ParseGNU.
use hpcc.Prelude.{
  Bool, false, not, ◌||◌, Option, none, some, List, [], ◌∷◌, ◌++◌, Bytes, codes, bytes_eq,
  has_prefix, length, ◌==◌, ◌-◌, ◌&&◌, if◌then◌else◌, drop,
}
use hpcc.Compiler.Invocation.{Invocation, new_invocation, compile_mode, preprocess_mode}
use hpcc.Compiler.Grammar.{
  FlagSpec, ValueMode, no_value, joined_value, separate_value, joined_or_separate,
  msvc_flags_sorted,
}
use hpcc.Compiler.Response.{Result, ok, ◌>>=◌, expand_response_files}
use hpcc.Compiler.Gnu.{
  FlagMatch, separate, apply_flag, Round, stop, next, add_inputs, parse_loop, finish,
}

unfoldable pub is_msvc_flag : Bytes → Bool
is_msvc_flag [] = false
is_msvc_flag (c ∷ []) = false
is_msvc_flag (c ∷ d ∷ s) = c == b'/' || c == b'-'

unfoldable pub canonicalize_msvc : Bytes → Bytes
canonicalize_msvc [] = []
canonicalize_msvc (c ∷ s) = if c == b'-' then b'/' ∷ s else c ∷ s

unfoldable pub trim_msvc_colon : Bytes → Bytes
trim_msvc_colon [] = []
trim_msvc_colon (c ∷ s) = if c == b':' then s else c ∷ s

abbrev glued : FlagSpec → Bytes → FlagMatch
glued spec canon = record {
  spec = spec;
  value = trim_msvc_colon (drop (length spec.name) canon);
  consumed = 1;
}

match_spec : Bytes → List Bytes → FlagSpec → ValueMode → Option FlagMatch
match_spec canon rest spec no_value =
    if bytes_eq canon spec.name
    then some (record { spec = spec; value = []; consumed = 1 })
    else none
match_spec canon rest spec separate_value =
    if bytes_eq canon spec.name then some (separate spec rest) else none
match_spec canon rest spec joined_value =
    if has_prefix canon spec.name && not (bytes_eq canon spec.name)
    then some (glued spec canon)
    else none
match_spec canon rest spec joined_or_separate =
    if bytes_eq canon spec.name
    then some (separate spec rest)
    else if has_prefix canon spec.name
    then some (glued spec canon)
    else none

match_in : List FlagSpec → Bytes → List Bytes → Option FlagMatch
unfolding match_spec trim_msvc_colon
match_in [] canon rest = none
match_in (spec ∷ specs) canon rest = elim (match_spec canon rest spec spec.value) [
  | some m ↦ some m
  | none ↦ match_in specs canon rest
]

unfoldable pub match_msvc_flag : Bytes → List Bytes → Option FlagMatch
unfolding match_in canonicalize_msvc msvc_flags_sorted
match_msvc_flag arg rest = match_in msvc_flags_sorted (canonicalize_msvc arg) rest

unfoldable pub apply_msvc_flag : FlagSpec → Bytes → Invocation → Invocation
unfolding apply_flag
apply_msvc_flag spec value inv =
    if bytes_eq spec.name (codes "/c")
    then record inv { mode = compile_mode }
    else if bytes_eq spec.name (codes "/E")
        || bytes_eq spec.name (codes "/EP")
        || bytes_eq spec.name (codes "/P")
    then record inv { mode = preprocess_mode }
    else if bytes_eq spec.name (codes "/Zi")
        || bytes_eq spec.name (codes "/Z7")
        || bytes_eq spec.name (codes "/ZI")
    then record inv { debug = spec.name }
    else if bytes_eq spec.name (codes "/Tc")
    then record inv { language = codes "c"; inputs = inv.inputs ++ value ∷ [] }
    else if bytes_eq spec.name (codes "/Tp")
    then record inv { language = codes "c++"; inputs = inv.inputs ++ value ∷ [] }
    else apply_flag spec value inv

msvc_round : Bytes → List Bytes → Invocation → Round
msvc_round a rest inv =
    if not (is_msvc_flag a)
    then next 0 (add_inputs (a ∷ []) inv)
    else elim (match_msvc_flag a rest) [
      | none ↦ next 0 (record inv { unknown = inv.unknown ++ a ∷ [] })
      | some m ↦
          if bytes_eq m.spec.name (codes "/link")
          then stop (record inv { passthrough = inv.passthrough ++ a ∷ rest })
          else next (m.consumed - 1) (apply_msvc_flag m.spec m.value inv)
    ]

unfoldable pub parse_msvc : (Bytes → Option Bytes) → List Bytes → Result Invocation
unfolding msvc_round is_msvc_flag match_msvc_flag apply_msvc_flag parse_loop finish
    expand_response_files
parse_msvc read_file args = expand_response_files read_file args >>= λ expanded. ok (
    finish (codes ".obj")
      (parse_loop msvc_round 0 expanded (record new_invocation { raw_args = expanded })))
