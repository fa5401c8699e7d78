-- ===== src/Compiler/Rewrite.antt =====
-- internal/compiler/rewrite.go: the command line that a worker is sent. A list that the code leaves
-- nil is the empty list; filepath.ToSlash is the identity on a Unix system.
pub mod Dependencies
pub mod Boundaries
pub mod Examples
use hpcc.Prelude.{
  ℕ, zero, suc, ◌-◌, Bool, true, false, not, ◌&&◌, ◌||◌, Option, none, some, List, [], ◌∷◌, ◌++◌,
  map, Bytes, codes, bytes_eq, has_prefix, length, drop, ◌==◌, if◌then◌else◌,
}
use hpcc.Prelude.FilePath.{join_path, path_base}
use hpcc.Compiler.Invocation.{Invocation}

-- strings.Contains.
unfoldable pub contains_text : Bytes → Bytes → Bool
contains_text [] p = has_prefix [] p
contains_text (c ∷ s) p = if has_prefix (c ∷ s) p then true else contains_text s p

unfoldable host_path_substrings : List Bytes
host_path_substrings =
    codes "/home/" ∷ codes "/Users/" ∷ codes ":\\Users\\" ∷ codes ":\\users\\" ∷ []

unfoldable has_host_path : Bytes → List Bytes → Bool
has_host_path a [] = false
has_host_path a (p ∷ ps) = if contains_text a p then true else has_host_path a ps

-- ValidateNoHostPaths: whether it returns no error.
unfoldable validate_no_host_paths : List Bytes → Bool
unfolding has_host_path host_path_substrings
validate_no_host_paths [] = true
validate_no_host_paths (a ∷ args) =
    if has_host_path a host_path_substrings then false else validate_no_host_paths args

-- The end of a match is the end of the text, a "/" or a "=".
unfoldable pub at_boundary : Bytes → Bool
at_boundary [] = true
at_boundary (c ∷ s) = c == b'/' || c == b'='

unfoldable pub matches_host : Bytes → Bytes → Bool
unfolding at_boundary
matches_host host s = has_prefix s host && at_boundary (drop (length host) s)

module _ (host vm : Bytes) where
  -- The scan of rewritePrefix; the count says how many bytes of a match are still to be skipped.
  unfoldable pub rewrite_from : ℕ → Bytes → Bytes
  unfolding matches_host
  rewrite_from skip [] = []
  rewrite_from (suc skip) (c ∷ s) = rewrite_from skip s
  rewrite_from zero (c ∷ s) =
      let behind = rewrite_from (length host - 1) s in
      let next = rewrite_from 0 s in if matches_host host (c ∷ s) then vm ++ behind else c ∷ next

  unfoldable pub rewrite_prefix : Bytes → Bytes
  unfolding rewrite_from contains_text
  rewrite_prefix s = if not (contains_text s host) then s else rewrite_from 0 s

unfoldable rewrite_values : (Bytes → Bytes) → List (Bytes × Bytes) → List (Bytes × Bytes)
rewrite_values f [] = []
rewrite_values f ((k, v) ∷ defines) = (k, f v) ∷ rewrite_values f defines

-- strings.TrimRight(s, "/").
unfoldable trim_slashes : Bytes → Bytes
trim_slashes [] = []
trim_slashes (c ∷ s) = elim (trim_slashes s) [
  | [] ↦ if c == b'/' then [] else c ∷ []
  | d ∷ t ↦ c ∷ d ∷ t
]

-- RewritePathPrefix.
unfoldable rewrite_path_prefix : Invocation → Bytes → Bytes → Invocation
unfolding rewrite_prefix rewrite_values trim_slashes
rewrite_path_prefix inv host_prefix vm_prefix =
    let host = trim_slashes host_prefix in
    let vm = trim_slashes vm_prefix in
    if bytes_eq host [] || bytes_eq vm [] then inv else record inv {
      raw_args = map (rewrite_prefix host vm) inv.raw_args;
      inputs = map (rewrite_prefix host vm) inv.inputs;
      includes = map (rewrite_prefix host vm) inv.includes;
      system_includes = map (rewrite_prefix host vm) inv.system_includes;
      library_dirs = map (rewrite_prefix host vm) inv.library_dirs;
      output = rewrite_prefix host vm inv.output;
      defines = rewrite_values (rewrite_prefix host vm) inv.defines;
    }

-- One argument of rewriteOutputFlagGNU that takes no value from the next.
unfoldable rewrite_joined_output : Bytes → Bytes → Bytes
rewrite_joined_output new_out a =
    if has_prefix a (codes "-o") && not (bytes_eq a (codes "-o")) then codes "-o" ++ new_out else a

unfoldable pub rewrite_output_flag_gnu : Bytes → List Bytes → List Bytes
unfolding rewrite_joined_output
rewrite_output_flag_gnu new_out [] = []
rewrite_output_flag_gnu new_out (a ∷ []) = rewrite_joined_output new_out a ∷ []
rewrite_output_flag_gnu new_out (a ∷ b ∷ args) =
    let behind = rewrite_output_flag_gnu new_out args in
    let next = rewrite_output_flag_gnu new_out (b ∷ args) in
    if bytes_eq a (codes "-o")
    then codes "-o" ∷ new_out ∷ behind
    else rewrite_joined_output new_out a ∷ next

-- RewriteForCAS.
unfoldable rewrite_for_cas : Invocation → Bytes → Bytes → Bytes → Invocation
unfolding rewrite_path_prefix rewrite_output_flag_gnu
rewrite_for_cas inv project_root src_root out_root =
    let cp = rewrite_path_prefix inv project_root src_root in
    let new_out = out_root ++ (codes "/" ++ path_base inv.output) in
    if bytes_eq inv.output []
    then cp
    else record cp { output = new_out; raw_args = rewrite_output_flag_gnu new_out cp.raw_args }

unfoldable pub first_prefix : List Bytes → Bytes → Option (Bytes × Bytes)
first_prefix [] a = none
first_prefix (p ∷ ps) a = if has_prefix a p then some (p, drop (length p) a) else first_prefix ps a

-- splitWpDepEmission.
unfoldable pub split_wp_dep_emission : Bytes → Option (Bytes × Bytes)
unfolding first_prefix
split_wp_dep_emission a =
    first_prefix (codes "-Wp,-MMD," ∷ codes "-Wp,-MD," ∷ codes "-Wp,-MF," ∷ []) a

-- ExtractDepEmissionPaths.
unfoldable pub extract_dep_emission_paths : List Bytes → List Bytes
extract_dep_emission_paths [] = []
extract_dep_emission_paths (a ∷ []) = elim (split_wp_dep_emission a) [
  | some (prefix, p) ↦ p ∷ []
  | none ↦ []
]
extract_dep_emission_paths (a ∷ b ∷ args) =
    let behind = extract_dep_emission_paths args in
    let next = extract_dep_emission_paths (b ∷ args) in
    elim (split_wp_dep_emission a) [
      | some (prefix, p) ↦ p ∷ next
      | none ↦ if bytes_eq a (codes "-MF") then b ∷ behind else next
    ]

-- RewriteDepEmissionForCAS: the new arguments and the paths.
unfoldable pub rewrite_dep_emission_for_cas : Bytes → List Bytes → List Bytes × List Bytes
rewrite_dep_emission_for_cas out_root [] = ([], [])
rewrite_dep_emission_for_cas out_root (a ∷ []) = elim (split_wp_dep_emission a) [
  | some (prefix, p) ↦ ((prefix ++ join_path out_root p) ∷ [], p ∷ [])
  | none ↦ (a ∷ [], [])
]
rewrite_dep_emission_for_cas out_root (a ∷ b ∷ args) =
    let behind = rewrite_dep_emission_for_cas out_root args in
    let next = rewrite_dep_emission_for_cas out_root (b ∷ args) in
    elim (split_wp_dep_emission a) [
      | some (prefix, p) ↦ ((prefix ++ join_path out_root p) ∷ next.0, p ∷ next.1)
      | none ↦
          if bytes_eq a (codes "-MF")
          then (a ∷ join_path out_root b ∷ behind.0, b ∷ behind.1)
          else if bytes_eq a (codes "-MT") || bytes_eq a (codes "-MQ")
          then (a ∷ b ∷ behind.0, behind.1)
          else (a ∷ next.0, next.1)
    ]
