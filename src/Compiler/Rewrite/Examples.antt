-- ===== src/Compiler/Rewrite/Examples.antt =====
-- Command lines that are rewritten for a worker.
use hpcc.Prelude.{
  ◌≡◌, refl, true, false, List, [], ◌∷◌, ◌++◌, Bytes, codes, bytes_eq, has_prefix, arith,
}
use hpcc.Prelude.FilePath.{path_base}
use hpcc.Compiler.Invocation.{Invocation, new_invocation}
use hpcc.Compiler.Rewrite.{
  rewrite_for_cas, rewrite_path_prefix, validate_no_host_paths, contains_text,
  split_wp_dep_emission, matches_host, rewrite_prefix, rewrite_dep_emission_for_cas,
  rewrite_output_flag_gnu, at_boundary,
}
use hpcc.Compiler.Rewrite.Dependencies.{
  Targeted, is_target_flag, Agrees, rewrite_dep_emission_for_cas-extract,
}
use hpcc.Compiler.Rewrite.Boundaries.{Quiet, rewrite_prefix-append}

output_moved :
    rewrite_output_flag_gnu
      (codes "/out/a.o")
      (codes "-c" ∷ codes "-o" ∷ codes "b/a.o" ∷ codes "-ob.o" ∷ codes "a.c" ∷ [])
    ≡ codes "-c" ∷ codes "-o" ∷ codes "/out/a.o" ∷ codes "-o/out/a.o" ∷ codes "a.c" ∷ []
unfolding rewrite_output_flag_gnu bytes_eq has_prefix
output_moved = refl

abbrev dep_args : List Bytes
dep_args = codes "-MT" ∷ codes "t" ∷ codes "-MF" ∷ codes "a.d" ∷ []

no_target : (a : Bytes) {A : Type 0} → is_target_flag a ≡ false → is_target_flag a ≡ true → A
no_target a e f = absurd (ground arith)

dep_args-Targeted : Targeted dep_args
unfolding bytes_eq split_wp_dep_emission has_prefix
dep_args-Targeted = (
  λ _. (refl, refl),
  (no_target (codes "t") refl, (no_target (codes "-MF") refl, (no_target (codes "a.d") refl, tt))),
)

rewrite_dep_emission_for_cas-extract_example :
    Agrees (codes "/out") dep_args (rewrite_dep_emission_for_cas (codes "/out") dep_args)
rewrite_dep_emission_for_cas-extract_example =
    rewrite_dep_emission_for_cas-extract (codes "/out") dep_args dep_args-Targeted

-- A directory outside of the project /p whose path holds that of the project.
outer-Quiet : Quiet (codes "/p") (codes "-I/x") (codes "/p" ++ codes "/h")
unfolding matches_host has_prefix
outer-Quiet = (refl, (refl, (refl, (refl, tt))))

slash_ends : at_boundary (codes "/h") ≡ true
unfolding at_boundary
slash_ends = refl

rewrite_prefix-append_example :
    rewrite_prefix (codes "/p") (codes "/src") (codes "-I/x" ++ (codes "/p" ++ codes "/h"))
    ≡ codes "-I/x" ++ (codes "/src" ++ rewrite_prefix (codes "/p") (codes "/src") (codes "/h"))
rewrite_prefix-append_example =
    rewrite_prefix-append b'/' (codes "p") (codes "/src") (codes "-I/x") (codes "/h") outer-Quiet
      slash_ends

-- A command line for a worker, and the check that it makes of it.
abbrev compile_line : Invocation
compile_line = record new_invocation {
  output = codes "b/a.o";
  raw_args = codes "-I/home/u/p/inc" ∷ codes "-o" ∷ codes "b/a.o" ∷ codes "/home/u/p2/x" ∷ [];
}

moved_line :
    (rewrite_for_cas compile_line (codes "/home/u/p/") (codes "/src") (codes "/out")).raw_args
    ≡ codes "-I/src/inc" ∷ codes "-o" ∷ codes "/out/a.o" ∷ codes "/home/u/p2/x" ∷ []
unfolding rewrite_for_cas rewrite_path_prefix path_base bytes_eq has_prefix
moved_line = refl

moved_line_refused :
    validate_no_host_paths
      (rewrite_for_cas compile_line (codes "/home/u/p") (codes "/src") (codes "/out")).raw_args
    ≡ false
unfolding validate_no_host_paths contains_text rewrite_for_cas rewrite_path_prefix path_base
    bytes_eq has_prefix
moved_line_refused = refl
