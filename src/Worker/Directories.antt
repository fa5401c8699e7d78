-- ===== src/Worker/Directories.antt =====
-- mkdirOutputParents, mkdirSearchPaths and collectExtraOutputs of internal/worker/worker.go. What is
-- made is the list of the directories; a MkdirAll itself does not fail.
use hpcc.Prelude.{
  ℕ, zero, suc, Bool, not, ◌||◌, ◌==◌, Option, none, some, List, [], ◌∷◌, ◌++◌, Bytes, codes,
  bytes_eq, has_prefix, if◌then◌else◌, length, drop,
}
use hpcc.Prelude.FilePath.{is_abs, join_path, path_dir}

-- What follows the first "/out/".
unfoldable pub after_out : Bytes → Option Bytes
after_out [] = none
after_out (c ∷ s) =
    let rest = after_out s in
    if has_prefix (c ∷ s) (codes "/out/") then some (drop 5 (c ∷ s)) else rest

-- `strings.IndexAny(tail, ", \t")`: the text before the byte, and the text from it on.
unfoldable pub cut_end : Bytes → Bytes × Bytes
cut_end [] = ([], [])
cut_end (c ∷ s) =
    let rest = cut_end s in
    if c == b',' || (c == b' ' || c == 9) then ([], c ∷ s) else (c ∷ rest.0, rest.1)

unfoldable pub parent_dirs : Bytes → Bytes → List Bytes
parent_dirs out_dir rel =
    if bytes_eq rel []
    then []
    else if bytes_eq (path_dir rel) [] || bytes_eq (path_dir rel) (codes ".")
    then []
    else join_path out_dir (path_dir rel) ∷ []

-- The loop over one argument; each round takes five bytes off, so as many rounds as there are
-- bytes are enough.
unfoldable pub output_dirs_from : ℕ → Bytes → Bytes → List Bytes
output_dirs_from zero out_dir rest = []
output_dirs_from (suc n) out_dir rest = elim (after_out rest) [
  | none ↦ []
  | some tail ↦ parent_dirs out_dir (cut_end tail).0 ++ output_dirs_from n out_dir (cut_end tail).1
]

unfoldable pub output_dirs : Bytes → List Bytes → List Bytes
output_dirs out_dir [] = []
output_dirs out_dir (a ∷ args) = output_dirs_from (length a) out_dir a ++ output_dirs out_dir args

unfoldable pub mkdir_output_parents : List Bytes → Bytes → List Bytes
mkdir_output_parents args out_dir = if bytes_eq out_dir [] then [] else output_dirs out_dir args

abbrev pub search_path_flags : List Bytes
search_path_flags =
    codes "-idirafter" ∷ codes "-isystem" ∷ codes "-iquote" ∷ codes "-I" ∷ codes "-L" ∷ []

unfoldable pub make_rel : Bytes → Bytes → List Bytes
make_rel src_dir rel =
    if bytes_eq rel [] || bytes_eq rel (codes ".") then [] else join_path src_dir rel ∷ []

unfoldable pub make_one : Bytes → Bytes → List Bytes
unfolding make_rel
make_one src_dir p =
    if bytes_eq p []
    then []
    else if has_prefix p (codes "/src/")
    then make_rel src_dir (drop 5 p)
    else if bytes_eq p (codes "/src")
    then []
    else if is_abs p
    then []
    else make_rel src_dir p

-- What the first flag that fits makes of an argument: the directories, and the arguments behind
-- it that are used up.
unfoldable pub search_flag : Bytes → List Bytes → Bytes → List Bytes → List Bytes × ℕ
unfolding make_one
search_flag src_dir [] a rest = ([], 0)
search_flag src_dir (f ∷ flags) a rest =
    let later = search_flag src_dir flags a rest in
    if bytes_eq a f
    then elim rest [ [] ↦ ([], 0) | v ∷ _ ↦ (make_one src_dir v, 1) ]
    else if has_prefix a f
    then (make_one src_dir (drop (length f) a), 0)
    else later

-- The loop over the arguments, with the count of those that a flag has used up.
unfoldable pub search_dirs : Bytes → ℕ → List Bytes → List Bytes
unfolding search_flag
search_dirs src_dir skip [] = []
search_dirs src_dir (suc skip) (a ∷ args) = search_dirs src_dir skip args
search_dirs src_dir zero (a ∷ args) =
    let r = search_flag src_dir search_path_flags a args in r.0 ++ search_dirs src_dir r.1 args

unfoldable pub mkdir_search_paths : List Bytes → Bytes → List Bytes
unfolding search_dirs
mkdir_search_paths args src_dir = if bytes_eq src_dir [] then [] else search_dirs src_dir 0 args

-- The entries below the output directory: whether one is a regular file, its path there and its
-- content.
pub record OutFile : Type 0 where
  pub regular : Bool
  pub rel : Bytes
  pub content : Bytes

-- strings.TrimPrefix.
abbrev pub trim_prefix : Bytes → Bytes → Bytes
trim_prefix s p = if has_prefix s p then drop (length p) s else s

unfoldable pub collect_extra_outputs : List OutFile → Bytes → List (Bytes × Bytes)
collect_extra_outputs [] primary = []
collect_extra_outputs (f ∷ files) primary =
    let rest = collect_extra_outputs files primary in
    if not f.regular
    then rest
    else if bytes_eq f.rel (trim_prefix primary (codes "/out/"))
    then rest
    else (f.rel, f.content) ∷ rest
