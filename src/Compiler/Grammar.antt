-- ===== src/Compiler/Grammar.antt =====
-- internal/compiler/grammar.go and grammar_msvc.go: the two flag tables, and the order by falling
-- length in which the matchers scan them.
use hpcc.Prelude.{List, [], ◌∷◌, Bytes, codes, length, ltb, if◌then◌else◌}

pub data ValueMode : Type 0 where
  no_value joined_value separate_value joined_or_separate : ValueMode

pub data Category : Type 0 where
  cat_unknown cat_mode cat_output cat_include cat_system_include cat_define cat_undefine : Category
  cat_library cat_library_dir cat_standard cat_optim cat_debug cat_warning cat_feature : Category
  cat_machine cat_language cat_passthrough : Category

pub record FlagSpec : Type 0 where
  pub name : Bytes
  pub value : ValueMode
  pub category : Category

abbrev flag : Bytes → ValueMode → Category → FlagSpec
flag n v c = record { name = n; value = v; category = c }

unfoldable pub gnu_flags : List FlagSpec
gnu_flags =
    flag (codes "-c") no_value cat_mode
    ∷ flag (codes "-E") no_value cat_mode
    ∷ flag (codes "-S") no_value cat_mode
    ∷ flag (codes "-M") no_value cat_mode
    ∷ flag (codes "-MM") no_value cat_mode
    ∷ flag (codes "-o") separate_value cat_output
    ∷ flag (codes "-I") joined_or_separate cat_include
    ∷ flag (codes "-isystem") separate_value cat_system_include
    ∷ flag (codes "-iquote") separate_value cat_system_include
    ∷ flag (codes "-D") joined_or_separate cat_define
    ∷ flag (codes "-U") joined_or_separate cat_undefine
    ∷ flag (codes "-l") joined_or_separate cat_library
    ∷ flag (codes "-L") joined_or_separate cat_library_dir
    ∷ flag (codes "-std=") joined_value cat_standard
    ∷ flag (codes "-x") separate_value cat_language
    ∷ flag (codes "-O") joined_value cat_optim
    ∷ flag (codes "-g") joined_value cat_debug
    ∷ flag (codes "-W") joined_value cat_warning
    ∷ flag (codes "-f") joined_value cat_feature
    ∷ flag (codes "-m") joined_value cat_machine
    ∷ flag (codes "-Wl,") joined_value cat_passthrough
    ∷ flag (codes "-Wa,") joined_value cat_passthrough
    ∷ flag (codes "-Wp,") joined_value cat_passthrough
    ∷ flag (codes "-Xlinker") separate_value cat_passthrough
    ∷ flag (codes "-Xassembler") separate_value cat_passthrough
    ∷ flag (codes "-Xpreprocessor") separate_value cat_passthrough
    ∷ flag (codes "-include") separate_value cat_passthrough
    ∷ flag (codes "-MD") no_value cat_passthrough
    ∷ flag (codes "-MMD") no_value cat_passthrough
    ∷ flag (codes "-MF") separate_value cat_passthrough
    ∷ flag (codes "-MT") separate_value cat_passthrough
    ∷ flag (codes "-MQ") separate_value cat_passthrough
    ∷ []

unfoldable pub msvc_flags : List FlagSpec
msvc_flags =
    flag (codes "/c") no_value cat_mode
    ∷ flag (codes "/E") no_value cat_mode
    ∷ flag (codes "/EP") no_value cat_mode
    ∷ flag (codes "/P") no_value cat_mode
    ∷ flag (codes "/Fo") joined_value cat_output
    ∷ flag (codes "/Fe") joined_value cat_output
    ∷ flag (codes "/I") joined_or_separate cat_include
    ∷ flag (codes "/external:I") separate_value cat_system_include
    ∷ flag (codes "/D") joined_or_separate cat_define
    ∷ flag (codes "/U") joined_or_separate cat_undefine
    ∷ flag (codes "/std") joined_value cat_standard
    ∷ flag (codes "/Tc") joined_or_separate cat_language
    ∷ flag (codes "/Tp") joined_or_separate cat_language
    ∷ flag (codes "/O") joined_value cat_optim
    ∷ flag (codes "/W") joined_value cat_warning
    ∷ flag (codes "/Zi") no_value cat_debug
    ∷ flag (codes "/Z7") no_value cat_debug
    ∷ flag (codes "/ZI") no_value cat_debug
    ∷ flag (codes "/MDd") no_value cat_passthrough
    ∷ flag (codes "/MTd") no_value cat_passthrough
    ∷ flag (codes "/MD") no_value cat_passthrough
    ∷ flag (codes "/MT") no_value cat_passthrough
    ∷ flag (codes "/EH") joined_value cat_passthrough
    ∷ flag (codes "/nologo") no_value cat_passthrough
    ∷ flag (codes "/showIncludes") no_value cat_passthrough
    ∷ flag (codes "/Fd") joined_value cat_passthrough
    ∷ flag (codes "/Fa") joined_value cat_passthrough
    ∷ flag (codes "/link") no_value cat_passthrough
    ∷ []

-- sort.SliceStable by falling name length: an entry goes before the first shorter one or, being
-- inserted from the right end of the list, before those of its own length.
unfoldable pub place_flag : FlagSpec → List FlagSpec → List FlagSpec
place_flag f [] = f ∷ []
place_flag f (g ∷ gs) =
    if ltb (length f.name) (length g.name) then g ∷ place_flag f gs else f ∷ g ∷ gs

unfoldable pub sort_flags : List FlagSpec → List FlagSpec
unfolding place_flag
sort_flags [] = []
sort_flags (f ∷ fs) = place_flag f (sort_flags fs)

unfoldable pub gnu_flags_sorted : List FlagSpec
unfolding sort_flags gnu_flags
gnu_flags_sorted = sort_flags gnu_flags

unfoldable pub msvc_flags_sorted : List FlagSpec
unfolding sort_flags msvc_flags
msvc_flags_sorted = sort_flags msvc_flags
