-- ===== src/Worker/Escapes.antt =====
-- Search paths that lead out of the staging directory.
use hpcc.Prelude.{◌≡◌, ◌≢◌, ap, true, [], ◌∷◌, ◌++◌, Bytes, codes, bytes_eq, has_prefix}
use hpcc.Prelude.FilePath.{is_abs, join_path}
use hpcc.Prelude.FilePath.Joins.{join_path-sibling}
use hpcc.Prelude.Cut.{Without}
use hpcc.Worker.{mkdir_search_paths, make_rel}

-- For every staging directory parent/base and every path rel that is not empty, an argument
-- -I../rel makes mkdir_search_paths create the directory parent/rel, beside the staging directory.
pub mkdir_search_paths-outside :
    (parent base rel : Bytes)
    → is_abs parent ≡ true
    → Without b'/' base
    → base ≢ []
    → base ≢ codes "."
    → base ≢ codes ".."
    → rel ≢ []
    → mkdir_search_paths ((codes "-I../" ++ rel) ∷ []) (parent ++ (b'/' ∷ base))
      ≡ join_path parent rel ∷ []
unfolding mkdir_search_paths make_rel has_prefix is_abs bytes_eq
mkdir_search_paths-outside [] base rel a w b c d f = absurd (let q : ⊥ = cc in q)
mkdir_search_paths-outside (x ∷ parent) base rel a w b c d f =
    ap (λ (p : Bytes). p ∷ []) (join_path-sibling (x ∷ parent) base rel a w b c d f)
