-- ===== src/Compiler/Rewrite/Dependencies.antt =====
-- The dependency files that a command line names, before and after it is rewritten for a worker.
use hpcc.Prelude.{
  ◌≡◌, refl, sym, ap, ◌∙◌, Bool, true, false, ◌||◌, Option, none, some, List, [], ◌∷◌, ◌++◌, map,
  Bytes, codes, bytes_eq, ◌⊎◌, subst, has_prefix, if◌then◌else◌, Bool-cases, inl, inr,
}
use hpcc.Prelude.FilePath.{join_path}
use hpcc.Compiler.Rewrite.{
  first_prefix, split_wp_dep_emission, extract_dep_emission_paths, rewrite_dep_emission_for_cas,
}

-- An argument that names no dependency file.
abbrev pub IsOther : Bytes → Type 0
IsOther a = (split_wp_dep_emission a ≡ none) × (bytes_eq a (codes "-MF") ≡ false)

abbrev pub is_target_flag : Bytes → Bool
is_target_flag a = bytes_eq a (codes "-MT") || bytes_eq a (codes "-MQ")

abbrev pub OtherNext : List Bytes → Type 0
OtherNext [] = Unit
OtherNext (b ∷ args) = IsOther b

-- What follows -MT or -MQ is the name of a target and no flag for a dependency file.
abbrev pub Targeted : List Bytes → Type 0
Targeted [] = Unit
Targeted (a ∷ args) = (is_target_flag a ≡ true → OtherNext args) × Targeted args

extract-other :
    (a : Bytes) (args : List Bytes)
    → IsOther a
    → extract_dep_emission_paths (a ∷ args) ≡ extract_dep_emission_paths args
unfolding extract_dep_emission_paths split_wp_dep_emission has_prefix
extract-other a [] h = rw h.0 refl
extract-other a (b ∷ args) h = rw (h.0, h.1) refl

-- The three prefixes, and what is read back of each.
prefix_cases :
    (a prefix p : Bytes)
    → split_wp_dep_emission a ≡ some (prefix, p)
    → (prefix ≡ codes "-Wp,-MMD,") ⊎ (prefix ≡ codes "-Wp,-MD,") ⊎ (prefix ≡ codes "-Wp,-MF,")
unfolding split_wp_dep_emission first_prefix
prefix_cases a prefix p e = elim (Bool-cases (has_prefix a (codes "-Wp,-MMD,"))) [
  | inl h ↦ inl (let q = rw h at e in cc)
  | inr h ↦ elim (Bool-cases (has_prefix a (codes "-Wp,-MD,"))) [
    | inl k ↦ inr (inl (let q = rw (h, k) at e in cc))
    | inr k ↦ elim (Bool-cases (has_prefix a (codes "-Wp,-MF,"))) [
      | inl l ↦ inr (inr (let q = rw (h, k, l) at e in cc))
      | inr l ↦ absurd (let q = rw (h, k, l) at e in cc)
    ]
  ]
]

split-mmd :
    (x : Bytes) → split_wp_dep_emission (codes "-Wp,-MMD," ++ x) ≡ some (codes "-Wp,-MMD,", x)
unfolding split_wp_dep_emission first_prefix has_prefix
split-mmd x = refl

split-md : (x : Bytes) → split_wp_dep_emission (codes "-Wp,-MD," ++ x) ≡ some (codes "-Wp,-MD,", x)
unfolding split_wp_dep_emission first_prefix has_prefix
split-md x = refl

split-mf : (x : Bytes) → split_wp_dep_emission (codes "-Wp,-MF," ++ x) ≡ some (codes "-Wp,-MF,", x)
unfolding split_wp_dep_emission first_prefix has_prefix
split-mf x = refl

-- The prefix that was split off splits off again, whatever stands behind it.
split-again :
    (a prefix p x : Bytes)
    → split_wp_dep_emission a ≡ some (prefix, p)
    → split_wp_dep_emission (prefix ++ x) ≡ some (prefix, x)
split-again a prefix p x e =
    let P = λ (q : Bytes). split_wp_dep_emission (q ++ x) ≡ some (q, x) in
    elim (prefix_cases a prefix p e) [
      | inl h ↦ subst P (sym h) (split-mmd x)
      | inr (inl h) ↦ subst P (sym h) (split-md x)
      | inr (inr h) ↦ subst P (sym h) (split-mf x)
    ]

extract-wp :
    (a prefix p : Bytes) (args : List Bytes)
    → split_wp_dep_emission a ≡ some (prefix, p)
    → extract_dep_emission_paths (a ∷ args) ≡ p ∷ extract_dep_emission_paths args
unfolding extract_dep_emission_paths split_wp_dep_emission has_prefix
extract-wp a prefix p [] h = rw h refl
extract-wp a prefix p (b ∷ args) h = rw h refl

extract-mf :
    (a b : Bytes) (args : List Bytes)
    → split_wp_dep_emission a ≡ none
    → bytes_eq a (codes "-MF") ≡ true
    → extract_dep_emission_paths (a ∷ b ∷ args) ≡ b ∷ extract_dep_emission_paths args
unfolding extract_dep_emission_paths split_wp_dep_emission has_prefix
extract-mf a b args h k = rw (h, k) refl

extract-last :
    (a : Bytes) → split_wp_dep_emission a ≡ none → extract_dep_emission_paths (a ∷ []) ≡ []
unfolding extract_dep_emission_paths split_wp_dep_emission has_prefix
extract-last a h = rw h refl

extract-nil : extract_dep_emission_paths [] ≡ []
unfolding extract_dep_emission_paths
extract-nil = refl

-- What is wanted of the rewritten arguments and the paths.
pub record Agrees (out_root : Bytes) (args : List Bytes) (r : List Bytes × List Bytes)
    : Type 0 where
  pub paths : r.1 ≡ extract_dep_emission_paths args
  pub moved :
      extract_dep_emission_paths r.0 ≡ map (join_path out_root) (extract_dep_emission_paths args)

Targeted-tail : (a : Bytes) (args : List Bytes) → Targeted (a ∷ args) → Targeted args
Targeted-tail a args h = h.1

module _ (out_root : Bytes) where
  wp-Agrees :
      (a prefix p : Bytes) (args : List Bytes) (r : List Bytes × List Bytes)
      → split_wp_dep_emission a ≡ some (prefix, p)
      → Agrees out_root args r
      → Agrees out_root (a ∷ args) ((prefix ++ join_path out_root p) ∷ r.0, p ∷ r.1)
  wp-Agrees a prefix p args r e h = record {
    paths = ap (◌∷◌ p) h.paths ∙ sym (extract-wp a prefix p args e);
    moved =
        extract-wp (prefix ++ join_path out_root p) prefix (join_path out_root p) r.0
          (split-again a prefix p (join_path out_root p) e)
        ∙ ap (◌∷◌ (join_path out_root p)) h.moved
        ∙ ap (map (join_path out_root)) (sym (extract-wp a prefix p args e));
  }

  mf-Agrees :
      (a b : Bytes) (args : List Bytes) (r : List Bytes × List Bytes)
      → split_wp_dep_emission a ≡ none
      → bytes_eq a (codes "-MF") ≡ true
      → Agrees out_root args r
      → Agrees out_root (a ∷ b ∷ args) (a ∷ join_path out_root b ∷ r.0, b ∷ r.1)
  mf-Agrees a b args r e f h = record {
    paths = ap (◌∷◌ b) h.paths ∙ sym (extract-mf a b args e f);
    moved =
        extract-mf a (join_path out_root b) r.0 e f
        ∙ ap (◌∷◌ (join_path out_root b)) h.moved
        ∙ ap (map (join_path out_root)) (sym (extract-mf a b args e f));
  }

  other-Agrees :
      (a : Bytes) (args : List Bytes) (r : List Bytes × List Bytes)
      → IsOther a
      → Agrees out_root args r
      → Agrees out_root (a ∷ args) (a ∷ r.0, r.1)
  other-Agrees a args r o h = record {
    paths = h.paths ∙ sym (extract-other a args o);
    moved =
        extract-other a r.0 o
        ∙ h.moved
        ∙ ap (map (join_path out_root)) (sym (extract-other a args o));
  }

  none-Agrees : Agrees out_root [] ([], [])
  none-Agrees = record {
    paths = sym extract-nil;
    moved = extract-nil ∙ ap (map (join_path out_root)) (sym extract-nil);
  }

  last-Agrees :
      (a : Bytes) (r : Option (Bytes × Bytes))
      → split_wp_dep_emission a ≡ r
      → Agrees out_root (a ∷ []) (elim r [
        | some (prefix, p) ↦ ((prefix ++ join_path out_root p) ∷ [], p ∷ [])
        | none ↦ (a ∷ [], [])
      ])
  last-Agrees a (some (prefix, p)) e = wp-Agrees a prefix p [] ([], []) e none-Agrees
  last-Agrees a none e = record {
    paths = sym (extract-last a e);
    moved = extract-last a e ∙ ap (map (join_path out_root)) (sym (extract-last a e));
  }

  -- On a command line in which no value of -MT or -MQ is itself a flag for a dependency file, the
  -- paths that rewrite_dep_emission_for_cas reports are those that extract_dep_emission_paths
  -- finds in it, in the same order, and in the rewritten command line extract_dep_emission_paths
  -- finds the same paths joined to the output root.
  pub rewrite_dep_emission_for_cas-extract :
      (args : List Bytes)
      → Targeted args
      → Agrees out_root args (rewrite_dep_emission_for_cas out_root args)
  unfolding rewrite_dep_emission_for_cas
  rewrite_dep_emission_for_cas-extract [] t = none-Agrees
  rewrite_dep_emission_for_cas-extract (a ∷ []) t = last-Agrees a (split_wp_dep_emission a) refl
  rewrite_dep_emission_for_cas-extract (a ∷ b ∷ args) t =
      two (split_wp_dep_emission a) (bytes_eq a (codes "-MF")) (is_target_flag a) refl refl refl
        (rewrite_dep_emission_for_cas-extract args t.1.1)
        (rewrite_dep_emission_for_cas-extract (b ∷ args) t.1)
    where
      behind : List Bytes × List Bytes
      behind = rewrite_dep_emission_for_cas out_root args

      next : List Bytes × List Bytes
      next = rewrite_dep_emission_for_cas out_root (b ∷ args)

      two :
          (r : Option (Bytes × Bytes)) (mf target : Bool)
          → split_wp_dep_emission a ≡ r
          → bytes_eq a (codes "-MF") ≡ mf
          → is_target_flag a ≡ target
          → Agrees out_root args behind
          → Agrees out_root (b ∷ args) next
          → Agrees out_root (a ∷ b ∷ args) (elim r [
            | some (prefix, p) ↦ ((prefix ++ join_path out_root p) ∷ next.0, p ∷ next.1)
            | none ↦
                if mf
                then (a ∷ join_path out_root b ∷ behind.0, b ∷ behind.1)
                else if target
                then (a ∷ b ∷ behind.0, behind.1)
                else (a ∷ next.0, next.1)
          ])
      two (some (prefix, p)) mf target e f g later here =
          wp-Agrees a prefix p (b ∷ args) next e here
      two none true target e f g later here = mf-Agrees a b args behind e f later
      two none false true e f g later here =
          other-Agrees a (b ∷ args) (b ∷ behind.0, behind.1) (e, f)
            (other-Agrees b args behind (t.0 g) later)
      two none false false e f g later here = other-Agrees a (b ∷ args) next (e, f) here
