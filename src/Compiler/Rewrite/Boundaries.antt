-- ===== src/Compiler/Rewrite/Boundaries.antt =====
-- Where rewritePrefix puts the new prefix: only the end of an occurrence has to be a boundary.
use hpcc.Prelude.{
  ℕ, suc, ◌-◌, ◌≡◌, refl, sym, ap, ◌∙◌, Bool, true, false, [], ◌∷◌, ◌++◌, Bytes, has_prefix, length,
  if◌then◌else◌, Bool-cases, inl, inr, drop-length-append, arith,
}
use hpcc.Compiler.Rewrite.{contains_text, at_boundary, matches_host, rewrite_from, rewrite_prefix}

-- No occurrence that ends on a boundary starts in the first part of a text.
abbrev pub Quiet : Bytes → Bytes → Bytes → Type 0
Quiet host [] rest = Unit
Quiet host (c ∷ outer) rest =
    (matches_host host (c ∷ (outer ++ rest)) ≡ false) × Quiet host outer rest

has_prefix-append : (p s : Bytes) → has_prefix (p ++ s) p ≡ true
unfolding has_prefix
has_prefix-append [] s = refl
has_prefix-append (c ∷ p) s = ground (arith, has_prefix-append p s)

contains-append : (outer p rest : Bytes) → contains_text (outer ++ (p ++ rest)) p ≡ true
unfolding contains_text
contains-append [] [] [] = has_prefix-append [] []
contains-append [] [] (c ∷ rest) = rw (has_prefix-append [] (c ∷ rest)) refl
contains-append [] (c ∷ p) rest = rw (has_prefix-append (c ∷ p) rest) refl
contains-append (c ∷ outer) p rest =
    rw (contains-append outer p rest) (pick (has_prefix (c ∷ (outer ++ (p ++ rest))) p))
  where
    pick : (b : Bool) → (if b then true else true) ≡ true
    pick true = refl
    pick false = refl

absent_here : (b t : Bool) → (if b then true else t) ≡ false → b ≡ false
absent_here true t h = h
absent_here false t h = refl

absent_later : (b t : Bool) → (if b then true else t) ≡ false → t ≡ false
absent_later true t h = cc
absent_later false t h = h

match : (host rest : Bytes) → at_boundary rest ≡ true → matches_host host (host ++ rest) ≡ true
unfolding matches_host
match host rest e = rw (has_prefix-append host rest, drop-length-append host rest, e) refl

module _ (host vm : Bytes) where
  no_match : (s : Bytes) → has_prefix s host ≡ false → matches_host host s ≡ false
  unfolding matches_host
  no_match s h = rw h refl

  rewrite_from-skip :
      (p s : Bytes) → rewrite_from host vm (length p) (p ++ s) ≡ rewrite_from host vm 0 s
  unfolding rewrite_from
  rewrite_from-skip [] s = refl
  rewrite_from-skip (c ∷ p) s = rewrite_from-skip p s

  rewrite_from-Quiet :
      (outer rest : Bytes)
      → Quiet host outer rest
      → rewrite_from host vm 0 (outer ++ rest) ≡ outer ++ rewrite_from host vm 0 rest
  unfolding rewrite_from
  rewrite_from-Quiet [] rest q = refl
  rewrite_from-Quiet (c ∷ outer) rest q = rw (q.0) (ap (◌∷◌ c) (rewrite_from-Quiet outer rest q.1))

  -- Without an occurrence the scan changes nothing.
  rewrite_from-absent : (s : Bytes) → contains_text s host ≡ false → rewrite_from host vm 0 s ≡ s
  unfolding rewrite_from contains_text
  rewrite_from-absent [] h = refl
  rewrite_from-absent (c ∷ s) h =
      let here : has_prefix (c ∷ s) host ≡ false = absent_here (has_prefix (c ∷ s) host) _ h in
      let later : contains_text s host ≡ false = absent_later (has_prefix (c ∷ s) host) _ h in
      let quiet : matches_host host (c ∷ s) ≡ false = no_match (c ∷ s) here in
      rw quiet (ap (◌∷◌ c) (rewrite_from-absent s later))

  -- So the early return of the code is only a shortcut.
  rewrite_prefix-from : (s : Bytes) → rewrite_prefix host vm s ≡ rewrite_from host vm 0 s
  unfolding rewrite_prefix
  rewrite_prefix-from s = elim (Bool-cases (contains_text s host)) [
    | inl e ↦ rw e refl
    | inr e ↦ rw e (sym (rewrite_from-absent s e))
  ]

rewrite_from-host :
    (c : ℕ) (host vm rest : Bytes)
    → at_boundary rest ≡ true
    → rewrite_from (c ∷ host) vm 0 (c ∷ (host ++ rest)) ≡ vm ++ rewrite_from (c ∷ host) vm 0 rest
unfolding rewrite_from
rewrite_from-host c host vm rest e =
    let found : matches_host (c ∷ host) (c ∷ (host ++ rest)) ≡ true = match (c ∷ host) rest e in
    let count : suc (length host) - 1 ≡ length host = omega arith in
    rw (found, count) (ap (λ t. vm ++ t) (rewrite_from-skip (c ∷ host) vm host rest))

-- For a prefix that is not empty and a text that consists of an outer part, the prefix, and a rest
-- that is empty or starts with "/" or "=", where no occurrence of the prefix with such an end
-- starts in the outer part, rewrite_prefix keeps the outer part, whatever it ends in, puts the new
-- prefix in the place of the old one, and rewrites the rest.
pub rewrite_prefix-append :
    (c : ℕ) (host vm outer rest : Bytes)
    → Quiet (c ∷ host) outer ((c ∷ host) ++ rest)
    → at_boundary rest ≡ true
    → rewrite_prefix (c ∷ host) vm (outer ++ ((c ∷ host) ++ rest))
      ≡ outer ++ (vm ++ rewrite_prefix (c ∷ host) vm rest)
rewrite_prefix-append c host vm outer rest q e =
    rewrite_prefix-from (c ∷ host) vm (outer ++ ((c ∷ host) ++ rest))
    ∙ rewrite_from-Quiet (c ∷ host) vm outer ((c ∷ host) ++ rest) q
    ∙ ap (λ t. outer ++ t)
        (rewrite_from-host c host vm rest e
          ∙ ap (λ t. vm ++ t) (sym (rewrite_prefix-from (c ∷ host) vm rest)))
