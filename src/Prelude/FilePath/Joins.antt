-- ===== src/Prelude/FilePath/Joins.antt =====
-- Where a relative path that is joined to a directory leads.
use mathlib.Core.Path.{◌≡◌, refl, sym, ap, ap₂, subst, ◌∙◌}
use mathlib.Core.Logic.{◌≢◌, inl, inr}
use mathlib.Core.Bool.{Bool, true, false, ◌||◌}
use mathlib.Core.List.{List, [], ◌∷◌, ◌++◌, reverse, reverse-append, reverse-cons, append_assoc}
use native.Mathlib.Omega.{arith}
use hpcc.Prelude.Text.{Bytes, codes, bytes_eq, bytes_eq_iff, has_prefix}
use hpcc.Prelude.FilePath.{
  segments, segments-slash, dots, resolve, resolve-append, is_abs, join_parts, clean_parts, clean,
  join_path, Inside, resolve-Inside, climb, push_segment, push-Plain, bottom_stays,
}
use hpcc.Prelude.Cut.{Without}
use hpcc.Prelude.Lists.{All, All-append}

-- The test by which a relative path counts as leading out of its start.
abbrev pub escapes : Bytes → Bool
escapes p = bytes_eq p dots || has_prefix p (codes "../")

dots_first : (ps : List Bytes) → escapes (join_parts (dots ∷ ps)) ≡ true
unfolding join_parts bytes_eq has_prefix
dots_first [] = refl
dots_first (p ∷ ps) = refl

pub clean-escapes :
    (p : Bytes) (pre : List Bytes)
    → is_abs p ≡ false
    → resolve false [] (segments p) ≡ pre ++ (dots ∷ [])
    → escapes (clean p) ≡ true
unfolding clean
clean-escapes p pre a e =
    let parts : clean_parts p ≡ dots ∷ reverse pre =
      ap (λ r. reverse (resolve r [] (segments p))) a
      ∙ ap reverse e
      ∙ reverse-append pre (dots ∷ []) in
    let q : clean p ≡ join_parts (dots ∷ reverse pre) = ground (arith, a, parts) in
    ap escapes q ∙ dots_first (reverse pre)

clean-rooted : (p : Bytes) → is_abs p ≡ true → clean p ≡ b'/' ∷ join_parts (clean_parts p)
unfolding clean
clean-rooted p a = ground (arith, a)

no_dir : ¬ (is_abs [] ≡ true)
unfolding is_abs
no_dir a = cc

clean_parts-slash :
    (dir p : Bytes)
    → is_abs dir ≡ true
    → is_abs (dir ++ (b'/' ∷ p)) ≡ true
    → is_abs p ≡ false
    → Inside (resolve false [] (segments p))
    → clean_parts (dir ++ (b'/' ∷ p)) ≡ clean_parts dir ++ clean_parts p
unfolding clean_parts
clean_parts-slash dir p a full b i =
    let base = resolve true [] (segments dir) in
    let rel = resolve false [] (segments p) in
    let e : resolve true [] (segments (dir ++ (b'/' ∷ p))) ≡ rel ++ base =
      ap (resolve true []) (segments-slash dir p)
      ∙ resolve-append true [] (segments dir) (segments p)
      ∙ resolve-Inside (segments p) [] base tt i in
    ap (λ r. reverse (resolve r [] (segments (dir ++ (b'/' ∷ p))))) full
    ∙ ap reverse e
    ∙ reverse-append rel base
    ∙ ap (λ r. reverse (resolve r [] (segments dir)) ++ reverse rel) (sym a)
    ∙ ap
        (λ r.
          reverse (resolve (is_abs dir) [] (segments dir)) ++ reverse (resolve r [] (segments p)))
        (sym b)

-- It lies below the directory, whose parts come first.
pub join_path-Inside :
    (dir p : Bytes)
    → is_abs dir ≡ true
    → is_abs p ≡ false
    → p ≢ []
    → Inside (resolve false [] (segments p))
    → join_path dir p ≡ b'/' ∷ join_parts (clean_parts dir ++ clean_parts p)
unfolding join_path is_abs
join_path-Inside [] p a b h i = absurd (no_dir a)
join_path-Inside (c ∷ dir) [] a b h i = absurd (h refl)
join_path-Inside (c ∷ dir) (x ∷ p) a b h i =
    clean-rooted ((c ∷ dir) ++ (b'/' ∷ x ∷ p)) a
    ∙ ap (λ ps. b'/' ∷ join_parts ps) (clean_parts-slash (c ∷ dir) (x ∷ p) a a b i)

abbrev Plain : List Bytes → Type 0
Plain ps = All (λ p. p ≢ dots) ps

All-reverse : (ps : List Bytes) → Plain ps → Plain (reverse ps)
All-reverse [] h = tt
All-reverse (p ∷ ps) h =
    subst Plain (sym (reverse-cons p ps))
      (All-append (λ p. p ≢ dots) (reverse ps) (p ∷ []) (All-reverse ps h.1) (h.0, tt))

-- Above a part that is not "..", no part is "..".
Inside-Plain :
    (parts out : List Bytes)
    → Plain out
    → Inside (resolve false out parts)
    → Plain (resolve false out parts)
unfolding resolve
Inside-Plain [] out pl i = pl
Inside-Plain (p ∷ parts) out pl i = elim (push-Plain p out pl) [
  | inl next ↦ Inside-Plain parts (push_segment false out p) next i
  | inr e ↦ absurd (bottom_stays [] parts (subst (λ x. Inside (resolve false x parts)) e i))
]

pub clean_parts-Plain :
    (p : Bytes) → is_abs p ≡ false → Inside (resolve false [] (segments p)) → Plain (clean_parts p)
unfolding clean_parts
clean_parts-Plain p a i =
    subst (λ r. Plain (reverse (resolve r [] (segments p)))) (sym a)
      (All-reverse (resolve false [] (segments p)) (Inside-Plain (segments p) [] tt i))

segments-Without : (s : Bytes) → Without b'/' s → segments s ≡ s ∷ []
unfolding segments
segments-Without [] w = refl
segments-Without (c ∷ s) w =
    let ih = segments-Without s w.1 in let other : c ≢ b'/' = w.0 in ground (arith, ih, other)

base_then_up :
    (out rest : List Bytes) (base : Bytes)
    → base ≢ []
    → base ≢ codes "."
    → base ≢ dots
    → resolve true out (base ∷ dots ∷ rest) ≡ resolve true out rest
unfolding resolve push_segment climb bytes_eq
base_then_up out rest base a b c =
    let named : push_segment true out base ≡ base ∷ out =
      ground (arith, bytes_eq_iff base [], bytes_eq_iff base (codes "."), bytes_eq_iff base dots) in
    let up : climb true (base ∷ out) ≡ out = ground (arith, bytes_eq_iff base dots) in
    ap (λ s. resolve true (climb true s) rest) named ∙ ap (λ s. resolve true s rest) up

segments-sibling :
    (parent base rel : Bytes)
    → Without b'/' base
    → segments ((parent ++ (b'/' ∷ base)) ++ (b'/' ∷ (codes "../" ++ rel)))
      ≡ (segments parent ++ (base ∷ [])) ++ (dots ∷ segments rel)
unfolding segments
segments-sibling parent base rel w =
    segments-slash (parent ++ (b'/' ∷ base)) (codes "../" ++ rel)
    ∙ ap₂ ◌++◌
        (segments-slash parent base ∙ ap (λ s. segments parent ++ s) (segments-Without base w))
        (segments-slash dots rel)

clean_parts-sibling :
    (parent base rel : Bytes)
    → is_abs parent ≡ true
    → is_abs ((parent ++ (b'/' ∷ base)) ++ (b'/' ∷ (codes "../" ++ rel))) ≡ true
    → is_abs (parent ++ (b'/' ∷ rel)) ≡ true
    → Without b'/' base
    → base ≢ []
    → base ≢ codes "."
    → base ≢ dots
    → clean_parts ((parent ++ (b'/' ∷ base)) ++ (b'/' ∷ (codes "../" ++ rel)))
      ≡ clean_parts (parent ++ (b'/' ∷ rel))
unfolding clean_parts
clean_parts-sibling parent base rel a x y w b c d =
    let out = resolve true [] (segments parent) in
    let one : resolve true [] ((segments parent ++ (base ∷ [])) ++ (dots ∷ segments rel))
        ≡ resolve true out (base ∷ dots ∷ segments rel) =
      ap (resolve true []) (append_assoc (segments parent) (base ∷ []) (dots ∷ segments rel))
      ∙ resolve-append true [] (segments parent) (base ∷ dots ∷ segments rel) in
    let two : resolve true [] (segments (parent ++ (b'/' ∷ rel)))
        ≡ resolve true out (segments rel) =
      ap (resolve true []) (segments-slash parent rel)
      ∙ resolve-append true [] (segments parent) (segments rel) in
    ap
      (λ r.
        reverse
          (resolve r [] (segments ((parent ++ (b'/' ∷ base)) ++ (b'/' ∷ (codes "../" ++ rel))))))
      x
    ∙ ap (λ s. reverse (resolve true [] s)) (segments-sibling parent base rel w)
    ∙ ap reverse (one ∙ base_then_up out (segments rel) base b c d ∙ sym two)
    ∙ ap (λ r. reverse (resolve r [] (segments (parent ++ (b'/' ∷ rel))))) (sym y)

-- A path that goes up from a directory first, and then down.
pub join_path-sibling :
    (parent base rel : Bytes)
    → is_abs parent ≡ true
    → Without b'/' base
    → base ≢ []
    → base ≢ codes "."
    → base ≢ dots
    → rel ≢ []
    → join_path (parent ++ (b'/' ∷ base)) (codes "../" ++ rel) ≡ join_path parent rel
unfolding join_path is_abs
join_path-sibling [] base rel a w b c d e = absurd (no_dir a)
join_path-sibling (x ∷ parent) base [] a w b c d e = absurd (e refl)
join_path-sibling (x ∷ parent) base (y ∷ rel) a w b c d e =
    clean-rooted (((x ∷ parent) ++ (b'/' ∷ base)) ++ (b'/' ∷ (codes "../" ++ (y ∷ rel)))) a
    ∙ ap (λ ps. b'/' ∷ join_parts ps)
        (clean_parts-sibling (x ∷ parent) base (y ∷ rel) a a a w b c d)
    ∙ sym (clean-rooted ((x ∷ parent) ++ (b'/' ∷ (y ∷ rel))) a)
