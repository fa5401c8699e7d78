-- ===== src/Prelude/FilePath.antt =====
-- path/filepath on a Unix system: Clean, Join, IsAbs, Base and Dir.
pub mod Joins
use Prim.Native.Nat.{ℕ}
use Prim.Native.Char.{code}
use mathlib.Core.Path.{◌≡◌, refl, sym, ap, subst, ◌∙◌}
use mathlib.Core.Logic.{◌≢◌, ◌⊎◌, inl, inr}
use mathlib.Core.Bool.{Bool, true, false, not, ◌||◌, ◌&&◌}
use mathlib.Core.Option.{Option, none, some}
use mathlib.Core.List.{List, [], ◌∷◌, ◌++◌, reverse}
use native.Mathlib.Omega.{arith}
use hpcc.Prelude.Tests.{◌==◌, if◌then◌else◌, Bool-cases}
use hpcc.Prelude.Lists.{All}
use hpcc.Prelude.Text.{Bytes, codes, bytes_eq, bytes_eq_iff, bytes_eq_refl}

-- The parts between the slashes.
unfoldable pub segments : Bytes → List Bytes
segments [] = [] ∷ []
segments (c ∷ s) =
    let rest = segments s in
    if c == b'/' then [] ∷ rest else elim rest [ [] ↦ (c ∷ []) ∷ [] | p ∷ ps ↦ (c ∷ p) ∷ ps ]

abbrev pub dots : Bytes
dots = codes ".."

-- A part "..": it takes the part before it away, if that is no ".." itself.
unfoldable pub climb : Bool → List Bytes → List Bytes
climb rooted [] = if rooted then [] else dots ∷ []
climb rooted (top ∷ below) = if bytes_eq top dots then dots ∷ top ∷ below else below

-- One part of a path, on the stack of the parts that are kept.
unfoldable pub push_segment : Bool → List Bytes → Bytes → List Bytes
unfolding climb
push_segment rooted out part =
    if bytes_eq part [] || bytes_eq part (codes ".")
    then out
    else if bytes_eq part dots
    then climb rooted out
    else part ∷ out

unfoldable pub resolve : Bool → List Bytes → List Bytes → List Bytes
resolve rooted out [] = out
resolve rooted out (part ∷ parts) = resolve rooted (push_segment rooted out part) parts

unfoldable pub is_abs : Bytes → Bool
is_abs [] = false
is_abs (c ∷ s) = c == b'/'

unfoldable pub join_parts : List Bytes → Bytes
join_parts [] = []
join_parts (p ∷ []) = p
join_parts (p ∷ ps) = p ++ (b'/' ∷ join_parts ps)

-- The parts of a cleaned path, the first one first.
unfoldable pub clean_parts : Bytes → List Bytes
clean_parts p = reverse (resolve (is_abs p) [] (segments p))

unfoldable pub clean : Bytes → Bytes
unfolding is_abs clean_parts join_parts
clean p =
    if is_abs p
    then b'/' ∷ join_parts (clean_parts p)
    else elim (clean_parts p) [ [] ↦ codes "." | x ∷ xs ↦ join_parts (x ∷ xs) ]

-- filepath.Join of two elements.
unfoldable pub join_path : Bytes → Bytes → Bytes
unfolding clean
join_path [] [] = []
join_path [] (c ∷ s) = clean (c ∷ s)
join_path (c ∷ d) [] = clean (c ∷ d)
join_path (c ∷ d) (x ∷ s) = clean ((c ∷ d) ++ (b'/' ∷ (x ∷ s)))

-- filepath.Rel of two paths that both are absolute, or both relative: none where it fails.
abbrev climb_all : List Bytes → List Bytes → List Bytes
climb_all [] target = target
climb_all (b ∷ base) target = dots ∷ climb_all base target

unfoldable pub rel_parts : List Bytes → List Bytes → List Bytes
rel_parts [] target = target
rel_parts (b ∷ base) [] = climb_all (b ∷ base) []
rel_parts (b ∷ base) (t ∷ target) =
    if bytes_eq b t then rel_parts base target else climb_all (b ∷ base) (t ∷ target)

unfoldable pub rel_path : Bytes → Bytes → Option Bytes
unfolding rel_parts
rel_path base target =
    if is_abs base && is_abs target || not (is_abs base) && not (is_abs target)
    then elim (rel_parts (clean_parts base) (clean_parts target)) [
      | [] ↦ some (codes ".")
      | p ∷ ps ↦ some (join_parts (p ∷ ps))
    ]
    else none

-- The text before the last slash, with that slash; none where there is no slash.
unfoldable pub upto_slash : Bytes → Option Bytes
upto_slash [] = none
upto_slash (c ∷ s) = elim (upto_slash s) [
  | some l ↦ some (c ∷ l)
  | none ↦ if c == b'/' then some (c ∷ []) else none
]

-- filepath.Dir.
unfoldable pub path_dir : Bytes → Bytes
unfolding upto_slash clean
path_dir p = elim (upto_slash p) [ none ↦ codes "." | some d ↦ clean d ]

-- The last part that is not empty.
last_part : List Bytes → Option Bytes
last_part [] = none
last_part (p ∷ ps) = elim (last_part ps) [
  | some b ↦ some b
  | none ↦ if bytes_eq p [] then none else some p
]

-- filepath.Base.
unfoldable pub path_base : Bytes → Bytes
unfolding segments last_part is_abs
path_base p = elim (last_part (segments p)) [
  | none ↦ if is_abs p then codes "/" else codes "."
  | some b ↦ b
]

segments-some : (s : Bytes) → (p : Bytes) × (ps : List Bytes) × (segments s ≡ p ∷ ps)
unfolding segments
segments-some [] = ([], [], refl)
segments-some (c ∷ s) =
    let (p, ps, e) = segments-some s in
    elim (Bool-cases (c == b'/')) [
      | inl same ↦ ([], segments s, ground (arith, same))
      | inr other ↦ (c ∷ p, ps, ground (arith, other, e))
    ]

pub segments-slash : (s t : Bytes) → segments (s ++ (b'/' ∷ t)) ≡ segments s ++ segments t
unfolding segments
segments-slash [] t = refl
segments-slash (c ∷ s) t =
    let (p, ps, e) = segments-some s in let ih = segments-slash s t in ground (arith, e, ih)

pub resolve-append :
    (r : Bool) (out xs ys : List Bytes) → resolve r out (xs ++ ys) ≡ resolve r (resolve r out xs) ys
unfolding resolve
resolve-append r out [] ys = refl
resolve-append r out (x ∷ xs) ys = resolve-append r (push_segment r out x) xs ys

-- The part at the bottom of a stack is not "..".
abbrev pub Inside : List Bytes → Type 0
Inside [] = Unit
Inside (p ∷ []) = p ≢ dots
Inside (p ∷ q ∷ ps) = Inside (q ∷ ps)

abbrev pub Plain : List Bytes → Type 0
Plain out = All (λ p. p ≢ dots) out

Inside-bottom : (pre : List Bytes) → ¬ Inside (pre ++ (dots ∷ []))
Inside-bottom [] h = h refl
Inside-bottom (p ∷ []) h = h refl
Inside-bottom (p ∷ q ∷ pre) h = Inside-bottom (q ∷ pre) h

pub Inside-or : (out : List Bytes) → Inside out ⊎ ((pre : List Bytes) × (out ≡ pre ++ (dots ∷ [])))
Inside-or [] = inl tt
Inside-or (p ∷ []) = elim (Bool-cases (bytes_eq p dots)) [
  | inl e ↦ inr ([], ap (λ (x : Bytes). x ∷ []) ((bytes_eq_iff p dots).0 e))
  | inr other ↦ inl (λ e. ground (arith, bytes_eq_iff p dots))
]
Inside-or (p ∷ q ∷ out) = elim (Inside-or (q ∷ out)) [
  | inl h ↦ inl h
  | inr (pre, e) ↦ inr (p ∷ pre, ap (◌∷◌ p) e)
]

data Part : Bytes → Type 0 where
  nothing : {p : Bytes} → ((r : Bool) (out : List Bytes) → push_segment r out p ≡ out) → Part p
  upward :
      {p : Bytes} → ((r : Bool) (out : List Bytes) → push_segment r out p ≡ climb r out) → Part p
  named :
      {p : Bytes}
      → p ≢ dots
      → ((r : Bool) (out : List Bytes) → push_segment r out p ≡ p ∷ out)
      → Part p

Part-cases : (p : Bytes) → Part p
unfolding push_segment
Part-cases p = elim (Bool-cases (bytes_eq p [] || bytes_eq p (codes "."))) [
  | inl skip ↦ nothing (λ r out. rw skip refl)
  | inr more ↦ elim (Bool-cases (bytes_eq p dots)) [
    | inl up ↦ upward (λ r out. ground (arith, more, up))
    | inr name ↦
        named (λ e. ground (arith, bytes_eq_iff p dots)) (λ r out. ground (arith, more, name))
  ]
]

climb-bottom :
    (pre : List Bytes)
    → (pre' : List Bytes) × (climb false (pre ++ (dots ∷ [])) ≡ pre' ++ (dots ∷ []))
unfolding climb bytes_eq
climb-bottom [] = (dots ∷ [], refl)
climb-bottom (p ∷ pre) = elim (Bool-cases (bytes_eq p dots)) [
  | inl e ↦ (dots ∷ p ∷ pre, rw e refl)
  | inr e ↦ (pre, rw e refl)
]

push_segment-bottom :
    (pre : List Bytes) (part : Bytes)
    → (pre' : List Bytes) × (push_segment false (pre ++ (dots ∷ [])) part ≡ pre' ++ (dots ∷ []))
push_segment-bottom pre part = elim (Part-cases part) [
  | nothing e ↦ (pre, e false (pre ++ (dots ∷ [])))
  | upward e ↦ let (pre', c) = climb-bottom pre in (pre', e false (pre ++ (dots ∷ [])) ∙ c)
  | named h e ↦ (part ∷ pre, e false (pre ++ (dots ∷ [])))
]

-- Once a relative path has left its start, no later part brings it back.
pub bottom_stays : (pre parts : List Bytes) → ¬ Inside (resolve false (pre ++ (dots ∷ [])) parts)
unfolding resolve
bottom_stays pre [] h = Inside-bottom pre h
bottom_stays pre (p ∷ parts) h =
    let (pre', e) = push_segment-bottom pre p in
    bottom_stays pre' parts (subst (λ x. Inside (resolve false x parts)) e h)

climb-Plain :
    (p : Bytes) (out base : List Bytes)
    → p ≢ dots
    → (r : Bool) → climb r ((p ∷ out) ++ base) ≡ out ++ base
unfolding climb
climb-Plain p out base h r = ground (arith, bytes_eq_iff p dots)

climb-top : (p : Bytes) (out : List Bytes) → p ≢ dots → climb false (p ∷ out) ≡ out
unfolding climb
climb-top p out h = ground (arith, bytes_eq_iff p dots)

climb_nothing : climb false [] ≡ dots ∷ []
unfolding climb
climb_nothing = refl

climb-Plain_or :
    (out : List Bytes) → Plain out → Plain (climb false out) ⊎ (climb false out ≡ dots ∷ [])
climb-Plain_or [] pl = inr climb_nothing
climb-Plain_or (q ∷ out) pl = inl (subst Plain (sym (climb-top q out pl.0)) pl.1)

-- A part is kept above parts that are not "..", or it leads out of the start.
pub push-Plain :
    (p : Bytes) (out : List Bytes)
    → Plain out
    → Plain (push_segment false out p) ⊎ (push_segment false out p ≡ dots ∷ [])
push-Plain p out pl = elim (Part-cases p) [
  | nothing e ↦ inl (subst Plain (sym (e false out)) pl)
  | named d e ↦ inl (subst Plain (sym (e false out)) (d, pl))
  | upward e ↦ elim (climb-Plain_or out pl) [
    | inl below ↦ inl (subst Plain (sym (e false out)) below)
    | inr start ↦ inr (e false out ∙ start)
  ]
]

-- A relative path that stays inside is resolved above any base alike.
pub resolve-Inside :
    (parts out base : List Bytes)
    → Plain out
    → Inside (resolve false out parts)
    → resolve true (out ++ base) parts ≡ resolve false out parts ++ base
unfolding resolve
resolve-Inside [] out base pl h = refl
resolve-Inside (p ∷ parts) [] base pl h = elim (Part-cases p) [
  | nothing e ↦
      ap (λ x. resolve true x parts) (e true base)
      ∙ resolve-Inside parts [] base pl (subst (λ x. Inside (resolve false x parts)) (e false []) h)
      ∙ ap (λ x. resolve false x parts ++ base) (sym (e false []))
  | named d e ↦
      ap (λ x. resolve true x parts) (e true base)
      ∙ resolve-Inside parts (p ∷ []) base (d, pl)
          (subst (λ x. Inside (resolve false x parts)) (e false []) h)
      ∙ ap (λ x. resolve false x parts ++ base) (sym (e false []))
  | upward e ↦ absurd (
      bottom_stays [] parts
        (subst (λ x. Inside (resolve false x parts)) (e false [] ∙ climb_nothing) h))
]
resolve-Inside (p ∷ parts) (q ∷ out) base pl h = elim (Part-cases p) [
  | nothing e ↦
      ap (λ x. resolve true x parts) (e true ((q ∷ out) ++ base))
      ∙ resolve-Inside parts (q ∷ out) base pl
          (subst (λ x. Inside (resolve false x parts)) (e false (q ∷ out)) h)
      ∙ ap (λ x. resolve false x parts ++ base) (sym (e false (q ∷ out)))
  | named d e ↦
      ap (λ x. resolve true x parts) (e true ((q ∷ out) ++ base))
      ∙ resolve-Inside parts (p ∷ q ∷ out) base (d, pl)
          (subst (λ x. Inside (resolve false x parts)) (e false (q ∷ out)) h)
      ∙ ap (λ x. resolve false x parts ++ base) (sym (e false (q ∷ out)))
  | upward e ↦
      let above = e true ((q ∷ out) ++ base) ∙ climb-Plain q out base pl.0 true in
      let alone = e false (q ∷ out) ∙ climb-top q out pl.0 in
      ap (λ x. resolve true x parts) above
      ∙ resolve-Inside parts out base pl.1 (subst (λ x. Inside (resolve false x parts)) alone h)
      ∙ ap (λ x. resolve false x parts ++ base) (sym alone)
]
