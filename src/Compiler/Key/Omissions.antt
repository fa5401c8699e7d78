-- ===== src/Compiler/Key/Omissions.antt =====
-- Command lines of different meaning that the parser and the flags chunk of the key do not tell
-- apart.
use hpcc.Prelude.{
  ℕ, ◌≡◌, refl, ap, sym, ◌∙◌, inl, inr, ◌⊎◌, false, Option, none, some, List, [], ◌∷◌, ◌++◌, Bytes,
  codes, arith, All, bytes_eq, has_prefix, cut_byte, ◌==◌,
}
use hpcc.Prelude.Assoc.{insert}
use hpcc.Compiler.Invocation.{Invocation, new_invocation}
use hpcc.Compiler.Response.{ok, err, Result, expand_response_files, is_response_ref}
use hpcc.Compiler.Response.Expansion.{IsPlain, expand-prefix}
use hpcc.Compiler.Gnu.{
  parse_gnu, parse_loop, gnu_round, finish, match_gnu_flag, apply_flag, cut_define,
}
use hpcc.Compiler.Gnu.RawArgs.{set_raw, parse_loop-raw}
use hpcc.Compiler.Key.{cache_key_flags}
use hpcc.Compiler.Key.Decode.{Free}

finish_flags :
    (obj_ext : Bytes) (r : List Bytes) (inv : Invocation)
    → cache_key_flags (finish obj_ext (set_raw r inv)) ≡ cache_key_flags (finish obj_ext inv)
finish_flags obj_ext r inv = ap cache_key_flags (moved obj_ext r inv) ∙ same (finish obj_ext inv)
  where
    moved :
        (e : Bytes) (r' : List Bytes) (i : Invocation)
        → finish e (set_raw r' i) ≡ set_raw r' (finish e i)
    moved e r' i = unfold finish in ground arith

    same : (i : Invocation) → cache_key_flags (set_raw r i) ≡ cache_key_flags i
    same i = unfold cache_key_flags in refl

abbrev looped : List Bytes → Bytes
looped out = cache_key_flags (finish (codes ".o") (parse_loop gnu_round 0 out new_invocation))

looped-raw :
    (out : List Bytes)
    → cache_key_flags
        (finish (codes ".o") (parse_loop gnu_round 0 out (set_raw out new_invocation)))
      ≡ looped out
looped-raw out =
    ap (λ (i : Invocation). cache_key_flags (finish (codes ".o") i))
      (parse_loop-raw out 0 out new_invocation)
    ∙ finish_flags (codes ".o") out (parse_loop gnu_round 0 out new_invocation)

-- What ParseGNU returns behind plain arguments, up to RawArgs.
parsed :
    (read_file : Bytes → Option Bytes) (pre args : List Bytes) (a : Invocation)
    (files : Result (List Bytes))
    → All IsPlain pre
    → expand_response_files read_file args ≡ files
    → parse_gnu read_file (pre ++ args) ≡ ok a
    → (out : List Bytes) × (files ≡ ok out) × (cache_key_flags a ≡ looped (pre ++ out))
unfolding parse_gnu
parsed read_file pre args a (err x) h e p =
    let q = rw (expand-prefix read_file pre args h, e) at p in cc
parsed read_file pre args a (ok out) h e p =
    let q = rw (expand-prefix read_file pre args h, e) at p in
    (
      out,
      refl,
      ap cache_key_flags (
            sym (
              let r : finish (codes ".o")
                    (parse_loop gnu_round 0 (pre ++ out) (set_raw (pre ++ out) new_invocation))
                  ≡ a =
                cc in
              r))
          ∙ looped-raw (pre ++ out),
    )

-- Two heads of a command line that leave the loop in one state have one key.
same_key :
    (read_file : Bytes → Option Bytes) (p q args : List Bytes) (a b : Invocation)
    → All IsPlain p
    → All IsPlain q
    → ((out : List Bytes)
        → parse_loop gnu_round 0 (p ++ out) new_invocation
          ≡ parse_loop gnu_round 0 (q ++ out) new_invocation)
    → parse_gnu read_file (p ++ args) ≡ ok a
    → parse_gnu read_file (q ++ args) ≡ ok b
    → cache_key_flags a ≡ cache_key_flags b
same_key read_file p q args a b hp hq same ea eb =
    let (out, f, x) = parsed read_file p args a _ hp refl ea in
    let (out', g, y) = parsed read_file q args b _ hq refl eb in
    let one : out ≡ out' = ground arith in
    x
    ∙ ap (λ (i : Invocation). cache_key_flags (finish (codes ".o") i)) (same out)
    ∙ ap (λ (l : List Bytes). looped (q ++ l)) one
    ∙ sym y

bare_step :
    (flag : Bytes) (out : List Bytes)
    → (flag ≡ codes "-g") ⊎ (flag ≡ codes "-O")
    → IsPlain flag
      × (parse_loop gnu_round 0 out new_invocation
          ≡ parse_loop gnu_round 0 (flag ∷ out) new_invocation)
unfolding parse_loop gnu_round match_gnu_flag apply_flag bytes_eq has_prefix is_response_ref
bare_step flag out (inl e) = rw e (refl, refl)
bare_step flag out (inr e) = rw e (refl, refl)

-- A command line that parses has the same flags chunk with a bare -g or a bare -O put in front, so
-- the key tells a compile with debug information, or with optimisation, from neither.
pub bare_flag_key :
    (read_file : Bytes → Option Bytes) (flag : Bytes) (args : List Bytes) (a b : Invocation)
    → (flag ≡ codes "-g") ⊎ (flag ≡ codes "-O")
    → parse_gnu read_file args ≡ ok a
    → parse_gnu read_file (flag ∷ args) ≡ ok b
    → cache_key_flags a ≡ cache_key_flags b
bare_flag_key read_file flag args a b h =
    same_key read_file [] (flag ∷ []) args a b tt ((bare_step flag [] h).0, tt)
      (λ out. (bare_step flag out h).1)

cut_byte-none : (b : ℕ) (s : Bytes) → Free b s → cut_byte b s ≡ none
unfolding cut_byte
cut_byte-none b [] h = refl
cut_byte-none b (c ∷ s) h = ground (arith, cut_byte-none b s h.1, h.0)

cut_byte-append : (b : ℕ) (s r : Bytes) → Free b s → cut_byte b (s ++ (b ∷ r)) ≡ some (s, r)
unfolding cut_byte
cut_byte-append b [] r h = ground arith
cut_byte-append b (c ∷ s) r h =
    let other : (c == b) ≡ false = ground (arith, h.0) in rw (other, cut_byte-append b s r h.1)

-- A macro without a value and one with an empty value are cut alike.
cut_define_same : (name : Bytes) → Free b'=' name → cut_define name ≡ cut_define (name ++ codes "=")
unfolding cut_define
cut_define_same name h =
    rw (cut_byte-append b'=' name [] h, cut_define) (rw (cut_byte-none b'=' name h, cut_define))

-- For every macro name without "=", the command lines that begin with -DNAME and with -DNAME= and
-- go on alike have the same flags chunk, when both parse.
pub empty_define_key :
    (read_file : Bytes → Option Bytes) (c : ℕ) (name : Bytes) (args : List Bytes) (a b : Invocation)
    → Free b'=' (c ∷ name)
    → parse_gnu read_file ((codes "-D" ++ (c ∷ name)) ∷ args) ≡ ok a
    → parse_gnu read_file ((codes "-D" ++ ((c ∷ name) ++ codes "=")) ∷ args) ≡ ok b
    → cache_key_flags a ≡ cache_key_flags b
unfolding is_response_ref parse_loop gnu_round match_gnu_flag apply_flag bytes_eq has_prefix
empty_define_key read_file c name args a b h =
    same_key read_file ((codes "-D" ++ (c ∷ name)) ∷ [])
      ((codes "-D" ++ ((c ∷ name) ++ codes "=")) ∷ []) args a b (refl, tt) (refl, tt)
      (λ out.
        ap
          (λ (d : Bytes × Bytes).
            parse_loop gnu_round 0 out (record new_invocation { defines = insert d.0 d.1 [] }))
          (cut_define_same (c ∷ name) h))

-- The command lines that begin with -DNAME -UOTHER and with -UOTHER -DNAME and go on alike have
-- the same flags chunk, when both parse, also where the two macros are one.
pub define_undefine_key :
    (read_file : Bytes → Option Bytes) (c d : ℕ) (name macro : Bytes) (args : List Bytes)
    (a b : Invocation)
    → parse_gnu read_file ((codes "-D" ++ (c ∷ name)) ∷ (codes "-U" ++ (d ∷ macro)) ∷ args) ≡ ok a
    → parse_gnu read_file ((codes "-U" ++ (d ∷ macro)) ∷ (codes "-D" ++ (c ∷ name)) ∷ args) ≡ ok b
    → cache_key_flags a ≡ cache_key_flags b
unfolding is_response_ref parse_loop gnu_round match_gnu_flag apply_flag bytes_eq has_prefix
define_undefine_key read_file c d name macro args a b =
    same_key read_file ((codes "-D" ++ (c ∷ name)) ∷ (codes "-U" ++ (d ∷ macro)) ∷ [])
      ((codes "-U" ++ (d ∷ macro)) ∷ (codes "-D" ++ (c ∷ name)) ∷ []) args a b (refl, (refl, tt))
      (refl, (refl, tt)) (λ out. refl)
