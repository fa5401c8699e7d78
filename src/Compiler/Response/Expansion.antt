-- ===== src/Compiler/Response/Expansion.antt =====
-- What expandResponseFiles returns.
use hpcc.Prelude.{
  ℕ, zero, suc, ◌≡◌, refl, inl, inr, false, Option, List, [], ◌∷◌, ◌++◌, Bytes, All, All-append,
  Bool-cases, Option-cases,
}
use hpcc.Compiler.Response.{
  Result, ok, err, ◌>>=◌, is_response_ref, response_path, fields, expand_args, expand_from,
  expand_response_files,
}

abbrev pub IsPlain : Bytes → Type 0
IsPlain a = is_response_ref a ≡ false

module _ (read_file : Bytes → Option Bytes) where
  -- Without response files the arguments stay as they are.
  expand_args_plain :
      (deeper : List Bytes → Result (List Bytes)) (args : List Bytes)
      → All IsPlain args
      → expand_args read_file deeper args ≡ ok args
  unfolding expand_args
  expand_args_plain deeper [] h = refl
  expand_args_plain deeper (a ∷ args) h = rw (h.0, expand_args_plain deeper args h.1)

  pub expand_plain :
      (args : List Bytes) → All IsPlain args → expand_response_files read_file args ≡ ok args
  unfolding expand_response_files
  expand_plain args h = expand_args_plain (expand_from read_file 16) args h

  abbrev pub Plain : Result (List Bytes) → Type 0
  Plain (ok out) = All IsPlain out
  Plain (err e) = Unit {0}

  bind-Plain :
      (r : Result (List Bytes)) (f : List Bytes → Result (List Bytes))
      → Plain r
      → ((out : List Bytes) → All IsPlain out → Plain (f out))
      → Plain (r >>= f)
  bind-Plain (ok out) f h k = k out h
  bind-Plain (err e) f h k = tt

  expand_args-Plain :
      (deeper : List Bytes → Result (List Bytes)) (args : List Bytes)
      → ((l : List Bytes) → Plain (deeper l))
      → Plain (expand_args read_file deeper args)
  unfolding expand_args
  expand_args-Plain deeper [] h = tt
  expand_args-Plain deeper (a ∷ args) h =
      let ih = expand_args-Plain deeper args h in
      elim (Bool-cases (is_response_ref a)) [
        | inr plain ↦ rw plain (
            bind-Plain (expand_args read_file deeper args) (λ out. ok (a ∷ out)) ih
              (λ out k. (plain, k)))
        | inl ref ↦ elim (Option-cases (read_file (response_path a))) [
          | inl missing ↦ rw (ref, missing) tt
          | inr (content, found) ↦
              rw (ref, found)
                (bind-Plain (deeper (fields content)) _ (h (fields content)) (λ inner k.
                  bind-Plain (expand_args read_file deeper args) _ ih
                    (λ out k'. All-append IsPlain inner out k k')))
        ]
      ]

  expand_from-Plain : (left : ℕ) (args : List Bytes) → Plain (expand_from read_file left args)
  unfolding expand_from
  expand_from-Plain zero args = tt
  expand_from-Plain (suc left) args =
      expand_args-Plain (expand_from read_file left) args (expand_from-Plain left)

  -- Whatever the files hold, when expand_response_files succeeds, no argument in its result is a
  -- response file reference.
  pub expand_response_files-Plain :
      (args : List Bytes) → Plain (expand_response_files read_file args)
  unfolding expand_response_files
  expand_response_files-Plain args = expand_from-Plain 17 args

  expand_args-prefix :
      (deeper : List Bytes → Result (List Bytes)) (pre args : List Bytes)
      → All IsPlain pre
      → expand_args read_file deeper (pre ++ args)
        ≡ (expand_args read_file deeper args >>= λ out. ok (pre ++ out))
  unfolding expand_args
  expand_args-prefix deeper [] args h = bind-ok (expand_args read_file deeper args)
    where
      bind-ok : (r : Result (List Bytes)) → r ≡ (r >>= λ out. ok out)
      bind-ok (ok out) = refl
      bind-ok (err e) = refl
  expand_args-prefix deeper (a ∷ pre) args h =
      rw (h.0, expand_args-prefix deeper pre args h.1) (nested (expand_args read_file deeper args))
    where
      nested :
          (r : Result (List Bytes))
          → ((r >>= λ out. ok (pre ++ out)) >>= λ out. ok (a ∷ out))
            ≡ (r >>= λ out. ok (a ∷ (pre ++ out)))
      nested (ok out) = refl
      nested (err e) = refl

  -- Plain arguments in front are passed on in front.
  pub expand-prefix :
      (pre args : List Bytes)
      → All IsPlain pre
      → expand_response_files read_file (pre ++ args)
        ≡ (expand_response_files read_file args >>= λ out. ok (pre ++ out))
  unfolding expand_response_files
  expand-prefix pre args h = expand_args-prefix (expand_from read_file 16) pre args h
