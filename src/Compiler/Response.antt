-- ===== src/Compiler/Response.antt =====
-- expandResponseFiles of internal/compiler/parser.go. Reading a file is a parameter.
pub mod Expansion
use hpcc.Prelude.{
  ℕ, zero, suc, ◌≡◌, refl, Bool, true, false, not, ◌||◌, Option, none, some, List, [], ◌∷◌, ◌++◌,
  Bytes, length, ◌==◌, leb, ◌&&◌, if◌then◌else◌, ◌⊎◌, inl, inr, All, All-append, Bool-cases, arith,
}

pub data ParseError : Type 0 where
  too_deep : ParseError
  read_response_file : Bytes → ParseError

pub data Result {ℓ} (A : Type ℓ) : Type ℓ where
  ok : A → Result A
  err : ParseError → Result A

infixl 5 ◌>>=◌
abbrev pub ◌>>=◌ {ℓ κ} : {A : Type ℓ} {B : Type κ} → Result A → (A → Result B) → Result B
ok a >>= f = f a
err e >>= f = err e

-- `strings.HasPrefix(a, "@") && len(a) != 1`.
unfoldable pub is_response_ref : Bytes → Bool
is_response_ref [] = false
is_response_ref (c ∷ []) = false
is_response_ref (c ∷ d ∷ s) = c == b'@'

-- `a[1:]` of such an argument.
response_path : Bytes → Bytes
response_path [] = []
response_path (c ∷ s) = s

is_space : ℕ → Bool
is_space c = c == b' ' || (leb 9 c && leb c 13)

-- A field ends: an empty one is none.
emit : Bytes → List Bytes → List Bytes
emit [] out = out
emit word out = word ∷ out

-- strings.Fields over ASCII white space; `word` is the field being read.
fields_from : Bytes → Bytes → List Bytes
unfolding emit
fields_from word [] = emit word []
fields_from word (c ∷ s) =
    let stop = emit word (fields_from [] s) in
    let go = fields_from (word ++ c ∷ []) s in if is_space c then stop else go

unfoldable pub fields : Bytes → List Bytes
unfolding fields_from is_space
fields s = fields_from [] s

module _ (read_file : Bytes → Option Bytes) where
  -- The loop over `args`; `deeper` is the recursive call at `depth+1`.
  expand_args : (List Bytes → Result (List Bytes)) → List Bytes → Result (List Bytes)
  unfolding response_path
  expand_args deeper [] = ok []
  expand_args deeper (a ∷ args) =
      if not (is_response_ref a)
      then (expand_args deeper args >>= λ out. ok (a ∷ out))
      else elim (read_file (response_path a)) [
        | none ↦ err (read_response_file (response_path a))
        | some content ↦ deeper (fields content) >>= λ inner.
            expand_args deeper args >>= λ out. ok (inner ++ out)
      ]

  -- `left` is 17 - depth: the call at depth 17 is refused.
  pub expand_from : ℕ → List Bytes → Result (List Bytes)
  unfolding expand_args
  expand_from zero args = err too_deep
  expand_from (suc left) args = expand_args (expand_from left) args

  unfoldable pub expand_response_files : List Bytes → Result (List Bytes)
  unfolding expand_from
  expand_response_files args = expand_from 17 args
