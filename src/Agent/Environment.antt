-- ===== src/Agent/Environment.antt =====
-- Whose value of a variable a command sees.
use hpcc.Prelude.{
  ◌≡◌, ◌≢◌, refl, sym, ap, inl, inr, Bool, true, false, ◌||◌, Option, none, some, List, [], ◌∷◌,
  ◌++◌, Bytes, codes, bytes_eq, bytes_eq_iff, contains, cut_byte, arith, Bool-cases, if◌then◌else◌,
}
use hpcc.Agent.{env_key, request_keys, inherit, resolve_env, path_entry}

-- The first entry of a variable.
unfoldable pub first : Bytes → List Bytes → Option Bytes
first key [] = none
first key (kv ∷ env) = if bytes_eq (env_key kv) key then some kv else first key env

abbrev pub or_else : Option Bytes → Option Bytes → Option Bytes
or_else (some kv) other = some kv
or_else none other = other

abbrev is_some : Option Bytes → Bool
is_some none = false
is_some (some kv) = true

first-append :
    (key : Bytes) (xs ys : List Bytes)
    → first key (xs ++ ys) ≡ or_else (first key xs) (first key ys)
unfolding first
first-append key [] ys = refl
first-append key (kv ∷ xs) ys = ground (arith, first-append key xs ys)

contains-request_keys :
    (key : Bytes) (env : List Bytes)
    → key ≢ []
    → contains key (request_keys env) ≡ is_some (first key env)
unfolding contains request_keys first
contains-request_keys key [] h = refl
contains-request_keys key (kv ∷ env) h = ground (
  arith,
  contains-request_keys key env h,
  bytes_eq_iff (env_key kv) [],
  bytes_eq_iff (env_key kv) key,
  h,
)

first-inherit :
    (key : Bytes) (keys env : List Bytes)
    → key ≢ []
    → (first key (inherit keys env).0 ≡ (if contains key keys then none else first key env))
      × (contains key (inherit keys env).1 ≡ (contains key keys || is_some (first key env)))
unfolding inherit first contains
first-inherit key keys [] h = (ground arith, ground arith)
first-inherit key keys (kv ∷ env) h =
    let (a, b) = first-inherit key keys env h in
    let (c, d) = first-inherit key (env_key kv ∷ keys) env h in
    (
      ground (arith, a, c, bytes_eq_iff (env_key kv) [], bytes_eq_iff (env_key kv) key, h),
      ground (arith, b, d, bytes_eq_iff (env_key kv) [], bytes_eq_iff (env_key kv) key, h),
    )

path_key : env_key path_entry ≡ codes "PATH"
unfolding env_key cut_byte
path_key = refl

first-path_entry :
    (key : Bytes)
    → first key (path_entry ∷ []) ≡ (if bytes_eq (codes "PATH") key then some path_entry else none)
unfolding first
first-path_entry key = rw path_key refl

-- The environment after the request and the agent's own one, before the default.
both : Bytes → List Bytes → List Bytes → Option Bytes
both key environ req = or_else (first key req) (first key environ)

inherited_first :
    (key : Bytes) (environ req : List Bytes)
    → key ≢ []
    → (first key (req ++ (inherit (request_keys req) environ).0) ≡ both key environ req)
      × (contains key (inherit (request_keys req) environ).1 ≡ is_some (both key environ req))
unfolding both
inherited_first key environ req h =
    let (a, b) = first-inherit key (request_keys req) environ h in
    let c = contains-request_keys key req h in
    let d = first-append key req (inherit (request_keys req) environ).0 in
    (ground (arith, a, c, d), ground (arith, b, c))

-- For every variable name that is not empty, the first entry of the resolved environment is the
-- first one of the request, else the first one of the environment of the agent, and else, for PATH
-- alone, the default.
pub resolve_env-first :
    (environ req : List Bytes) (key : Bytes)
    → key ≢ []
    → first key (resolve_env environ req)
      ≡ or_else (first key req) (
          or_else
            (first key environ)
            (if bytes_eq (codes "PATH") key then some path_entry else none))
unfolding resolve_env both
resolve_env-first environ req key h =
    let (here, taken) = inherited_first key environ req h in
    let (path, path_taken) = inherited_first (codes "PATH") environ req (λ e. cc) in
    let own = (inherit (request_keys req) environ).0 in
    elim (Bool-cases (bytes_eq (codes "PATH") key)) [
      | inl is_path ↦
          let same : key ≡ codes "PATH" = sym ((bytes_eq_iff (codes "PATH") key).0 is_path) in
          ground (
            arith,
            here,
            taken,
            first-append key req (own ++ (path_entry ∷ [])),
            first-append key own (path_entry ∷ []),
            first-append key req own,
            first-path_entry key,
            is_path,
            ap (λ k. contains k (inherit (request_keys req) environ).1) same,
          )
      | inr other ↦ ground (
        arith,
        here,
        first-append key req (own ++ (path_entry ∷ [])),
        first-append key own (path_entry ∷ []),
        first-append key req own,
        first-path_entry key,
        other,
      )
    ]
