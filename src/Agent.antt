-- ===== src/Agent.antt =====
-- The guest agent: the environment of a command (agent/env.go) and the trace of a request
-- (agent/traceparent.go).
pub mod Environment
pub mod Trace
mod Examples
use hpcc.Prelude.{
  ℕ, suc, Bool, true, false, not, ◌||◌, ◌&&◌, Option, none, some, List, [], ◌∷◌, ◌++◌, Bytes, codes,
  bytes_eq, contains, cut_byte, leb, ltb, ◌==◌, if◌then◌else◌, length,
}

abbrev pub default_path : Bytes
default_path = codes "/usr/local/sbin:/usr/local/bin:/usr/sbin:/usr/bin:/sbin:/bin"

-- The name in front of the first "=", and nothing where there is none.
unfoldable pub env_key : Bytes → Bytes
env_key kv = elim (cut_byte b'=' kv) [ none ↦ [] | some (key, _) ↦ key ]

-- The set of names that a request gives.
unfoldable pub request_keys : List Bytes → List Bytes
request_keys [] = []
request_keys (kv ∷ env) =
    if bytes_eq (env_key kv) [] then request_keys env else env_key kv ∷ request_keys env

-- The loop over the agent's own environment: what it adds, and the names that are taken after it.
unfoldable pub inherit : List Bytes → List Bytes → List Bytes × List Bytes
inherit keys [] = ([], keys)
inherit keys (kv ∷ env) =
    let skipped = inherit keys env in
    let added = inherit (env_key kv ∷ keys) env in
    if bytes_eq (env_key kv) []
    then skipped
    else if contains (env_key kv) keys
    then skipped
    else (kv ∷ added.0, added.1)

abbrev pub path_entry : Bytes
path_entry = codes "PATH=" ++ default_path

unfoldable pub resolve_env : List Bytes → List Bytes → List Bytes
resolve_env environ req =
    let inherited = inherit (request_keys req) environ in
    if contains (codes "PATH") inherited.1
    then req ++ inherited.0
    else req ++ (inherited.0 ++ (path_entry ∷ []))

-- strings.Split at a byte.
unfoldable pub split : ℕ → Bytes → List Bytes
split b [] = [] ∷ []
split b (c ∷ s) =
    let rest = split b s in
    if c == b then [] ∷ rest else elim rest [ [] ↦ (c ∷ []) ∷ [] | p ∷ ps ↦ (c ∷ p) ∷ ps ]

abbrev pub is_lower_hex : ℕ → Bool
is_lower_hex c = (leb b'0' c && leb c b'9') || (leb b'a' c && leb c b'f')

unfoldable pub all_lower_hex : Bytes → Bool
all_lower_hex [] = true
all_lower_hex (c ∷ s) = if not (is_lower_hex c) then false else all_lower_hex s

abbrev pub zero_trace : Bytes
zero_trace = codes "00000000000000000000000000000000"

-- The checks of the second part.
unfoldable pub checked_trace : Bytes → Bytes
checked_trace id =
    if not (length id == 32)
    then []
    else if not (all_lower_hex id)
    then []
    else if bytes_eq id zero_trace
    then []
    else id

unfoldable pub trace_id_from_traceparent : Bytes → Bytes
trace_id_from_traceparent [] = []
trace_id_from_traceparent (c ∷ s) = elim (split b'-' (c ∷ s)) [
  | [] ↦ []
  | version ∷ [] ↦ []
  | version ∷ id ∷ [] ↦ []
  | version ∷ id ∷ span ∷ [] ↦ []
  | version ∷ id ∷ span ∷ flags ∷ more ↦ checked_trace id
]
