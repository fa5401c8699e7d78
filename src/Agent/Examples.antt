-- ===== src/Agent/Examples.antt =====
-- Runs of the agent's helpers, and their theorems at concrete inputs.
use hpcc.Prelude.{
  ◌≡◌, ◌≢◌, refl, false, List, [], ◌∷◌, Bytes, codes, bytes_eq, bytes_eq_iff, contains, cut_byte,
}
use hpcc.Agent.{env_key, request_keys, inherit, resolve_env, path_entry, zero_trace, all_lower_hex}
use hpcc.Agent.Trace.{IsTraceId}

abbrev environ : List Bytes
environ = codes "HOME=/" ∷ codes "LANG=C" ∷ []

abbrev request : List Bytes
request = codes "LANG=de" ∷ []

resolved : resolve_env environ request ≡ codes "LANG=de" ∷ codes "HOME=/" ∷ path_entry ∷ []
unfolding resolve_env inherit request_keys env_key cut_byte bytes_eq contains
resolved = refl

abbrev trace : Bytes
trace = codes "0af7651916cd43dd8448eb211c80319c"

trace-zero_trace : bytes_eq trace zero_trace ≡ false
unfolding bytes_eq
trace-zero_trace = refl

trace-nonzero : trace ≢ zero_trace
trace-nonzero e = let q = (bytes_eq_iff trace zero_trace).1 e in let r = trace-zero_trace in cc

trace-IsTraceId : IsTraceId trace
unfolding all_lower_hex
trace-IsTraceId = (refl, refl, trace-nonzero)
