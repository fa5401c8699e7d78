-- ===== src/Scheduler/Auth.antt =====
-- GetTenantIdP and Authenticate of internal/scheduler/scheduler.go.
use hpcc.Prelude.{
  Bool, true, false, not, Option, none, some, List, [], ◌∷◌, Bytes, codes, bytes_eq, contains,
  if◌then◌else◌,
}
use hpcc.Prelude.Assoc.{lookup, insert}
use hpcc.Scheduler.State.{
  Claim, TenantAuth, Scheduler, IdpInfo, Result, text, texts, mixed, other, unbound, unknown_tenant,
  ok, err,
}

unfoldable get_tenant_idp : Scheduler → Bytes → Result IdpInfo
get_tenant_idp s tenant = elim (lookup tenant s.tenant_auth) [
  | none ↦ err unknown_tenant
  | some ta ↦ ok (record {
    issuer = ta.issuer;
    token_url = ta.token_url;
    audience = ta.audience;
    client_id = ta.client_id;
    scope = ta.scope;
  })
]

contains_text : Bytes → List (Option Bytes) → Bool
contains_text want [] = false
contains_text want (none ∷ rest) = contains_text want rest
contains_text want (some a ∷ rest) = if bytes_eq a want then true else contains_text want rest

unfoldable pub audience_matches : Option Claim → Bytes → Bool
unfolding contains contains_text
audience_matches none want = false
audience_matches (some (text v)) want = bytes_eq v want
audience_matches (some (mixed v)) want = contains_text want v
audience_matches (some (texts v)) want = contains want v
audience_matches (some other) want = false

-- `iss, _ := claims["iss"].(string)`.
issuer_claim : Option Claim → Bytes
issuer_claim (some (text v)) = v
issuer_claim _ = []

check_claims : TenantAuth → List (Bytes × Claim) → Bool
unfolding issuer_claim
check_claims ta claims =
    if not (bytes_eq (issuer_claim (lookup (codes "iss") claims)) ta.issuer)
    then false
    else if not (audience_matches (lookup (codes "aud") claims) ta.audience)
    then false
    else true

unfoldable pub verify_tenant_jwt : List (Bytes × TenantAuth) → Bytes → Bytes → Bool
unfolding check_claims
verify_tenant_jwt tenants tenant raw =
    if bytes_eq tenant [] then false else elim (lookup tenant tenants) [
      | none ↦ false
      | some ta ↦ elim (ta.parse raw) [ none ↦ false | some claims ↦ check_claims ta claims ]
    ]

pub data AuthToken : Type 0 where
  jwt_token : Bytes → AuthToken
  static_token : Bytes → AuthToken
  no_token : AuthToken

pub record AuthResponse : Type 0 where
  pub success : Bool
  pub session_token : Bytes
  pub signing_public_key : Bytes

abbrev pub rejected : AuthResponse
rejected = record { success = false; session_token = []; signing_public_key = [] }

-- `fresh` is what rand.Text returns.
unfoldable pub authenticate : Bytes → Scheduler → Bytes → AuthToken → Scheduler × AuthResponse
authenticate fresh s tenant (jwt_token raw) =
    if not (verify_tenant_jwt s.tenant_auth tenant raw) then (s, rejected) else (
      record s { user_sessions = insert fresh tenant s.user_sessions },
      record { success = true; session_token = fresh; signing_public_key = [] },
    )
authenticate fresh s tenant (static_token given) =
    if not (bytes_eq given s.worker_token) then (s, rejected) else (
      record s { worker_sessions = insert fresh unbound s.worker_sessions },
      record { success = true; session_token = fresh; signing_public_key = s.signing_pub_key },
    )
authenticate fresh s tenant no_token = (s, rejected)
