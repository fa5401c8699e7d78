-- ===== src/Worker/Token.antt =====
-- parseSchedulerToken, validateSchedulerToken and validateSchedulerTokenForCAS of
-- internal/worker/worker.go, and the errors of the handlers.
use hpcc.Prelude.{
  ◌≡◌, ◌⊎◌, inl, inr, refl, Bool, true, false, not, Option, none, some, List, Bytes, codes,
  bytes_eq, if◌then◌else◌,
}
use hpcc.Prelude.Assoc.{lookup}
use hpcc.Scheduler.{Claim, text}

pub data Error : Type 0 where
  invalid_argument unauthenticated failed_precondition internal broken_stream panicked : Error

pub data Result {ℓ} (A : Type ℓ) : Type ℓ where
  ok : A → Result A
  err : Error → Result A

pub Result-cases {ℓ} :
    {A : Type ℓ} (r : Result A) → ((e : Error) × (r ≡ err e)) ⊎ ((a : A) × (r ≡ ok a))
Result-cases (ok a) = inr (a, refl)
Result-cases (err e) = inl (e, refl)

-- What the handlers read of a worker: `parse_jwt` is jwt.Parse with a public key and the method
-- EdDSA, none where it fails or the token is not valid.
pub record Worker : Type 0 where
  pub worker_id : Bytes
  pub scheduler_pub_key : Bytes
  pub parse_jwt : Bytes → Bytes → Option (List (Bytes × Claim))
  pub blake3 : Bytes → Bytes

-- `claims[name] == want`, where a claim that is missing or no string differs.
unfoldable pub claim_is : Bytes → Bytes → List (Bytes × Claim) → Bool
claim_is name want claims = elim (lookup name claims) [
  | none ↦ false
  | some c ↦ elim c [ text s ↦ bytes_eq s want | _ ↦ false ]
]

unfoldable pub parse_scheduler_token : Worker → Bytes → Bytes → Option (List (Bytes × Claim))
parse_scheduler_token w raw_token tenant = elim (w.parse_jwt w.scheduler_pub_key raw_token) [
  | none ↦ none
  | some claims ↦
      if not (claim_is (codes "tenant_id") tenant claims)
      then none
      else if not (claim_is (codes "worker_id") w.worker_id claims)
      then none
      else some claims
]

unfoldable pub validate_scheduler_token : Worker → Bytes → Bytes → Bytes → Bool
validate_scheduler_token w raw_token tenant image =
    elim (parse_scheduler_token w raw_token tenant) [
      | none ↦ false
      | some claims ↦ claim_is (codes "image_digest") image claims
    ]

unfoldable pub validate_scheduler_token_for_cas : Worker → Bytes → Bytes → Bool
validate_scheduler_token_for_cas w raw_token tenant =
    elim (parse_scheduler_token w raw_token tenant) [ none ↦ false | some _ ↦ true ]
