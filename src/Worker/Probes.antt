-- ===== src/Worker/Probes.antt =====
-- Which digests a worker reports as missing.
use hpcc.Prelude.{
  ◌≡◌, ◌≢◌, ◌⊎◌, ◌↔◌, refl, ap, inl, inr, true, none, some, List, [], ◌∷◌, Bytes, bytes_eq,
  bytes_eq_iff, Bool-cases, arith,
}
use hpcc.Worker.{
  Worker, BlobDigest, Stream, eof, broken, recv, pin, answer, find_from, find_missing_blobs,
  validate_scheduler_token_for_cas,
}
use hpcc.Worker.Sources.{SourceStore, Presence, present, absent, unreadable, panics}

-- A request that is answered: it holds a digest and a tenant with a token for it, and the tenant is
-- that of the stream so far.
abbrev pub IsTrusted : Worker → Bytes → BlobDigest → Type 0
IsTrusted w old r =
    (r.digest ≢ [])
    × (r.tenant_id ≢ [])
    × (validate_scheduler_token_for_cas w r.scheduler_token r.tenant_id ≡ true)
    × ((old ≡ []) ⊎ (r.tenant_id ≡ old))

trusted-find :
    (w : Worker) (old : Bytes) (r : BlobDigest)
    → IsTrusted w old r
    → pin old r.tenant_id ≡ some r.tenant_id
unfolding pin
trusted-find w old r (d, t, v, inl e) = ground (arith, bytes_eq_iff old [])
trusted-find w old r (d, t, v, inr e) =
    ground (arith, bytes_eq_iff old [], bytes_eq_iff r.tenant_id old)

pin-cases :
    (old tenant : Bytes)
    → (pin old tenant ≡ none) ⊎ ((pin old tenant ≡ some tenant) × ((old ≡ []) ⊎ (tenant ≡ old)))
unfolding pin
pin-cases old tenant = elim (Bool-cases (bytes_eq old [])) [
  | inl start ↦ inr (rw start refl, inl ((bytes_eq_iff old []).0 start))
  | inr later ↦ elim (Bool-cases (bytes_eq tenant old)) [
    | inr other ↦ inl (rw (later, other) refl)
    | inl same ↦
        let e = (bytes_eq_iff tenant old).0 same in inr (ground (arith, later, same, e), inr e)
  ]
]

module _ (S : SourceStore) (w : Worker) where
  open S use {Contents, has}

  -- Has answers a request, with yes or no.
  abbrev pub Answered : Contents → BlobDigest → Type 0
  Answered c r = (has c r.tenant_id r.digest ≡ present) ⊎ (has c r.tenant_id r.digest ≡ absent)

  Presence-cases :
      (p : Presence) → (p ≡ present) ⊎ ((p ≡ absent) ⊎ ((p ≡ unreadable) ⊎ (p ≡ panics)))
  Presence-cases present = inl refl
  Presence-cases absent = inr (inl refl)
  Presence-cases unreadable = inr (inr (inl refl))
  Presence-cases panics = inr (inr (inr refl))

  -- Every request is answered, and the stream is closed.
  abbrev pub IsProper : Contents → Bytes → Stream BlobDigest → Type 0
  IsProper c old eof = Unit
  IsProper c old broken = Unit {0} × ⊥
  IsProper c old (recv r s) = IsTrusted w old r × Answered c r × IsProper c r.tenant_id s

  -- The requests for which Has answers that the store has no entry.
  abbrev pub missing_of : Contents → Stream BlobDigest → List BlobDigest
  missing_of c eof = []
  missing_of c broken = []
  missing_of c (recv r s) = elim (has c r.tenant_id r.digest) [
    | present ↦ missing_of c s
    | absent ↦ r ∷ missing_of c s
    | unreadable ↦ missing_of c s
    | panics ↦ missing_of c s
  ]

  find_from-IsProper :
      (c : Contents) (old : Bytes) (s : Stream BlobDigest)
      → IsProper c old s
      → find_from S w c old s ≡ (missing_of c s, none)
  unfolding find_from answer
  find_from-IsProper c old eof p = refl
  find_from-IsProper c old broken p = absurd p.1
  find_from-IsProper c old (recv r s) ((d, t, v, o), a, p) =
      let pinned = trusted-find w old r (d, t, v, o) in
      let rest = find_from-IsProper c r.tenant_id s p in
      elim a [
        | inl there ↦
            ground
              (arith, bytes_eq_iff r.digest [], bytes_eq_iff r.tenant_id [], v, pinned, rest, there)
        | inr away ↦
            ground
              (arith, bytes_eq_iff r.digest [], bytes_eq_iff r.tenant_id [], v, pinned, rest, away)
      ]

  find-IsProper :
      (c : Contents) (old : Bytes) (s : Stream BlobDigest)
      → (find_from S w c old s).1 ≡ none
      → IsProper c old s
  unfolding find_from answer
  find-IsProper c old eof e = tt
  find-IsProper c old broken e = absurd (let q : ⊥ = cc in q)
  find-IsProper c old (recv r s) e = elim (Bool-cases (bytes_eq r.digest [])) [
    | inl empty ↦ absurd (let q : ⊥ = ground arith in q)
    | inr digest ↦ elim (Bool-cases (bytes_eq r.tenant_id [])) [
      | inl empty ↦ absurd (let q : ⊥ = ground arith in q)
      | inr tenant ↦
          elim (Bool-cases (validate_scheduler_token_for_cas w r.scheduler_token r.tenant_id)) [
            | inr bad ↦ absurd (let q : ⊥ = ground arith in q)
            | inl valid ↦ elim (pin-cases old r.tenant_id) [
              | inl other ↦ absurd (let q : ⊥ = ground arith in q)
              | inr (pinned, own) ↦
                  let trusted : IsTrusted w old r = (
                    (λ x. ground (arith, bytes_eq_iff r.digest [])),
                    (λ x. ground (arith, bytes_eq_iff r.tenant_id [])),
                    valid,
                    own,
                  ) in
                  elim (Presence-cases (has c r.tenant_id r.digest)) [
                    | inl there ↦ (trusted, inl there, find-IsProper c r.tenant_id s (ground arith))
                    | inr (inl away) ↦
                        (trusted, inr away, find-IsProper c r.tenant_id s (ground arith))
                    | inr (inr (inl bad)) ↦ absurd (let q : ⊥ = ground arith in q)
                    | inr (inr (inr bad)) ↦ absurd (let q : ⊥ = ground arith in q)
                  ]
            ]
          ]
    ]
  ]

  -- FindMissingBlobs ends without an error exactly when the stream is closed and every request in
  -- it has a digest, a tenant, a valid token for the tenant, the tenant of the request before it,
  -- and an answer of Has, which is neither an error nor the panic of Namespace; it then answers
  -- with exactly the requests for which Has finds no entry, in their order.
  pub find_missing_blobs-Proper :
      (c : Contents) (s : Stream BlobDigest)
      → (((find_missing_blobs S w c s).1 ≡ none) ↔ IsProper c [] s)
        × ((find_missing_blobs S w c s).1 ≡ none → (find_missing_blobs S w c s).0 ≡ missing_of c s)
  unfolding find_missing_blobs
  find_missing_blobs-Proper c s = (
    (find-IsProper c [] s, λ p. ap (λ a. a.1) (find_from-IsProper c [] s p)),
    λ e. ap (λ a. a.0) (find_from-IsProper c [] s (find-IsProper c [] s e)),
  )
