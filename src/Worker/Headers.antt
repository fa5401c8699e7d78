-- ===== src/Worker/Headers.antt =====
-- What the headers of an upload say of the blob that is open.
use hpcc.Prelude.{
  ◌+◌, ◌≤◌, ◌≡◌, ◌≢◌, ◌⊎◌, sym, ap, subst, inl, inr, true, false, Option, none, some, [], ◌++◌,
  Bytes, bytes_eq, bytes_eq_iff, length, length-append, ltb, ltb_false→le, if◌then◌else◌,
  Bool-cases, arith,
}
use hpcc.Worker.{
  Worker, ok, BlobDigest, Body, header, chunk, unknown, Stream, eof, broken, recv,
  max_source_blob_bytes, BlobInProgress, check_header, add_data, validate_scheduler_token_for_cas,
}

-- The tenant of the first header.
abbrev pub first_tenant : Stream Body → Bytes
first_tenant eof = []
first_tenant broken = []
first_tenant (recv (header none) s) = []
first_tenant (recv (header (some d)) s) = d.tenant_id
first_tenant (recv (chunk b) s) = first_tenant s
first_tenant (recv unknown s) = first_tenant s

-- The stream has a header with this tenant and this digest, and with a token for the tenant.
abbrev pub Announced : Worker → Bytes → Bytes → Stream Body → Type 0
Announced w t k eof = Unit {0} × ⊥
Announced w t k broken = Unit {0} × ⊥
Announced w t k (recv (header none) s) = Announced w t k s
Announced w t k (recv (header (some d)) s) =
    ((d.tenant_id ≡ t)
      × (d.digest ≡ k)
      × (validate_scheduler_token_for_cas w d.scheduler_token t ≡ true))
    ⊎ Announced w t k s
Announced w t k (recv (chunk b) s) = Announced w t k s
Announced w t k (recv unknown s) = Announced w t k s

-- The blob that is open: its bytes are those that were hashed, unless it is rejected.
pub record IsOpen (w : Worker) (tenant : Bytes) (b : BlobInProgress) : Type 0 where
  pub held : b.rejected ≡ false → (b.hashed ≡ b.buf) × (length b.buf ≤ max_source_blob_bytes)
  pub pinned : b.head.tenant_id ≡ tenant
  pub trusted : validate_scheduler_token_for_cas w b.head.scheduler_token tenant ≡ true

abbrev pub tenant_of : Bytes → Stream Body → Bytes
tenant_of t s = if bytes_eq t [] then first_tenant s else t

abbrev pub WhenOpen : (BlobInProgress → Type 0) → Option BlobInProgress → Type 0
WhenOpen P none = Unit
WhenOpen P (some b) = P b

abbrev pub Opened : Bytes → Bytes → Option BlobInProgress → Type 0
Opened t k none = Unit {0} × ⊥
Opened t k (some b) = (b.head.tenant_id ≡ t) × (b.head.digest ≡ k)

pub add_data-IsOpen :
    (w : Worker) (tenant d : Bytes) (b : BlobInProgress)
    → IsOpen w tenant b
    → IsOpen w tenant (add_data d b)
unfolding add_data
add_data-IsOpen w tenant d b o = elim (Bool-cases b.rejected) [
  | inl r ↦ let q : add_data d b ≡ b = ground arith in subst (IsOpen w tenant) (sym q) o
  | inr r ↦ elim (Bool-cases (ltb max_source_blob_bytes (length b.buf + length d))) [
    | inl over ↦
        let q : add_data d b ≡ record b { rejected = true; buf = [] } = ground arith in
        subst (IsOpen w tenant) (sym q) (record {
          held = λ h. absurd (let x : ⊥ = cc in x);
          pinned = o.pinned;
          trusted = o.trusted;
        })
    | inr fits ↦
        let q : add_data d b ≡ record b { hashed = b.hashed ++ d; buf = b.buf ++ d } =
          ground arith in
        subst (IsOpen w tenant) (sym q) (record {
          held = λ h. (
            ap (λ (x : Bytes). x ++ d) (o.held r).0,
            omega (arith, ltb_false→le _ _ fits, length-append b.buf d),
          );
          pinned = o.pinned;
          trusted = o.trusted;
        })
  ]
]

pub add_data-head : (d : Bytes) (b : BlobInProgress) → (add_data d b).head ≡ b.head
unfolding add_data
add_data-head d b = ground arith

pub tenant_of-pinned : (t : Bytes) (s : Stream Body) → t ≢ [] → tenant_of t s ≡ t
tenant_of-pinned t s h = ground (arith, bytes_eq_iff t [])

-- A header that is accepted.
pub record IsAccepted (w : Worker) (old tenant : Bytes) (d : BlobDigest) (s : Stream Body)
    : Type 0 where
  pub present : tenant ≢ []
  pub own : d.tenant_id ≡ tenant
  pub first : tenant_of old (recv (header (some d)) s) ≡ tenant
  pub trusted : validate_scheduler_token_for_cas w d.scheduler_token tenant ≡ true

pub check_header-IsAccepted :
    (w : Worker) (old tenant : Bytes) (d : BlobDigest) (s : Stream Body)
    → check_header w old d ≡ ok tenant
    → IsAccepted w old tenant d s
unfolding check_header
check_header-IsAccepted w old tenant d s e = record {
  present = λ h. ground (arith, bytes_eq_iff d.tenant_id [], bytes_eq_iff d.tenant_id old, own);
  own = own;
  first = ground (arith, bytes_eq_iff d.tenant_id old);
  trusted =
      subst (λ t. validate_scheduler_token_for_cas w d.scheduler_token t ≡ true) own (ground arith);
}
  where
    own : d.tenant_id ≡ tenant
    own = ground (arith, bytes_eq_iff d.tenant_id old)
