-- ===== src/Agent/Trace.antt =====
-- What is taken for a trace ID.
use hpcc.Prelude.{
  ℕ, ◌≡◌, ◌≢◌, refl, sym, ◌∙◌, ap, subst, ◌⊎◌, inl, inr, true, false, List, [], ◌∷◌, ◌++◌, Bytes,
  bytes_eq, bytes_eq_iff, arith, Bool-cases, length, length-append, ◌==◌, ==_iff,
}
use hpcc.Prelude.Cut.{Without}
use hpcc.Agent.{split, all_lower_hex, zero_trace, checked_trace, trace_id_from_traceparent}

split-front : (b : ℕ) (s t : Bytes) → Without b s → split b (s ++ (b ∷ t)) ≡ s ∷ split b t
unfolding split
split-front b [] t w = ground arith
split-front b (c ∷ s) t w =
    let different : c ≢ b = w.0 in
    let rest = split-front b s t w.1 in ground (arith, different, rest)

split-some : (b : ℕ) (s : Bytes) → (p : Bytes) × (ps : List Bytes) × (split b s ≡ p ∷ ps)
unfolding split
split-some b [] = ([], [], refl)
split-some b (c ∷ s) =
    let (p, ps, e) = split-some b s in
    elim (Bool-cases (c == b)) [
      | inl same ↦ ([], split b s, rw same refl)
      | inr other ↦ (c ∷ p, ps, rw (other, e) refl)
    ]

hex-Without : (id : Bytes) → all_lower_hex id ≡ true → Without b'-' id
unfolding all_lower_hex
hex-Without [] h = tt
hex-Without (c ∷ id) h = ((λ e. ground arith), hex-Without id (ground arith))

-- A trace ID by the standard.
abbrev pub IsTraceId : Bytes → Type 0
IsTraceId id = (length id ≡ 32) × (all_lower_hex id ≡ true) × (id ≢ zero_trace)

checked_trace-IsTraceId :
    (id : Bytes) → (checked_trace id ≡ []) ⊎ ((checked_trace id ≡ id) × IsTraceId id)
unfolding checked_trace
checked_trace-IsTraceId id = elim (Bool-cases (length id == 32)) [
  | inr short ↦ inl (rw short refl)
  | inl long ↦ elim (Bool-cases (all_lower_hex id)) [
    | inr other ↦ inl (rw (long, other) refl)
    | inl digits ↦ elim (Bool-cases (bytes_eq id zero_trace)) [
      | inl zeros ↦ inl (rw (long, digits, zeros) refl)
      | inr some_digit ↦ inr (
        rw (long, digits, some_digit) refl,
        (
          (==_iff (length id) 32).0 long,
          digits,
          λ e. let q = (bytes_eq_iff id zero_trace).1 e in cc,
        ),
      )
    ]
  ]
]

checked_trace_same : (id : Bytes) → IsTraceId id → checked_trace id ≡ id
unfolding checked_trace
checked_trace_same id h =
    let a = h.0 in
    let b = h.1 in
    let c : bytes_eq id zero_trace ≡ false = ground (arith, bytes_eq_iff id zero_trace, h.2) in
    rw (c) (ground arith)

checked_trace_result : (id : Bytes) → (checked_trace id ≡ []) ⊎ IsTraceId (checked_trace id)
checked_trace_result id = elim (checked_trace-IsTraceId id) [
  | inl refused ↦ inl refused
  | inr (same, trace) ↦ inr (subst IsTraceId (sym same) trace)
]

of_parts :
    (c : ℕ) (s : Bytes) (parts : List Bytes)
    → split b'-' (c ∷ s) ≡ parts
    → (trace_id_from_traceparent (c ∷ s) ≡ []) ⊎ IsTraceId (trace_id_from_traceparent (c ∷ s))
unfolding trace_id_from_traceparent
of_parts c s [] e = inl (rw (e, trace_id_from_traceparent) refl)
of_parts c s (v ∷ []) e = inl (rw (e, trace_id_from_traceparent) refl)
of_parts c s (v ∷ id ∷ []) e = inl (rw (e, trace_id_from_traceparent) refl)
of_parts c s (v ∷ id ∷ span ∷ []) e = inl (rw (e, trace_id_from_traceparent) refl)
of_parts c s (v ∷ id ∷ span ∷ flags ∷ more) e =
    rw (e, trace_id_from_traceparent) (checked_trace_result id)

-- For every header the result is empty or consists of 32 lower-case hexadecimal digits that are
-- not all zero.
pub trace_id_from_traceparent-IsTraceId :
    (header : Bytes)
    → (trace_id_from_traceparent header ≡ []) ⊎ IsTraceId (trace_id_from_traceparent header)
unfolding trace_id_from_traceparent
trace_id_from_traceparent-IsTraceId [] = inl refl
trace_id_from_traceparent-IsTraceId (c ∷ s) = of_parts c s (split b'-' (c ∷ s)) refl

header_from :
    (header version id span flags : Bytes) (more : List Bytes)
    → header ≢ []
    → split b'-' header ≡ version ∷ id ∷ span ∷ flags ∷ more
    → trace_id_from_traceparent header ≡ checked_trace id
unfolding trace_id_from_traceparent
header_from [] version id span flags more h e = absurd (h refl)
header_from (c ∷ s) version id span flags more h e = rw (e, trace_id_from_traceparent) refl

-- From a header that joins a version without "-", a trace of 32 lower-case hexadecimal digits that
-- are not all zero, a span without "-" and any flags by "-", the trace is returned.
pub trace_id_from_traceparent-header :
    (version id span flags : Bytes)
    → Without b'-' version
    → IsTraceId id
    → Without b'-' span
    → trace_id_from_traceparent (version ++ (b'-' ∷ (id ++ (b'-' ∷ (span ++ (b'-' ∷ flags)))))) ≡ id
trace_id_from_traceparent-header version id span flags v i s =
    let (p, ps, e) = split-some b'-' flags in
    let parts =
      split-front b'-' version (id ++ (b'-' ∷ (span ++ (b'-' ∷ flags)))) v
      ∙ ap (◌∷◌ version) (
          split-front b'-' id (span ++ (b'-' ∷ flags)) (hex-Without id i.1)
          ∙ ap (◌∷◌ id) (split-front b'-' span flags s ∙ ap (◌∷◌ span) e)) in
    header_from _ version id span p ps
      (λ q. absurd (
        omega (
          arith,
          ap length q,
          length-append version (b'-' ∷ (id ++ (b'-' ∷ (span ++ (b'-' ∷ flags))))),
        )))
      parts
    ∙ checked_trace_same id i
