-- ===== src/MemoryRequest/Checks.antt =====
-- memory_request.rs: what the validation of requests, results and statuses accepts.
use virtio_mem_windows_servi.Prelude.{
  ℕ, ◌+◌, ◌≤◌, ◌<◌, ◌≡◌, ◌↔◌, true, false, ok, arith, is_some, is_some_and, subst, sym, refl,
  saturating_add, Text, text_eq_iff,
}
use virtio_mem_windows_servi.MemoryRequest.{
  MemoryRequest, MemoryOutcome, MemoryResult, RequestIdentity, add, completed, partial, pool_empty,
  rejected, uncertain, valid_identity, validate, validate_at, is_foreign, rejection, terminal,
  bad_reason, outcome_consistent, validate_result, memory_request_version,
  max_request_lifetime_millis,
}
use virtio_mem_windows_servi.MemoryRequest.Equality.{request_eq_iff, operation_eq_iff}

pub record IsRequest (r : MemoryRequest) : Type 0 where
  pub version : r.version ≡ memory_request_version
  pub vm : valid_identity r.identity.vm_name ≡ true
  pub service : valid_identity r.identity.service_name ≡ true
  pub session : valid_identity r.identity.session_id ≡ true
  pub positive : 0 < r.bytes
  pub issued : 0 < r.issued_unix_millis
  pub lives : r.issued_unix_millis < r.expires_unix_millis
  pub bounded : r.expires_unix_millis ≤ r.issued_unix_millis + max_request_lifetime_millis

pub validate_iff_IsRequest : (r : MemoryRequest) → (validate r ≡ ok tt) ↔ IsRequest r
unfolding validate
validate_iff_IsRequest r = ground arith

pub is_foreign_iff :
    (i : RequestIdentity) (vm service : Text)
    → (is_foreign i vm service ≡ false) ↔ ((i.vm_name ≡ vm) × (i.service_name ≡ service))
unfolding is_foreign
is_foreign_iff i vm service =
    ground (arith, text_eq_iff i.vm_name vm, text_eq_iff i.service_name service)

-- At the effect boundary a request is accepted exactly when it is well-formed, names this VM and
-- service, is issued no later than the tolerated future and has not expired.
pub validate_at_iff :
    (r : MemoryRequest) (vm service : Text) (now tolerance : ℕ)
    → (validate_at r vm service now tolerance ≡ ok tt) ↔ (
        IsRequest r
        × (r.identity.vm_name ≡ vm)
        × (r.identity.service_name ≡ service)
        × (r.issued_unix_millis ≤ saturating_add now tolerance)
        × (now < r.expires_unix_millis))
unfolding validate_at
validate_at_iff r vm service now tolerance =
    ground (arith, text_eq_iff r.identity.vm_name vm, text_eq_iff r.identity.service_name service)

-- What each outcome says about the bytes that moved.
abbrev pub Means : MemoryOutcome → MemoryResult → MemoryRequest → Type 0
Means completed result r = result.actual_bytes ≡ r.bytes
Means partial result r = result.actual_bytes < r.bytes
Means pool_empty result r = (r.operation ≡ add) × (result.actual_bytes ≡ 0)
Means rejected result r = (result.actual_bytes ≡ 0) × (is_some result.reason ≡ true)
Means uncertain result r = is_some result.reason ≡ true

outcome_consistent_iff :
    (o : MemoryOutcome) (result : MemoryResult) (r : MemoryRequest)
    → (outcome_consistent o result r ≡ true) ↔ Means o result r
unfolding outcome_consistent
outcome_consistent_iff completed result r = ground arith
outcome_consistent_iff partial result r = ground arith
outcome_consistent_iff pool_empty result r = ground (arith, operation_eq_iff r.operation add)
outcome_consistent_iff rejected result r = ground arith
outcome_consistent_iff uncertain result r = ground arith

pub record IsResultOf (result : MemoryResult) (r : MemoryRequest) : Type 0 where
  pub request : result.request ≡ r
  pub valid : IsRequest r
  pub observed : 0 < result.observed_unix_millis
  pub at_most : result.actual_bytes ≤ r.bytes
  pub reason : is_some_and result.reason bad_reason ≡ false
  pub means : Means result.outcome result r

-- A result is accepted for a request exactly when it repeats that valid request, is dated, moved no
-- more than was asked, has a printable bounded reason if any, and its outcome agrees with the bytes
-- moved.
pub validate_result_iff :
    (result : MemoryResult) (r : MemoryRequest)
    → (validate_result result r ≡ ok tt) ↔ IsResultOf result r
unfolding validate_result
validate_result_iff result r = (
  λ h.
      let same : result.request ≡ r = ground (arith, request_eq_iff result.request r) in
      record {
        request = same;
        valid = subst IsRequest same ((validate_iff_IsRequest result.request).0 (ground arith));
        observed = ground arith;
        at_most = ground arith;
        reason = ground arith;
        means = (outcome_consistent_iff result.outcome result r).0 (ground arith);
      },
  λ v. ground (
    arith,
    request_eq_iff result.request r,
    (outcome_consistent_iff result.outcome result r).1 v.means,
    (validate_iff_IsRequest result.request).1 (subst IsRequest (sym v.request) v.valid),
  ),
)

-- A refusal of a valid request with an acceptable reason is an acceptable terminal result.
pub rejection_accepted :
    (r : MemoryRequest) (observed : ℕ) (reason : Text)
    → IsRequest r
    → 0 < observed
    → bad_reason reason ≡ false
    → (validate_result (rejection r observed reason) r ≡ ok tt)
      × (terminal (rejection r observed reason) ≡ true)
unfolding rejection terminal
rejection_accepted r observed reason v o good = (
  (validate_result_iff (rejection r observed reason) r).1 (
      unfold rejection in
      record {
        request = refl;
        valid = v;
        observed = o;
        at_most = omega arith;
        reason = good;
        means = (refl, refl);
      }),
  refl,
)
