-- ===== src/MemoryRequest/Equality.antt =====
-- memory_request.rs: the derived comparisons and equality.
use virtio_mem_windows_servi.Prelude.{◌≡◌, ◌↔◌, true, Option, none, some, arith, Text, text_eq_iff}
use virtio_mem_windows_servi.MemoryRequest.{
  RequestIdentity, MemoryOperation, MemoryRequest, MemoryOutcome, MemoryResult, operation_eq,
  outcome_eq, identity_eq, request_eq, reason_eq, result_eq,
}

pub operation_eq_iff : (a b : MemoryOperation) → (operation_eq a b ≡ true) ↔ (a ≡ b)
unfolding operation_eq
operation_eq_iff a b = ground arith

pub outcome_eq_iff : (a b : MemoryOutcome) → (outcome_eq a b ≡ true) ↔ (a ≡ b)
unfolding outcome_eq
outcome_eq_iff a b = ground arith

pub identity_eq_iff : (a b : RequestIdentity) → (identity_eq a b ≡ true) ↔ (a ≡ b)
unfolding identity_eq
identity_eq_iff a b = ground (
  arith,
  text_eq_iff a.vm_name b.vm_name,
  text_eq_iff a.service_name b.service_name,
  text_eq_iff a.session_id b.session_id,
)

pub request_eq_iff : (a b : MemoryRequest) → (request_eq a b ≡ true) ↔ (a ≡ b)
unfolding request_eq
request_eq_iff a b =
    ground (arith, identity_eq_iff a.identity b.identity, operation_eq_iff a.operation b.operation)

pub reason_eq_iff : (a b : Option Text) → (reason_eq a b ≡ true) ↔ (a ≡ b)
unfolding reason_eq
reason_eq_iff none none = ground arith
reason_eq_iff none (some t) = ground arith
reason_eq_iff (some s) none = ground arith
reason_eq_iff (some s) (some t) = ground (arith, text_eq_iff s t)

pub result_eq_iff : (a b : MemoryResult) → (result_eq a b ≡ true) ↔ (a ≡ b)
unfolding result_eq
result_eq_iff a b = ground (
  arith,
  request_eq_iff a.request b.request,
  outcome_eq_iff a.outcome b.outcome,
  reason_eq_iff a.reason b.reason,
)
