-- ===== src/MemoryRequest.antt =====
-- crates/virtio-mem-core/src/memory_request.rs, the wire types: a request of the guest, the host's
-- result for it and the status that the host publishes. Times and byte counts are `u64`.
pub mod Equality
pub mod Checks
use virtio_mem_windows_servi.Prelude.{
  ℕ, ◌-◌, ◌≡◌, Bool, true, false, not, ◌&&◌, ◌||◌, Option, none, some, List, [], ◌∷◌, Result, ok,
  err, ◌>>=◌, ◌>>◌, fail_if, map_err, ltb, leb, ◌==◌, any, all, is_empty, is_some, is_some_and,
  saturating_add, abs_diff, Text, text_eq, trim, byte_len, is_ascii, is_control,
}
use virtio_mem_windows_servi.VirtioMem.{VirtioMemState, VirtioMemError}
use virtio_mem_windows_servi.VirtioMem

abbrev pub memory_request_version : ℕ
memory_request_version = 1

abbrev pub max_request_lifetime_millis : ℕ
max_request_lifetime_millis = 60000

abbrev pub max_reason_bytes : ℕ
max_reason_bytes = 1024

unfoldable pub valid_identity : Text → Bool
unfolding trim byte_len is_ascii is_control
valid_identity value =
    not (is_empty (trim value))
    && leb (byte_len value) 128
    && is_ascii value
    && not (any is_control value)

pub record RequestIdentity : Type 0 where
  pub vm_name : Text
  pub service_name : Text
  pub session_id : Text
  pub sequence : ℕ

pub data MemoryOperation : Type 0 where
  add remove : MemoryOperation

pub record MemoryRequest : Type 0 where
  pub version : ℕ
  pub identity : RequestIdentity
  pub operation : MemoryOperation
  pub bytes : ℕ
  pub issued_unix_millis : ℕ
  pub expires_unix_millis : ℕ

pub data MemoryOutcome : Type 0 where
  completed partial pool_empty rejected uncertain : MemoryOutcome

pub record MemoryResult : Type 0 where
  pub request : MemoryRequest
  pub outcome : MemoryOutcome
  pub actual_bytes : ℕ
  pub observed_unix_millis : ℕ
  pub reason : Option Text

pub record HostMemoryStatus : Type 0 where
  pub version : ℕ
  pub vm_name : Text
  pub service_name : Text
  pub device_alias : Text
  pub observed_unix_millis : ℕ
  pub device_size_bytes : ℕ
  pub block_size_bytes : ℕ
  pub requested_bytes : ℕ
  pub current_bytes : ℕ
  pub result : Option MemoryResult

-- One constructor for each message of the file's `Err` strings.
pub data RequestError : Type 0 where
  unsupported_version invalid_identity invalid_interval foreign_request expired_or_future :
      RequestError
  result_mismatch invalid_observation invalid_reason contradicting_outcome : RequestError
  foreign_status unobserved_status contradicting_result : RequestError
  device : VirtioMemError → RequestError
  result_without_admission foreign_journal identity_reused earlier_unresolved : RequestError
  predates_watermark nothing_admitted terminal_replaced observation_backwards : RequestError

-- `PartialEq` of the wire types.
unfoldable pub operation_eq : MemoryOperation → MemoryOperation → Bool
operation_eq add add = true
operation_eq remove remove = true
operation_eq _ _ = false

unfoldable pub outcome_eq : MemoryOutcome → MemoryOutcome → Bool
outcome_eq completed completed = true
outcome_eq partial partial = true
outcome_eq pool_empty pool_empty = true
outcome_eq rejected rejected = true
outcome_eq uncertain uncertain = true
outcome_eq _ _ = false

unfoldable pub identity_eq : RequestIdentity → RequestIdentity → Bool
identity_eq a b =
    text_eq a.vm_name b.vm_name
    && text_eq a.service_name b.service_name
    && text_eq a.session_id b.session_id
    && a.sequence == b.sequence

unfoldable pub request_eq : MemoryRequest → MemoryRequest → Bool
unfolding identity_eq operation_eq
request_eq a b =
    a.version == b.version
    && identity_eq a.identity b.identity
    && operation_eq a.operation b.operation
    && a.bytes == b.bytes
    && a.issued_unix_millis == b.issued_unix_millis
    && a.expires_unix_millis == b.expires_unix_millis

unfoldable pub reason_eq : Option Text → Option Text → Bool
reason_eq none none = true
reason_eq (some s) (some t) = text_eq s t
reason_eq _ _ = false

unfoldable pub result_eq : MemoryResult → MemoryResult → Bool
unfolding request_eq outcome_eq reason_eq
result_eq a b =
    request_eq a.request b.request
    && outcome_eq a.outcome b.outcome
    && a.actual_bytes == b.actual_bytes
    && a.observed_unix_millis == b.observed_unix_millis
    && reason_eq a.reason b.reason

-- `MemoryRequest::validate`.
unfoldable pub validate : MemoryRequest → Result RequestError (Unit {0})
validate r = do
  fail_if (not (r.version == memory_request_version)) unsupported_version
  fail_if
      (not (
        all valid_identity
          (r.identity.vm_name ∷ r.identity.service_name ∷ r.identity.session_id ∷ [])))
      invalid_identity
  fail_if
      (r.bytes == 0
        || r.issued_unix_millis == 0
        || leb r.expires_unix_millis r.issued_unix_millis
        || ltb max_request_lifetime_millis (r.expires_unix_millis - r.issued_unix_millis))
      invalid_interval

-- The test for a name of another VM or service.
unfoldable pub is_foreign : RequestIdentity → Text → Text → Bool
is_foreign i vm service = not (text_eq i.vm_name vm) || not (text_eq i.service_name service)

-- `MemoryRequest::validate_at`.
unfoldable pub validate_at : MemoryRequest → Text → Text → ℕ → ℕ → Result RequestError (Unit {0})
unfolding validate is_foreign
validate_at r vm service now future_tolerance_millis = do
  validate r
  fail_if (is_foreign r.identity vm service) foreign_request
  fail_if
      (ltb (saturating_add now future_tolerance_millis) r.issued_unix_millis
        || leb r.expires_unix_millis now)
      expired_or_future

-- `MemoryResult::rejected`.
unfoldable pub rejection : MemoryRequest → ℕ → Text → MemoryResult
rejection r observed reason = record {
  request = r;
  outcome = rejected;
  actual_bytes = 0;
  observed_unix_millis = observed;
  reason = some reason;
}

-- `MemoryResult::terminal`.
unfoldable pub terminal : MemoryResult → Bool
unfolding outcome_eq
terminal result = not (outcome_eq result.outcome uncertain)

unfoldable pub bad_reason : Text → Bool
bad_reason reason =
    is_empty reason || ltb max_reason_bytes (byte_len reason) || any is_control reason

-- The `match self.outcome` of `MemoryResult::validate_for`.
unfoldable pub outcome_consistent : MemoryOutcome → MemoryResult → MemoryRequest → Bool
unfolding operation_eq
outcome_consistent completed result r = result.actual_bytes == r.bytes
outcome_consistent partial result r = ltb result.actual_bytes r.bytes
outcome_consistent pool_empty result r = operation_eq r.operation add && result.actual_bytes == 0
outcome_consistent rejected result r = result.actual_bytes == 0 && is_some result.reason
outcome_consistent uncertain result r = is_some result.reason

-- `MemoryResult::validate_for`.
unfoldable pub validate_result : MemoryResult → MemoryRequest → Result RequestError (Unit {0})
unfolding outcome_consistent
validate_result result r = do
  validate result.request
  fail_if (not (request_eq result.request r)) result_mismatch
  fail_if (result.observed_unix_millis == 0 || ltb r.bytes result.actual_bytes) invalid_observation
  fail_if (is_some_and result.reason bad_reason) invalid_reason
  fail_if (not (outcome_consistent result.outcome result r)) contradicting_outcome

-- `HostMemoryStatus::device`.
unfoldable pub device_state : HostMemoryStatus → VirtioMemState
device_state s = record {
  size_bytes = s.device_size_bytes;
  block_size_bytes = s.block_size_bytes;
  requested_bytes = s.requested_bytes;
  current_bytes = s.current_bytes;
}

unfoldable pub validate_status_result :
    HostMemoryStatus → Text → Text → Option MemoryResult → Result RequestError (Unit {0})
unfolding is_foreign
validate_status_result s vm service none = ok tt
validate_status_result s vm service (some result) = do
  validate_result result result.request
  fail_if
      (is_foreign result.request.identity vm service
        || ltb s.observed_unix_millis result.observed_unix_millis)
      contradicting_result

-- `HostMemoryStatus::validate_for`.
unfoldable pub validate_status : HostMemoryStatus → Text → Text → Result RequestError (Unit {0})
unfolding device_state validate_status_result
validate_status s vm service = do
  fail_if
      (not (s.version == memory_request_version)
        || not (text_eq s.vm_name vm)
        || not (text_eq s.service_name service))
      foreign_status
  fail_if (s.observed_unix_millis == 0) unobserved_status
  map_err device (VirtioMem.validate (device_state s))
  validate_status_result s vm service s.result

-- `HostMemoryStatus::fresh_at`.
unfoldable pub fresh_at : HostMemoryStatus → ℕ → ℕ → Bool
fresh_at s now max_age_millis = leb (abs_diff s.observed_unix_millis now) max_age_millis
