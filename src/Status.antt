-- ===== src/Status.antt =====
-- crates/virtio-mem-core/src/controller_status.rs: the read-only status contract of the controller and
-- its validation.
use virtio_mem_windows_servi.Prelude.{
  ℕ, Bool, true, false, not, ◌&&◌, ◌||◌, Option, none, some, Result, ok, err, ◌>>◌, fail_if,
  map_err, is_ok, leb, ltb, ◌==◌, all, any, is_empty, is_some, is_none, is_some_and, is_multiple_of,
  Text, trim, byte_len, is_control,
}
use virtio_mem_windows_servi.VirtioMem.{VirtioMemState, device_maximum_target}
use virtio_mem_windows_servi.VirtioMem
use virtio_mem_windows_servi.MemoryRequest.{MemoryRequest, MemoryResult, validate_result}
use virtio_mem_windows_servi.MemoryRequest

abbrev pub controller_status_version : ℕ
controller_status_version = 5

abbrev max_identity_bytes : ℕ
max_identity_bytes = 256

abbrev max_reason_bytes : ℕ
max_reason_bytes = 1024

pub data CommandDirection : Type 0 where
  grow shrink settle_shrink settle_grow : CommandDirection

pub data ControlHealth : Type 0 where
  converged growing shrinking recovery_required latched : ControlHealth

pub data CommandOwnership : Type 0 where
  unowned owned_pending owned_converged_unresolved unowned_pending : CommandOwnership
  recorded_not_applied conflict : CommandOwnership

pub data RecoveryState : Type 0 where
  not_required review_required : RecoveryState

pub record ControllerCommandStatus : Type 0 where
  pub operation_id : Text
  pub direction : CommandDirection
  pub prior_requested_bytes : ℕ
  pub prior_current_bytes : ℕ
  pub target_bytes : ℕ

pub record GuestInputStatus : Type 0 where
  pub error : Option Text
  pub observed_unix_millis : Option ℕ
  pub request : Option MemoryRequest

pub record ControllerStatusSnapshot : Type 0 where
  pub version : ℕ
  pub observed_unix_millis : ℕ
  pub vm_name : Text
  pub device_alias : Text
  pub device_size_bytes : ℕ
  pub block_size_bytes : ℕ
  pub maximum_target_bytes : ℕ
  pub requested_bytes : ℕ
  pub current_bytes : ℕ
  pub observe_only : Bool
  pub guest_input : GuestInputStatus
  pub admitted_request : Option MemoryRequest
  pub result : Option MemoryResult
  pub command_ownership : CommandOwnership
  pub command : Option ControllerCommandStatus
  pub control_health : ControlHealth
  pub actuation_latched : Bool
  pub latch_reason : Option Text
  pub recovery_state : RecoveryState
  pub recovery_reason : Option Text
  pub last_latch_clear_reason : Option Text
  pub compatibility_fingerprint_sha256 : Text

-- `ControllerStatusError`, with one constructor for each message of its `Invalid`.
pub data ControllerStatusError : Type 0 where
  unsupported_version : ℕ → ControllerStatusError
  invalid_live_device invalid_maximum unexplained_input : ControllerStatusError
  result_without_request result_mismatch invalid_request : ControllerStatusError
  ownership_and_detail_disagree divergent_converged converged_pending : ControllerStatusError
  invalid_command_target latch_and_reason_disagree recovery_and_reason_disagree :
      ControllerStatusError
  invalid_identity invalid_fingerprint invalid_reason : ControllerStatusError

-- `matches!(ownership, OwnedPending | OwnedConvergedUnresolved | RecordedNotApplied | Conflict)`.
unfoldable pub command_required : CommandOwnership → Bool
command_required owned_pending = true
command_required owned_converged_unresolved = true
command_required recorded_not_applied = true
command_required conflict = true
command_required unowned = false
command_required unowned_pending = false

abbrev is_unowned : CommandOwnership → Bool
is_unowned unowned = true
is_unowned _ = false

abbrev is_unowned_pending : CommandOwnership → Bool
is_unowned_pending unowned_pending = true
is_unowned_pending _ = false

abbrev is_review_required : RecoveryState → Bool
is_review_required review_required = true
is_review_required not_required = false

abbrev bool_eq : Bool → Bool → Bool
bool_eq true b = b
bool_eq false b = not b

unfoldable pub validate_identity : Text → Result ControllerStatusError (Unit {0})
unfolding trim byte_len is_control
validate_identity value =
    fail_if
      (is_empty (trim value) || ltb max_identity_bytes (byte_len value) || any is_control value)
      invalid_identity

-- `u8::is_ascii_hexdigit`; a character of several bytes has none that passes.
is_ascii_hexdigit : ℕ → Bool
is_ascii_hexdigit c =
    leb 0x30 c && leb c 0x39 || leb 0x41 c && leb c 0x46 || leb 0x61 c && leb c 0x66

unfoldable pub validate_sha256 : Text → Result ControllerStatusError (Unit {0})
unfolding is_ascii_hexdigit byte_len
validate_sha256 value =
    fail_if (not (byte_len value == 64) || not (all is_ascii_hexdigit value)) invalid_fingerprint

unfoldable pub bad_status_reason : Text → Bool
unfolding trim byte_len is_control
bad_status_reason value =
    is_empty (trim value) || ltb max_reason_bytes (byte_len value) || any is_control value

unfoldable pub validate_optional_reason : Option Text → Result ControllerStatusError (Unit {0})
unfolding bad_status_reason
validate_optional_reason value = fail_if (is_some_and value bad_status_reason) invalid_reason

-- The device fields of a snapshot.
unfoldable pub snapshot_device : ControllerStatusSnapshot → VirtioMemState
snapshot_device s = record {
  size_bytes = s.device_size_bytes;
  block_size_bytes = s.block_size_bytes;
  requested_bytes = s.requested_bytes;
  current_bytes = s.current_bytes;
}

-- The `match` on the request and its result.
unfoldable pub validate_exchange :
    Option MemoryRequest → Option MemoryResult → Result ControllerStatusError (Unit {0})
validate_exchange none (some _) = err result_without_request
validate_exchange none none = ok tt
validate_exchange (some request) (some result) = do
  fail_if (not (is_ok (validate_result result request))) result_mismatch
  fail_if (not (is_ok (MemoryRequest.validate request))) invalid_request
validate_exchange (some request) none =
    fail_if (not (is_ok (MemoryRequest.validate request))) invalid_request

unfoldable pub validate_command :
    ℕ → Option ControllerCommandStatus → Result ControllerStatusError (Unit {0})
unfolding validate_identity
validate_command block none = ok tt
validate_command block (some command) = do
  validate_identity command.operation_id
  fail_if (not (is_multiple_of command.target_bytes block)) invalid_command_target

-- The checks of the live device and of the guest input.
unfoldable pub validate_live : ControllerStatusSnapshot → Result ControllerStatusError (Unit {0})
unfolding validate_identity validate_sha256 snapshot_device validate_optional_reason
validate_live s = do
  fail_if (not (s.version == controller_status_version)) (unsupported_version s.version)
  validate_identity s.vm_name
  validate_identity s.device_alias
  validate_sha256 s.compatibility_fingerprint_sha256
  map_err (λ _. invalid_live_device) (VirtioMem.validate (snapshot_device s))
  fail_if (not (s.maximum_target_bytes == device_maximum_target (snapshot_device s)))
      invalid_maximum
  validate_optional_reason s.guest_input.error
  fail_if
      (bool_eq (is_some s.guest_input.error) (is_some s.guest_input.observed_unix_millis)
        || (is_some s.guest_input.request && is_none s.guest_input.observed_unix_millis))
      unexplained_input

-- The checks of the command.
unfoldable pub validate_ownership :
    ControllerStatusSnapshot → Result ControllerStatusError (Unit {0})
unfolding command_required validate_command
validate_ownership s = do
  fail_if (not (bool_eq (command_required s.command_ownership) (is_some s.command)))
      ownership_and_detail_disagree
  fail_if (is_unowned s.command_ownership && not (s.requested_bytes == s.current_bytes))
      divergent_converged
  fail_if (is_unowned_pending s.command_ownership && s.requested_bytes == s.current_bytes)
      converged_pending
  validate_command s.block_size_bytes s.command

-- The checks of the latch and the recovery.
unfoldable pub validate_reasons : ControllerStatusSnapshot → Result ControllerStatusError (Unit {0})
unfolding validate_optional_reason
validate_reasons s = do
  validate_optional_reason s.latch_reason
  validate_optional_reason s.recovery_reason
  validate_optional_reason s.last_latch_clear_reason
  fail_if (not (bool_eq s.actuation_latched (is_some s.latch_reason))) latch_and_reason_disagree
  fail_if (not (bool_eq (is_review_required s.recovery_state) (is_some s.recovery_reason)))
      recovery_and_reason_disagree

-- `ControllerStatusSnapshot::validate`.
unfoldable pub validate_snapshot :
    ControllerStatusSnapshot → Result ControllerStatusError (Unit {0})
unfolding validate_live validate_exchange validate_ownership validate_reasons
validate_snapshot s = do
  validate_live s
  validate_exchange s.admitted_request s.result
  validate_ownership s
  validate_reasons s
