-- ===== src/Checkpoint.antt =====
-- host/src/checkpoint.rs: the durable control state of one VM, its checkpoint file, and how live state is
-- attributed to the recorded command. The file is the bytes it holds, if it exists.
pub mod Movement
pub mod Durable
pub mod Latch
pub mod Report
pub mod Health
pub mod LatchReason
pub mod Operations
use virtio_mem_windows_servi.Prelude.{
  ℕ, ◌-◌, Bool, true, false, not, ◌&&◌, ◌||◌, Option, none, some, List, length, ◌++◌, Result, ok,
  err, ◌>>=◌, ◌>>◌, fail_if, map_err, min, ltb, ◌==◌, if◌then◌else◌, any, is_empty, is_some,
  is_some_and, is_none_or, map_option, Text, text_eq, trim, byte_len, is_control, codes,
}
use virtio_mem_windows_servi.VirtioMem.{VirtioMemState, VirtioMemError}
use virtio_mem_windows_servi.VirtioMem
use virtio_mem_windows_servi.MemoryRequest.{
  MemoryOperation, add, remove, MemoryRequest, MemoryOutcome, MemoryResult, completed, partial,
  RequestError, terminal, rejection,
}
use virtio_mem_windows_servi.Journal.{MemoryRequestJournal, validate_journal, record_result}
use virtio_mem_windows_servi.Status.{
  CommandDirection, CommandOwnership, unowned, owned_pending, owned_converged_unresolved,
  unowned_pending, recorded_not_applied, conflict,
}

abbrev pub checkpoint_version : ℕ
checkpoint_version = 2

abbrev pub max_checkpoint_bytes : ℕ
max_checkpoint_bytes = 1048576

pub record CommandIntent : Type 0 where
  pub operation_id : Text
  pub started_unix_millis : ℕ
  pub direction : CommandDirection
  pub prior_requested_bytes : ℕ
  pub prior_current_bytes : ℕ
  pub target_bytes : ℕ

pub record DurableControlState : Type 0 where
  pub latch_reason : Option Text
  pub intent : Option CommandIntent
  pub journal : MemoryRequestJournal

abbrev pub default_control : DurableControlState
default_control = record {
  latch_reason = none;
  intent = none;
  journal = record { request = none; result = none };
}

-- `DurableControlState::latched`.
unfoldable pub is_latched : DurableControlState → Bool
is_latched c = is_some c.latch_reason

abbrev pub unresolved : Option MemoryResult → Bool
unresolved result = is_none_or result (λ q. not (terminal q))

-- `DurableControlState::pending`.
unfoldable pub is_pending : DurableControlState → Bool
unfolding is_latched
is_pending c =
    is_latched c || is_some c.intent || (is_some c.journal.request && unresolved c.journal.result)

pub record CheckpointFile : Type 0 where
  pub version : ℕ
  pub vm_name : Text
  pub device_alias : Text
  pub compatibility_fingerprint_sha256 : Text
  pub control : DurableControlState
  pub last_latch_clear_reason : Option Text

pub record Checkpoint : Type 0 where
  pub vm_name : Text
  pub device_alias : Text
  pub compatibility_fingerprint : Text
  pub last_latch_clear_reason : Option Text

-- One constructor for each message of the file's `Err` strings.
pub data CheckpointError : Type 0 where
  not_acquired oversized invalid foreign invalid_intent : CheckpointError
  attestation_changed exceeds_limit no_parent not_written not_flushed : CheckpointError
  invalid_clear_reason divergent not_latched : CheckpointError
  device : VirtioMemError → CheckpointError
  journal : RequestError → CheckpointError

-- `command_ownership`.
unfoldable pub command_ownership : Option CommandIntent → VirtioMemState → CommandOwnership
command_ownership none live =
    if live.requested_bytes == live.current_bytes then unowned else unowned_pending
command_ownership (some intent) live =
    if live.requested_bytes == intent.target_bytes
    then (if live.current_bytes == intent.target_bytes
        then owned_converged_unresolved
        else owned_pending)
    else if live.requested_bytes == intent.prior_requested_bytes
        && live.current_bytes == intent.prior_current_bytes
    then recorded_not_applied
    else conflict

-- The bytes that the device moved in the direction of the request.
unfoldable pub moved_bytes : MemoryOperation → CommandIntent → VirtioMemState → ℕ
moved_bytes add intent live = live.current_bytes - intent.prior_current_bytes
moved_bytes remove intent live = intent.prior_current_bytes - live.current_bytes

-- `movement_result`.
unfoldable pub movement_result :
    MemoryRequestJournal → CommandIntent → VirtioMemState → ℕ → Option Text → Option MemoryResult
unfolding moved_bytes
movement_result j intent live observed reason =
    map_option
      (λ request.
        let moved = min (moved_bytes request.operation intent live) request.bytes in
        record {
          request = request;
          outcome = if moved == request.bytes then completed else partial;
          actual_bytes = moved;
          observed_unix_millis = observed;
          reason = reason;
        })
      j.request

-- The file on disk, if there is one.
abbrev pub Disk : Type 0
Disk = Option (List ℕ)

-- How far the writing of the temporary file, its renaming and the flush of the directory came.
pub data Writing : Type 0 where
  without_parent before_rename before_flush complete : Writing

-- The values that the message of `clear_actuation_latch` prints.
pub record ClearMessage : Type 0 where
  pub vm_name : Text
  pub device_alias : Text
  pub requested_bytes : ℕ
  pub current_bytes : ℕ
  pub reason : Text
