-- ===== src/Examples/Durability.antt =====
-- Tests of the durable control state: a growth that half succeeded is latched, and the operator clears
-- the latch.
use virtio_mem_windows_servi.Config.{HostConfig}
use virtio_mem_windows_servi.MemoryRequest.{valid_identity}
use virtio_mem_windows_servi.Prelude.{
  ◌^◌, ◌≡◌, ◌≢◌, refl, ◌↔◌, ◌⊎◌, true, false, Option, some, none, ok, arith, codes, replicate,
  byte_len, is_ok, Text, trim, text_eq,
}
use virtio_mem_windows_servi.MemoryRequest
use virtio_mem_windows_servi.MemoryRequest.{MemoryResult, partial}
use virtio_mem_windows_servi.MemoryRequest.Checks.{IsRequest, validate_iff_IsRequest}
use virtio_mem_windows_servi.Journal.{validate_journal}
use virtio_mem_windows_servi.Journal.Replay.{IsJournal}
use virtio_mem_windows_servi.Status.{
  grow, conflict, review_required, converged, latched, GuestInputStatus,
}
use virtio_mem_windows_servi.Checkpoint.{
  CommandIntent, DurableControlState, CheckpointFile, Checkpoint, Disk, complete, before_flush,
  command_ownership, movement_result,
}
use virtio_mem_windows_servi.Checkpoint.Operations.{
  saved_file, save, load, open_with, clear_actuation_latch,
}
use virtio_mem_windows_servi.Checkpoint.Movement.{
  Owns, Settles, command_ownership_iff, movement_result-Settles,
}
use virtio_mem_windows_servi.Checkpoint.Durable.{Holds, Opened, save_atomic, open_with-Opened}
use virtio_mem_windows_servi.Checkpoint.Latch.{Replaced, clear_latch_outcome}
use virtio_mem_windows_servi.Checkpoint.Report.{snapshot, read_controller_status}
use virtio_mem_windows_servi.Checkpoint.LatchReason.{long_latch_unreportable}
use virtio_mem_windows_servi.Checkpoint.Health.{Clean, health_iff}
use virtio_mem_windows_servi.Examples.{vm, growth, admitted_journal, at_rest}
use virtio_mem_windows_servi.Examples.Encoding.{encode, decode, decode-encode, put_text, get_text}

abbrev alias_name : Text
alias_name = codes "ua-vmem0"

abbrev fingerprint : Text
fingerprint = codes "0123456789abcdef0123456789abcdef0123456789abcdef0123456789abcdef"

-- The growth by two blocks of which the device took one.
abbrev command : CommandIntent
command = record {
  operation_id = codes "op-1";
  started_unix_millis = 1100;
  direction = grow;
  prior_requested_bytes = 534773760;
  prior_current_bytes = 534773760;
  target_bytes = 538968064;
}

abbrev control : DurableControlState
control = record {
  latch_reason = some (codes "stalled");
  intent = some command;
  journal = admitted_journal;
}

abbrev handle : Checkpoint
handle = record {
  vm_name = vm;
  device_alias = alias_name;
  compatibility_fingerprint = fingerprint;
  last_latch_clear_reason = none;
}

abbrev pub host : HostConfig
host = record {
  vm_name = vm;
  alias = alias_name;
  priority = 1;
  poll_interval = 2000;
  convergence_timeout = 60000;
  raw_telemetry_service_name = codes "VirtioMemGuest";
  raw_telemetry_future_tolerance = 2000;
  host_min_headroom_bytes = 2 ^ 30;
  observe_only = false;
  min_ram = 2 ^ 32;
  max_ram = 2 ^ 34;
}

abbrev stored : Disk
stored = some (encode (saved_file handle control))

admitted-IsJournal : IsJournal admitted_journal
unfolding validate_journal MemoryRequest.validate valid_identity
admitted-IsJournal = refl

save_atomic_example :
    (((save encode decode before_flush none handle control).0 ≡ none)
      × (is_ok (save encode decode before_flush none handle control).1 ≡ false))
    ⊎ ((file : CheckpointFile) × (load encode decode
            (save encode decode before_flush none handle control).0
            vm
            alias_name
          ≡ ok (some file))
        × Holds handle control file)
unfolding trim
save_atomic_example =
    save_atomic encode decode decode-encode before_flush none handle control admitted-IsJournal refl

reopened : open_with encode decode host true stored fingerprint false ≡ ok (handle, control)
unfolding open_with encode put_text saved_file decode get_text text_eq validate_journal
    MemoryRequest.validate valid_identity
reopened = refl

open_with-Opened_example :
    (found : Option CheckpointFile) × (load encode decode stored vm alias_name ≡ ok found)
    × Opened host fingerprint false found handle control
open_with-Opened_example =
    open_with-Opened encode decode host true stored fingerprint false handle control reopened

clear_latch_outcome_example :
    (((clear_actuation_latch encode decode host true complete stored at_rest fingerprint
          (codes "checked")
          5000
          true).0
        ≡ stored)
      × ((true ≡ false)
          ⊎ (is_ok
                (clear_actuation_latch encode decode host true complete stored at_rest fingerprint
                  (codes "checked")
                  5000
                  true).1
              ≡ false)))
    ⊎ ((true ≡ true)
        × Replaced encode decode decode-encode host fingerprint stored
            (clear_actuation_latch encode decode host true complete stored at_rest fingerprint
              (codes "checked")
              5000
              true).0)
clear_latch_outcome_example =
    clear_latch_outcome encode decode decode-encode host true complete stored at_rest fingerprint
      (codes "checked") 5000 true

growth-IsRequest : IsRequest growth
unfolding MemoryRequest.validate valid_identity
growth-IsRequest = (validate_iff_IsRequest growth).0 refl

movement_result-Settles_example :
    (q : MemoryResult) × (movement_result admitted_journal command at_rest 5000 none ≡ some q)
    × Settles growth command at_rest q
movement_result-Settles_example =
    movement_result-Settles admitted_journal growth command at_rest 5000 none refl growth-IsRequest
      (omega arith) refl

command_ownership_iff_example :
    (command_ownership (some command) at_rest ≡ conflict) ↔ Owns conflict (some command) at_rest
command_ownership_iff_example = command_ownership_iff conflict (some command) at_rest

abbrev input : GuestInputStatus
input = record { error = some (codes "unreachable"); observed_unix_millis = none; request = none }

health_iff_example :
    ((((snapshot host at_rest input fingerprint 5000 false control none).recovery_state
          ≢ review_required)
        ↔ Clean false control at_rest)
      × (((snapshot host at_rest input fingerprint 5000 false control none).control_health
            ≡ converged)
          ↔ (Clean false control at_rest × (control.intent ≡ none)))
      × (((snapshot host at_rest input fingerprint 5000 false control none).control_health
            ≡ latched)
          ↔ ((snapshot host at_rest input fingerprint 5000 false control none).actuation_latched
              ≡ true)))
health_iff_example = health_iff host at_rest input fingerprint 5000 false control none

abbrev long_reason : Text
long_reason = replicate 1006 0x61

abbrev long_latched : CheckpointFile
long_latched = saved_file handle (record control { latch_reason = some long_reason })

long_loads : load encode decode (some (encode long_latched)) vm alias_name ≡ ok (some long_latched)
unfolding load encode decode saved_file put_text get_text text_eq validate_journal
    MemoryRequest.validate valid_identity
long_loads = refl

long_latch_unreportable_example :
    is_ok (
      read_controller_status encode decode host
        (some (encode long_latched))
        at_rest
        input
        fingerprint
        5000)
    ≡ false
unfolding saved_file byte_len
long_latch_unreportable_example =
    long_latch_unreportable encode decode host (some (encode long_latched)) at_rest input
      fingerprint 5000 long_latched long_reason long_loads refl (omega arith)
