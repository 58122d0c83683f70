-- ===== src/Checkpoint/Report.antt =====
-- host/src/checkpoint.rs, `read_controller_status`: the checkpoint joined with one live state into a
-- read-only status.
use virtio_mem_windows_servi.Config.{HostConfig}
use virtio_mem_windows_servi.Prelude.{
  ℕ, Bool, true, false, not, ◌&&◌, Option, none, some, List, ◌++◌, Result, ok, ◌>>=◌, ◌>>◌, map_err,
  is_some, is_some_and, map_option, Text, text_eq, codes, if◌then◌else◌,
}
use virtio_mem_windows_servi.VirtioMem.{VirtioMemState, device_maximum_target}
use virtio_mem_windows_servi.VirtioMem
use virtio_mem_windows_servi.Status.{
  CommandDirection, grow, shrink, settle_shrink, settle_grow, CommandOwnership, unowned,
  owned_pending, owned_converged_unresolved, unowned_pending, recorded_not_applied, conflict,
  ControlHealth, converged, growing, shrinking, recovery_required, latched, not_required,
  review_required, ControllerCommandStatus, ControllerStatusSnapshot, ControllerStatusError,
  GuestInputStatus, controller_status_version, validate_snapshot,
}
use virtio_mem_windows_servi.Checkpoint.{
  CheckpointFile, CheckpointError, CommandIntent, DurableControlState, Disk, device,
  command_ownership, is_pending, is_latched,
}
use virtio_mem_windows_servi.Checkpoint.Operations.{load, recovered}

-- The errors of the three steps that can fail.
pub data ReportError : Type 0 where
  checkpoint : CheckpointError → ReportError
  status : ControllerStatusError → ReportError

-- The `match command_ownership` of the recovery reason.
unfoldable pub ownership_reason : CommandOwnership → Option Text
ownership_reason unowned = none
ownership_reason owned_pending = none
ownership_reason owned_converged_unresolved =
    some (codes "recorded command has converged but its durable intent remains unresolved")
ownership_reason unowned_pending =
    some (codes "live requested/current divergence has no durable command owner")
ownership_reason recorded_not_applied =
    some (codes "recorded command is not reflected in live state")
ownership_reason conflict = some (codes "live state conflicts with the durable command intent")

unfoldable pub recovery_reason : DurableControlState → Bool → CommandOwnership → Option Text
unfolding ownership_reason is_pending
recovery_reason control attestation_changed ownership = elim control.latch_reason [
  | some reason ↦ some (codes "actuation_latched: " ++ reason)
  | none ↦
      if attestation_changed && is_pending control
      then some (codes "compatibility attestation changed while control state is pending")
      else ownership_reason ownership
]

-- The `match` on the direction of the command that is under way.
abbrev direction_health : Option CommandDirection → ControlHealth
direction_health (some grow) = growing
direction_health (some settle_grow) = growing
direction_health (some shrink) = shrinking
direction_health (some settle_shrink) = shrinking
direction_health none = shrinking

abbrev is_owned_pending : CommandOwnership → Bool
is_owned_pending owned_pending = true
is_owned_pending _ = false

unfoldable pub health : DurableControlState → Option Text → CommandOwnership → ControlHealth
unfolding is_latched
health control reason ownership =
    if is_latched control
    then latched
    else if is_some reason
    then recovery_required
    else if is_owned_pending ownership
    then direction_health (map_option (λ i. i.direction) control.intent)
    else converged

unfoldable pub command_detail : Option CommandIntent → Option ControllerCommandStatus
command_detail intent =
    map_option
      (λ i. record {
        operation_id = i.operation_id;
        direction = i.direction;
        prior_requested_bytes = i.prior_requested_bytes;
        prior_current_bytes = i.prior_current_bytes;
        target_bytes = i.target_bytes;
      })
      intent

-- The snapshot that `read_controller_status` builds from the control state.
unfoldable pub snapshot :
    HostConfig
    → VirtioMemState
    → GuestInputStatus
    → Text
    → ℕ
    → Bool
    → DurableControlState
    → Option Text
    → ControllerStatusSnapshot
unfolding command_ownership recovery_reason health command_detail
snapshot config live guest_input fingerprint observed attestation_changed control last =
    let ownership = command_ownership control.intent live in
    let reason = recovery_reason control attestation_changed ownership in
    record {
      version = controller_status_version;
      observed_unix_millis = observed;
      vm_name = config.vm_name;
      device_alias = config.alias;
      device_size_bytes = live.size_bytes;
      block_size_bytes = live.block_size_bytes;
      maximum_target_bytes = device_maximum_target live;
      requested_bytes = live.requested_bytes;
      current_bytes = live.current_bytes;
      observe_only = config.observe_only;
      guest_input = guest_input;
      admitted_request = control.journal.request;
      result = control.journal.result;
      command_ownership = ownership;
      command = command_detail control.intent;
      control_health = health control reason ownership;
      actuation_latched = is_some control.latch_reason;
      latch_reason = control.latch_reason;
      recovery_state = if is_some reason then review_required else not_required;
      recovery_reason = reason;
      last_latch_clear_reason = last;
      compatibility_fingerprint_sha256 = fingerprint;
    }

module _ (encode : CheckpointFile → List ℕ) (decode : List ℕ → Option CheckpointFile) where
  -- `read_controller_status`.
  unfoldable pub read_controller_status :
      HostConfig
      → Disk
      → VirtioMemState
      → GuestInputStatus
      → Text
      → ℕ
      → Result ReportError ControllerStatusSnapshot
  read_controller_status config disk live guest_input fingerprint observed = do
    map_err (λ e. checkpoint (device e)) (VirtioMem.validate live)
    file ← map_err checkpoint (load encode decode disk config.vm_name config.alias)
    let attestation_changed =
        is_some_and file (λ f. not (text_eq f.compatibility_fingerprint_sha256 fingerprint))
    let (control, last) = recovered file
    let s = snapshot config live guest_input fingerprint observed attestation_changed control last
    map_err status (validate_snapshot s)
    ok s
