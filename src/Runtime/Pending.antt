-- ===== src/Runtime/Pending.antt =====
-- host/src/runtime.rs, `observe_pending` and `widen_usable_region`: what is done about a command that the
-- device has not finished, and about one that plugged nothing.
use virtio_mem_windows_servi.Prelude.{
  ℕ, Bool, true, false, ◌&&◌, ◌||◌, not, Option, none, some, Result, ok, err, Text, codes, ◌++◌,
  ◌==◌, if◌then◌else◌, is_some_and, filter_option, checked_sub,
}
use virtio_mem_windows_servi.VirtioMem.{VirtioMemState}
use virtio_mem_windows_servi.Telemetry.{low, neutral, high, RawTelemetryEnvelope}
use virtio_mem_windows_servi.Status.{CommandDirection, grow, shrink, settle_grow, settle_shrink}
use virtio_mem_windows_servi.Checkpoint.{CommandIntent, is_latched}
use virtio_mem_windows_servi.Runtime.{
  ResizeSinkError, command_rejected, command_unknown, resize_failed, Step, wait, stop, VmController,
  Environment, widen_usable_region, read_guest, commanded, note, Action, pure, change, ◌>>=◌, ◌>>◌,
  stop_requested,
}
use virtio_mem_windows_servi.Runtime.Control.{current_vm, latch, exceeded_deadline}
use virtio_mem_windows_servi.Runtime.Deadlines.{command_stalled, pending_elapsed}
use virtio_mem_windows_servi.Runtime.Settle.{sink_message, settle_short}
use virtio_mem_windows_servi.Runtime.Extend.{extend_shrink}

unfoldable pub reports_low : Option RawTelemetryEnvelope → Bool
reports_low guest = is_some_and guest (λ e.
    is_some_and e.native_pressure (λ p. elim p [ low ↦ true | neutral ↦ false | high ↦ false ]))

unfoldable pub base_of : VirtioMemState → Option RawTelemetryEnvelope → Option ℕ
base_of state none = none
base_of state (some e) = checked_sub e.memory.physical_total_bytes state.current_bytes

-- `.ok()`.
unfoldable pub ok_of : Result Text RawTelemetryEnvelope → Option RawTelemetryEnvelope
ok_of (ok e) = some e
ok_of (err _) = none

-- Commands are allowed.
unfoldable pub can_settle : VmController → Bool
can_settle vm = not (is_latched vm.control) && not vm.config.observe_only

module _ (env : Environment) where
  unfoldable pub pending_grow : VirtioMemState → Action Step
  pending_grow state = do
    vm ← current_vm
    if can_settle vm
          && not vm.widened
          && is_some_and vm.control.intent (λ i. i.prior_current_bytes == state.current_bytes)
        then (do
          stalled ← command_stalled env state
          if stalled then settle_short env grow state else pure wait)
        else pure wait

  unfoldable pub extend_if_stalled : VirtioMemState → Option ℕ → Action Step
  extend_if_stalled state none = pure wait
  extend_if_stalled state (some base_ram) = do
    stalled ← command_stalled env state
    if stalled then extend_shrink env state base_ram else pure wait

  unfoldable pub pending_shrink : VirtioMemState → Action Step
  unfolding extend_if_stalled
  pending_shrink state = do
    guest ← (λ s. (ok (ok_of (env.read s.trace)), note read_guest s))
    if reports_low guest
        then settle_short env shrink state
        else extend_if_stalled state (base_of state guest)

  unfoldable pub pending_settle : Text → Action Step
  pending_settle operation = do
    elapsed ← pending_elapsed env
    if elapsed then (do e ← exceeded_deadline env operation; pure (stop e)) else pure wait

  unfoldable pub pending_direction : CommandDirection → VirtioMemState → Action Step
  unfolding pending_grow pending_shrink pending_settle
  pending_direction grow state = pending_grow state
  pending_direction shrink state = do
    vm ← current_vm
    if can_settle vm then pending_shrink state else pure wait
  pending_direction settle_grow state = pending_settle (codes "growth")
  pending_direction settle_shrink state = pending_settle (codes "shrink")

  unfoldable pub pending_owned : Option CommandIntent → VirtioMemState → Action Step
  unfolding pending_direction
  pending_owned none state = pure wait
  pending_owned (some intent) state = pending_direction intent.direction state

  -- `observe_pending`.
  unfoldable pub observe_pending : VirtioMemState → Action Step
  unfolding pending_owned
  observe_pending state = do
    vm ← current_vm
    pending_owned
        (filter_option (λ intent. intent.target_bytes == state.requested_bytes) vm.control.intent)
        state

  unfoldable pub after_widening : Result ResizeSinkError (Unit {0}) → Action Step
  after_widening (ok _) = pure wait
  after_widening (err (command_rejected _)) = pure wait
  after_widening (err (command_unknown reason)) = do
    latch env (codes "widening the usable region failed: " ++ sink_message (command_unknown reason))
    pure (stop (resize_failed (sink_message (command_unknown reason))))

  unfoldable pub widen_device : VirtioMemState → Action (Result ResizeSinkError (Unit {0}))
  widen_device state s = (
    ok (env.widen_usable_region_guarded s.trace state),
    note (commanded widen_usable_region state) s,
  )

  unfoldable pub widen_unless : Bool → VirtioMemState → Action Step
  unfolding widen_device after_widening
  widen_unless true state = pure wait
  widen_unless false state = do
    change (λ vm. record vm { widened = true })
    command ← widen_device state
    after_widening command

  -- `widen_usable_region`.
  unfoldable pub widen : VirtioMemState → Action Step
  unfolding widen_unless
  widen state = do
    change (λ vm. record vm { widen_due = false })
    vm ← current_vm
    if is_latched vm.control || vm.config.observe_only
        then pure wait
        else (do halted ← stop_requested env; widen_unless halted state)
