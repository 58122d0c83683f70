-- ===== src/Runtime/Settle.antt =====
-- host/src/runtime.rs, `settle_short`: requesting a pending command's current allocation, which ends it.
use virtio_mem_windows_servi.Prelude.{
  ℕ, Option, none, some, Result, ok, err, Text, codes, ◌++◌, if◌then◌else◌,
}
use virtio_mem_windows_servi.VirtioMem.{VirtioMemState}
use virtio_mem_windows_servi.Status.{CommandDirection, grow, shrink, settle_grow, settle_shrink}
use virtio_mem_windows_servi.Checkpoint.{CommandIntent}
use virtio_mem_windows_servi.Runtime.{
  ResizeSinkError, command_rejected, command_unknown, Step, wait, Environment, retarget_pending,
  commanded, note, Action, pure, change, ◌>>=◌, ◌>>◌, now, stop_requested, save,
}
use virtio_mem_windows_servi.Runtime.Control.{current_vm, with_intent, next_operation_id, latch}

-- `Display` of `ResizeSinkError`.
unfoldable pub sink_message : ResizeSinkError → Text
sink_message (command_rejected reason) =
    codes "resize rejected before command execution: " ++ reason
sink_message (command_unknown reason) = codes "resize command outcome is unknown: " ++ reason

-- `Debug` of `CommandDirection`.
unfoldable pub direction_name : CommandDirection → Text
direction_name grow = codes "Grow"
direction_name shrink = codes "Shrink"
direction_name settle_shrink = codes "SettleShrink"
direction_name settle_grow = codes "SettleGrow"

unfoldable pub settle_direction : CommandDirection → CommandDirection
settle_direction grow = settle_grow
settle_direction shrink = settle_shrink
settle_direction settle_shrink = settle_shrink
settle_direction settle_grow = settle_shrink

unfoldable pub prior_current : Option CommandIntent → ℕ → ℕ
prior_current none current = current
prior_current (some intent) current = intent.prior_current_bytes

abbrev pub retarget : CommandIntent → ℕ → CommandIntent
retarget intent target = record intent { target_bytes = target }

module _ (env : Environment) where
  unfoldable pub retarget_device : VirtioMemState → ℕ → Action (Result ResizeSinkError (Unit {0}))
  retarget_device state target s = (
    ok (env.retarget_pending_guarded s.trace state target),
    note (commanded (retarget_pending target) state) s,
  )

  unfoldable pub after_settle : CommandDirection → Result ResizeSinkError (Unit {0}) → Action Step
  after_settle direction (ok _) = pure wait
  after_settle direction (err e) = do
    latch env (
        codes "settling a short "
        ++ (direction_name direction ++ (codes " failed: " ++ sink_message e)))
    pure wait

  unfoldable pub settle_now : CommandDirection → VirtioMemState → Action Step
  unfolding after_settle
  settle_now direction state = do
    id ← next_operation_id env.process_id
    started ← now env
    vm ← current_vm
    change (
        with_intent (
          some (record {
            operation_id = id;
            started_unix_millis = started;
            direction = settle_direction direction;
            prior_requested_bytes = state.requested_bytes;
            prior_current_bytes = prior_current vm.control.intent state.current_bytes;
            target_bytes = state.current_bytes;
          })))
    save env
    change (λ vm'. record vm' { pending_since = none })
    command ← retarget_device state state.current_bytes
    after_settle direction command

  -- `settle_short`.
  unfoldable pub settle_short : CommandDirection → VirtioMemState → Action Step
  unfolding settle_now
  settle_short direction state = do
    halted ← stop_requested env
    if halted then pure wait else settle_now direction state
