-- ===== src/Runtime/Extend.antt =====
-- host/src/runtime.rs, `extend_shrink`: lowering the target of a shrink that stands still.
use virtio_mem_windows_servi.Prelude.{
  ℕ, ◌-◌, ◌/◌, Option, none, some, Result, ok, err, codes, ◌++◌, leb, if◌then◌else◌,
}
use virtio_mem_windows_servi.VirtioMem.{VirtioMemState}
use virtio_mem_windows_servi.Status.{shrink}
use virtio_mem_windows_servi.Checkpoint.{CommandIntent}
use virtio_mem_windows_servi.Runtime.{
  ResizeSinkError, command_rejected, command_unknown, Step, wait, Environment, Action, pure, change,
  ◌>>=◌, ◌>>◌, stop_requested, instant_now, save,
}
use virtio_mem_windows_servi.Runtime.Control.{current_vm, with_intent, latch}
use virtio_mem_windows_servi.Runtime.Extension.{
  extension_floor, asked_bytes, extension_goal, extension_step, step_bytes, extension_target,
}
use virtio_mem_windows_servi.Runtime.Settle.{sink_message, retarget, retarget_device, settle_short}

module _ (env : Environment) where
  unfoldable pub after_extension :
      VirtioMemState → CommandIntent → Result ResizeSinkError (Unit {0}) → Action Step
  after_extension state intent (ok _) = pure wait
  after_extension state intent (err (command_rejected _)) = do
    change (with_intent (some (retarget intent state.requested_bytes)))
    save env
    pure wait
  after_extension state intent (err (command_unknown reason)) = do
    latch env (codes "extending a shrink failed: " ++ sink_message (command_unknown reason))
    pure wait

  unfoldable pub extend_now : VirtioMemState → CommandIntent → ℕ → ℕ → Action Step
  unfolding after_extension
  extend_now state intent target blocks = do
    change (with_intent (some (retarget intent target)))
    save env
    change (λ vm. record vm {
      pending_progress = none;
      extension = some (intent.operation_id, state.current_bytes, blocks);
    })
    command ← retarget_device env state target
    after_extension state intent command

  unfoldable pub idle_since : VirtioMemState → ℕ → Option (ℕ × ℕ) → Action Step
  idle_since state timeout none = pure wait
  idle_since state timeout (some (_, since)) = do
    at ← instant_now env
    if leb timeout (at - since) then settle_short env shrink state else pure wait

  unfoldable pub extend_to : VirtioMemState → CommandIntent → ℕ → Option ℕ → Action Step
  unfolding idle_since extend_now
  extend_to state intent blocks none = do
    vm ← current_vm
    idle_since state vm.config.convergence_timeout vm.pending_progress
  extend_to state intent blocks (some target) = do
    halted ← stop_requested env
    if halted then pure wait else extend_now state intent target blocks

  unfoldable pub extend_from : VirtioMemState → ℕ → Option CommandIntent → Action Step
  unfolding extend_to
  extend_from state base_ram none = pure wait
  extend_from state base_ram (some intent) = do
    vm ← current_vm
    let block = state.block_size_bytes
    let floor = extension_floor vm.config base_ram block
    let goal =
        extension_goal intent.prior_current_bytes (asked_bytes vm.control.journal.request) block
          floor
    let step = extension_step vm.extension intent.operation_id state.current_bytes block
    let bytes = step_bytes step state.current_bytes goal block
    if leb state.current_bytes goal then settle_short env shrink state else (do
      change (λ vm'. record vm' { extension = none })
      extend_to state intent (bytes / block) (extension_target state.requested_bytes bytes floor))

  -- `extend_shrink`.
  unfoldable pub extend_shrink : VirtioMemState → ℕ → Action Step
  unfolding extend_from
  extend_shrink state base_ram = do vm ← current_vm; extend_from state base_ram vm.control.intent
