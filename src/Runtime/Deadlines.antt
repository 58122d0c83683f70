-- ===== src/Runtime/Deadlines.antt =====
-- host/src/runtime.rs, `command_stalled` and `pending_elapsed`: the clocks that bound a pending command.
use virtio_mem_windows_servi.Prelude.{
  ℕ, ◌-◌, Bool, true, false, ◌||◌, Option, none, some, Result, ok, err, Text, min, leb, ltb, ◌==◌,
  if◌then◌else◌,
}
use virtio_mem_windows_servi.VirtioMem.{VirtioMemState}
use virtio_mem_windows_servi.Checkpoint.{CommandIntent}
use virtio_mem_windows_servi.Runtime.{
  Environment, read_unix_clock, note, Action, pure, change, ◌>>=◌, ◌>>◌, instant_now,
}
use virtio_mem_windows_servi.Runtime.Control.{current_vm}

-- The durable half of `pending_elapsed`: an unreadable clock or one before the start counts as elapsed.
unfoldable pub durable_elapsed : ℕ → ℕ → Result Text ℕ → Bool
durable_elapsed started timeout (err _) = true
durable_elapsed started timeout (ok observed) =
    ltb observed started || leb timeout (observed - started)

module _ (env : Environment) where
  unfoldable pub restart_progress : VirtioMemState → Action Bool
  restart_progress state = do
    since ← instant_now env
    change (λ vm. record vm { pending_progress = some (state.current_bytes, since) })
    pure false

  unfoldable pub stalled_since : VirtioMemState → ℕ → Option (ℕ × ℕ) → Action Bool
  unfolding restart_progress
  stalled_since state bound none = restart_progress state
  stalled_since state bound (some (current, since)) =
      if current == state.current_bytes
      then (do at ← instant_now env; pure (leb bound (at - since)))
      else restart_progress state

  -- `command_stalled`.
  unfoldable pub command_stalled : VirtioMemState → Action Bool
  unfolding stalled_since
  command_stalled state = do
    vm ← current_vm
    stalled_since state (min vm.config.poll_interval vm.config.convergence_timeout)
        vm.pending_progress

  -- `get_or_insert_with(Instant::now)`.
  unfoldable pub pending_start : Option ℕ → Action ℕ
  pending_start (some since) = pure since
  pending_start none = do
    since ← instant_now env
    change (λ vm. record vm { pending_since = some since })
    pure since

  unfoldable pub process_elapsed : ℕ → Bool → Action Bool
  unfolding pending_start
  process_elapsed timeout true = pure true
  process_elapsed timeout false = do
    vm ← current_vm
    since ← pending_start vm.pending_since
    at ← instant_now env
    pure (leb timeout (at - since))

  unfoldable pub clock : Action (Result Text ℕ)
  clock s = (ok (env.now_unix_millis s.trace), note read_unix_clock s)

  unfoldable pub elapsed_from : ℕ → Option CommandIntent → Action Bool
  unfolding durable_elapsed process_elapsed clock
  elapsed_from timeout none = pure true
  elapsed_from timeout (some intent) = do
    observed ← clock
    process_elapsed timeout (durable_elapsed intent.started_unix_millis timeout observed)

  -- `pending_elapsed`.
  unfoldable pub pending_elapsed : Action Bool
  unfolding elapsed_from
  pending_elapsed = do vm ← current_vm; elapsed_from vm.config.convergence_timeout vm.control.intent
