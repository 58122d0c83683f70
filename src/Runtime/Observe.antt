-- ===== src/Runtime/Observe.antt =====
-- host/src/runtime.rs, `observe`, `observe_stopped`, `stop` and `pool_member`: one VM's reading of a round.
use virtio_mem_windows_servi.Prelude.{
  ℕ, ◌-◌, true, false, Option, none, some, Result, ok, err, Text, codes, ◌++◌, ◌==◌, if◌then◌else◌,
  is_some, min, max, checked_sub, saturating_add,
}
use virtio_mem_windows_servi.VirtioMem.{VirtioMemState, min_block_size_bytes}
use virtio_mem_windows_servi.VirtioMem
use virtio_mem_windows_servi.MemoryRequest.{
  MemoryOperation, add, remove, MemoryRequest, RequestError, rejection,
}
use virtio_mem_windows_servi.Journal.{MemoryRequestJournal, RequestAdmission, new, replay, admit}
use virtio_mem_windows_servi.Telemetry.{RawTelemetryEnvelope}
use virtio_mem_windows_servi.Pool.{PoolMember}
use virtio_mem_windows_servi.Checkpoint.{CommandIntent, is_latched}
use virtio_mem_windows_servi.Messages.{device_message, request_message}
use virtio_mem_windows_servi.Runtime.{
  Step, wait, stop, Ready, Observed, held, ready, stopping, VmController, Environment, read_state,
  read_guest, note, Action, pure, change, ◌>>=◌, ◌>>◌, now,
}
use virtio_mem_windows_servi.Runtime.Control.{current_vm, publish, latch, resolve_intent}
use virtio_mem_windows_servi.Runtime.Pending.{observe_pending, widen}
use virtio_mem_windows_servi.Runtime.Grant.{guest_room}

-- The target of the recorded command, `map_or(0, ..)`.
unfoldable pub intent_target : Option CommandIntent → ℕ
intent_target none = 0
intent_target (some intent) = intent.target_bytes

-- What the VM may hold once its commands end.
unfoldable pub pool_charge : Option CommandIntent → VirtioMemState → ℕ
unfolding intent_target
pool_charge intent state =
    max (max state.requested_bytes state.current_bytes) (intent_target intent)

-- The growth that is still to come.
unfoldable pub outstanding : Option CommandIntent → VirtioMemState → ℕ
unfolding intent_target
outstanding intent state = max state.requested_bytes (intent_target intent) - state.current_bytes

abbrev pub charged : VirtioMemState → VmController → VmController
charged state vm = record vm {
  outstanding_growth = some (outstanding vm.control.intent state);
  last_charge = some (pool_charge vm.control.intent state, state.block_size_bytes);
}

unfoldable pub checked_state : Result Text VirtioMemState → Result Text VirtioMemState
checked_state (err message) = err message
checked_state (ok state) = elim (VirtioMem.validate state) [
  | ok _ ↦ ok state
  | err e ↦ err (device_message e)
]

unfoldable pub latch_text : Option Text → Text
latch_text none = codes ""
latch_text (some reason) = reason

-- `wanted` of a request that is ready.
unfoldable pub wanted_bytes : MemoryOperation → VmController → Ready → ℕ
wanted_bytes add vm r = min r.request.bytes (guest_room vm.config r.base_ram r.state)
wanted_bytes remove vm r = 0

unfoldable pub charge_or_pool : Option (ℕ × ℕ) → ℕ → ℕ × ℕ
charge_or_pool none pool_bytes = (pool_bytes, min_block_size_bytes)
charge_or_pool (some charge) pool_bytes = charge

abbrev pub member_of : ℕ → ℕ → ℕ → ℕ → PoolMember
member_of priority charged_bytes block_bytes wanted = record {
  priority = priority;
  charged_bytes = charged_bytes;
  desired_bytes = saturating_add charged_bytes wanted;
  block_bytes = block_bytes;
}

-- `pool_member`.
unfoldable pub pool_member : VmController → Observed → ℕ → PoolMember
unfolding charge_or_pool wanted_bytes
pool_member vm (held charge) pool_bytes =
    let (bytes, block) = charge_or_pool charge pool_bytes in
    member_of vm.config.priority bytes block 0
pool_member vm (stopping _) pool_bytes =
    member_of vm.config.priority pool_bytes min_block_size_bytes 0
pool_member vm (ready r) pool_bytes =
    member_of vm.config.priority r.state.current_bytes r.state.block_size_bytes
      (wanted_bytes r.request.operation vm r)

unfoldable pub unless_stopped : Step → Action Observed → Action Observed
unless_stopped wait m = m
unless_stopped (stop e) m = pure (stopping e)

unfoldable pub charge_stopped : Result Text VirtioMemState → Action (Unit {0})
charge_stopped (err _) = pure tt
charge_stopped (ok state) = change (charged state)

module _ (env : Environment) where
  -- `live_state`.
  unfoldable pub live_state : Action (Result Text VirtioMemState)
  unfolding checked_state
  live_state s = (ok (checked_state (env.memory_state s.trace)), note read_state s)

  unfoldable pub unreadable : Text → Option CommandIntent → Action (Unit {0})
  unreadable message none = pure tt
  unreadable message (some intent) =
      latch env (codes "live state unavailable during an owned operation: " ++ message)

  unfoldable pub refuse_observed :
      VirtioMemState → Option (ℕ × ℕ) → MemoryRequest → ℕ → Text → Action Observed
  refuse_observed state charge request observed refusal = do
    publish env state (some (rejection request observed refusal))
    pure (held charge)

  unfoldable pub held_published : VirtioMemState → Option (ℕ × ℕ) → Action Observed
  held_published state charge = do publish env state none; pure (held charge)

  -- The `match` on a trial admission.
  unfoldable pub admitted :
      Ready
      → Option (ℕ × ℕ)
      → ℕ
      → Result RequestError (MemoryRequestJournal × RequestAdmission)
      → Action Observed
  unfolding refuse_observed held_published latch_text
  admitted r charge observed (err e) =
      refuse_observed r.state charge r.request observed (request_message e)
  admitted r charge observed (ok (_, replay)) = do
    vm ← current_vm
    if is_some vm.control.journal.result
        then held_published r.state charge
        else pure (ready (record r { admission = replay }))
  admitted r charge observed (ok (_, new)) = do
    vm ← current_vm
    if is_latched vm.control
        then refuse_observed r.state charge r.request observed
            (codes "automatic actuation is latched: " ++ latch_text vm.control.latch_reason)
        else pure (ready (record r { admission = new }))

  unfoldable pub consider :
      VirtioMemState → Option (ℕ × ℕ) → ℕ → Option MemoryRequest → Action Observed
  unfolding admitted held_published
  consider state charge base_ram none = held_published state charge
  consider state charge base_ram (some request) = do
    observed ← now env
    vm ← current_vm
    admitted (record { base_ram = base_ram; state = state; request = request; admission = new })
        charge observed
        (admit vm.config.vm_name vm.config.raw_telemetry_service_name observed
          vm.config.raw_telemetry_future_tolerance vm.control.journal request)

  unfoldable pub from_base :
      VirtioMemState → Option (ℕ × ℕ) → Option MemoryRequest → Option ℕ → Action Observed
  unfolding consider held_published
  from_base state charge request none = held_published state charge
  from_base state charge request (some base) = consider state charge base request

  unfoldable pub from_guest :
      VirtioMemState → Option (ℕ × ℕ) → Result Text RawTelemetryEnvelope → Action Observed
  unfolding consider from_base
  from_guest state charge (err _) = consider state charge 0 none
  from_guest state charge (ok e) =
      from_base state charge e.request
        (checked_sub e.memory.physical_total_bytes state.current_bytes)

  -- From the converged device on.
  unfoldable pub observe_converged : VirtioMemState → Option (ℕ × ℕ) → Action Observed
  unfolding from_guest unless_stopped
  observe_converged state charge = do
    change (λ vm. record vm {
      pending_since = none;
      pending_progress = none;
      widened = if state.current_bytes == 0 then false else vm.widened;
    })
    vm ← current_vm
    step ← if vm.widen_due then widen env state else pure wait
    unless_stopped step (do
      guest ← (λ s. (ok (env.read s.trace), note read_guest s))
      from_guest state charge guest)

  unfoldable pub observe_live : Result Text VirtioMemState → Action Observed
  unfolding unreadable observe_converged
  observe_live (err message) = do
    vm ← current_vm
    unreadable message vm.control.intent
    vm' ← current_vm
    pure (held vm'.last_charge)
  observe_live (ok state) = do
    change (charged state)
    vm ← current_vm
    resolve_intent env state
    if state.requested_bytes == state.current_bytes
        then observe_converged state vm.last_charge
        else (do
          step ← observe_pending env state
          publish env state none
          unless_stopped step (pure (held vm.last_charge)))

  -- `observe`.
  unfoldable pub observe : Action Observed
  unfolding observe_live
  observe = do live ← live_state; observe_live live

  -- `observe_stopped`.
  unfoldable pub observe_stopped : Action Observed
  unfolding charge_stopped
  observe_stopped = do
    live ← live_state
    charge_stopped live
    vm ← current_vm
    pure (held vm.last_charge)

-- `VmController::stop`.
abbrev pub mark_stopped : VmController → VmController
mark_stopped vm = record vm { stopped = true }
