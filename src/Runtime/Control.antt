-- ===== src/Runtime/Control.antt =====
-- host/src/runtime.rs, the steps that the methods of `VmController` share: publishing, latching, finishing
-- a recorded command, and the deadlines.
use virtio_mem_windows_servi.Prelude.{
  ℕ, Bool, true, false, ◌&&◌, ◌||◌, not, Option, none, some, Result, ok, err, map_err, Text, codes,
  ◌++◌, decimal, ◌==◌, saturating_add,
}
use virtio_mem_windows_servi.VirtioMem.{VirtioMemState}
use virtio_mem_windows_servi.MemoryRequest.{
  memory_request_version, MemoryRequest, MemoryResult, HostMemoryStatus, uncertain,
}
use virtio_mem_windows_servi.Journal.{
  MemoryRequestJournal, RequestAdmission, new, replay, admit, record_result, bounded_reason,
}
use virtio_mem_windows_servi.Status.{
  CommandDirection, grow, shrink, settle_grow, settle_shrink, CommandOwnership, unowned,
  owned_pending, owned_converged_unresolved, unowned_pending, recorded_not_applied, conflict,
}
use virtio_mem_windows_servi.Checkpoint.{
  CommandIntent, is_latched, command_ownership, movement_result,
}
use virtio_mem_windows_servi.Messages.{request_message}
use virtio_mem_windows_servi.Runtime.{
  HostRuntimeError, controller, convergence_timeout, VmController, Environment, read_unix_clock,
  published, note, Action, pure, try, look, change, ◌>>=◌, ◌>>◌, now, save,
}

abbrev pub with_journal : MemoryRequestJournal → VmController → VmController
with_journal journal vm = record vm { control = record vm.control { journal = journal } }

abbrev pub with_intent : Option CommandIntent → VmController → VmController
with_intent intent vm = record vm { control = record vm.control { intent = intent } }

abbrev pub with_latch : Text → VmController → VmController
with_latch reason vm = record vm { control = record vm.control { latch_reason = some reason } }

abbrev pub current_vm : Action VmController
current_vm = look (λ vm. vm)

unfoldable pub or_else {ℓ} : {A : Type ℓ} → Option A → Option A → Option A
or_else none b = b
or_else (some a) b = some a

unfoldable pub status_of :
    VmController → VirtioMemState → Option MemoryResult → ℕ → HostMemoryStatus
unfolding or_else
status_of vm state refusal observed = record {
  version = memory_request_version;
  vm_name = vm.config.vm_name;
  service_name = vm.config.raw_telemetry_service_name;
  device_alias = vm.config.alias;
  observed_unix_millis = observed;
  device_size_bytes = state.size_bytes;
  block_size_bytes = state.block_size_bytes;
  requested_bytes = state.requested_bytes;
  current_bytes = state.current_bytes;
  result = or_else refusal vm.control.journal.result;
}

-- `journal.record_result(result)`.
unfoldable pub journal_result : MemoryResult → Action (Unit {0})
journal_result result = do
  vm ← current_vm
  journal ←
      try (map_err (λ e. controller (request_message e)) (record_result vm.control.journal result))
  change (with_journal journal)

-- `if admission == New { journal.admit(..) }`.
unfoldable pub admit_if_new : RequestAdmission → MemoryRequest → ℕ → Action (Unit {0})
admit_if_new replay request observed = pure tt
admit_if_new new request observed = do
  vm ← current_vm
  admitted ← try (
      map_err (λ e. controller (request_message e))
        (admit vm.config.vm_name vm.config.raw_telemetry_service_name observed
          vm.config.raw_telemetry_future_tolerance vm.control.journal request))
  change (with_journal admitted.0)

abbrev pub uncertain_result : MemoryRequest → ℕ → Text → MemoryResult
uncertain_result request observed reason = record {
  request = request;
  outcome = uncertain;
  actual_bytes = 0;
  observed_unix_millis = observed;
  reason = some reason;
}

-- `next_operation_id`; the text is of the counter after its increment.
unfoldable pub next_operation_id : ℕ → Action Text
next_operation_id process_id = do
  change (λ vm. record vm { operation_counter = saturating_add vm.operation_counter 1 })
  vm ← current_vm
  pure (decimal process_id ++ (codes "-" ++ decimal vm.operation_counter))

unfoldable pub short_reason : CommandDirection → Option Text
short_reason settle_shrink = some (codes "the guest returned only part of the removal")
short_reason settle_grow = some (codes "the guest plugged only part of the addition")
short_reason grow = none
short_reason shrink = none

unfoldable pub is_settle_grow : CommandDirection → Bool
is_settle_grow settle_grow = true
is_settle_grow grow = false
is_settle_grow shrink = false
is_settle_grow settle_shrink = false

unfoldable pub record_movement : CommandIntent → Option MemoryResult → Action (Unit {0})
record_movement intent none = pure tt
record_movement intent (some result) = do
  change (λ vm. record vm {
    widen_due =
        vm.widen_due
        || (is_settle_grow intent.direction && result.actual_bytes == 0 && not vm.widened);
  })
  journal_result result

module _ (env : Environment) where
  unfoldable pub publish_at :
      VirtioMemState → Option MemoryResult → Result Text ℕ → Action (Unit {0})
  publish_at state refusal (err _) s = (ok tt, note read_unix_clock s)
  publish_at state refusal (ok observed) s =
      (ok tt, note (published (status_of s.vm state refusal observed)) (note read_unix_clock s))

  -- `publish`. A failure is only logged.
  unfoldable pub publish : VirtioMemState → Option MemoryResult → Action (Unit {0})
  unfolding publish_at
  publish state refusal s = publish_at state refusal (env.now_unix_millis s.trace) s

  unfoldable pub record_uncertain :
      Text → Option MemoryRequest → Option MemoryResult → Action (Unit {0})
  record_uncertain reason none result = pure tt
  record_uncertain reason (some request) (some result) = pure tt
  record_uncertain reason (some request) none = do
    observed ← now env
    journal_result (uncertain_result request observed reason)

  -- `latch` where no latch is set.
  unfoldable pub latch_first : Text → Action (Unit {0})
  unfolding record_uncertain
  latch_first reason = do
    change (with_latch reason)
    vm ← current_vm
    record_uncertain reason vm.control.journal.request vm.control.journal.result
    save env

  unfoldable pub latch_unless : Bool → Text → Action (Unit {0})
  unfolding latch_first
  latch_unless true reason = pure tt
  latch_unless false reason = latch_first (bounded_reason reason)

  -- `latch`.
  unfoldable pub latch : Text → Action (Unit {0})
  unfolding latch_unless
  latch reason = do vm ← current_vm; latch_unless (is_latched vm.control) reason

  -- `convergence_timeout`.
  unfoldable pub exceeded_deadline : Text → Action HostRuntimeError
  exceeded_deadline operation = do
    latch (codes "owned " ++ (operation ++ codes " exceeded the convergence deadline"))
    vm ← current_vm
    pure (convergence_timeout vm.config.convergence_timeout)

  -- The branch of `resolve_intent` for a device that reached the target.
  unfoldable pub complete_intent : Option CommandIntent → VirtioMemState → Action (Unit {0})
  unfolding record_movement
  complete_intent none live = pure tt
  complete_intent (some intent) live = do
    change (with_intent none)
    observed ← now env
    vm ← current_vm
    record_movement intent
        (movement_result vm.control.journal intent live observed (short_reason intent.direction))
    save env

  unfoldable pub resolve_owned : CommandOwnership → VirtioMemState → Action (Unit {0})
  unfolding complete_intent
  resolve_owned unowned live = pure tt
  resolve_owned unowned_pending live = pure tt
  resolve_owned owned_pending live = pure tt
  resolve_owned owned_converged_unresolved live = do
    vm ← current_vm
    complete_intent vm.control.intent live
  resolve_owned recorded_not_applied live = latch (codes "recorded command was not applied")
  resolve_owned conflict live = latch (codes "recorded command result is unknown")

  -- `resolve_intent`.
  unfoldable pub resolve_intent : VirtioMemState → Action (Unit {0})
  unfolding resolve_owned
  resolve_intent live = do
    vm ← current_vm
    resolve_owned (command_ownership vm.control.intent live) live
