-- ===== src/Runtime/Act.antt =====
-- host/src/runtime.rs, `act` with `refuse` and `record_unexecuted`: the grant and its execution on a
-- converged device.
use virtio_mem_windows_servi.Prelude.{
  ℕ, ◌+◌, ◌-◌, not, Option, none, some, ◌∷◌, Result, ok, err, map_err, Text, codes, ◌++◌, decimal,
  ◌==◌, if◌then◌else◌, is_multiple_of, saturating_add,
}
use virtio_mem_windows_servi.Config.{HostConfig}
use virtio_mem_windows_servi.VirtioMem.{VirtioMemState}
use virtio_mem_windows_servi.MemoryRequest.{
  MemoryOperation, add, remove, MemoryRequest, MemoryResult, pool_empty, RequestError, rejection,
  validate_at,
}
use virtio_mem_windows_servi.Journal.{RequestAdmission, new, replay}
use virtio_mem_windows_servi.Status.{CommandDirection, grow, shrink}
use virtio_mem_windows_servi.HostMemory.{validate_grow_headroom}
use virtio_mem_windows_servi.Messages.{request_message}
use virtio_mem_windows_servi.Runtime.{
  ResizeSinkError, command_rejected, command_unknown, host_memory, resize_failed, Step, wait, stop,
  Ready, Environment, request_resize, read_host_memory, commanded, note, Action, pure, change,
  ◌>>=◌, ◌>>◌, now, stop_requested, instant_now, save,
}
use virtio_mem_windows_servi.Runtime.Control.{
  current_vm, with_intent, next_operation_id, journal_result, admit_if_new, publish, latch,
}
use virtio_mem_windows_servi.Runtime.Settle.{sink_message}
use virtio_mem_windows_servi.Runtime.Grant.{growth_grant, removal_grant}

unfoldable pub granted_direction : MemoryOperation → CommandDirection
granted_direction add = grow
granted_direction remove = shrink

unfoldable pub granted_target : MemoryOperation → ℕ → ℕ → ℕ
granted_target add current grant = current + grant
granted_target remove current grant = current - grant

unfoldable pub nothing_granted : MemoryOperation → MemoryRequest → ℕ → MemoryResult
unfolding rejection
nothing_granted add request observed = record {
  request = request;
  outcome = pool_empty;
  actual_bytes = 0;
  observed_unix_millis = observed;
  reason = some (codes "no free pool, device or host-reserve bytes remain");
}
nothing_granted remove request observed =
    rejection request observed (codes "the device has no plugged memory to remove")

-- The `authorize` closure, from its read of the available memory.
unfoldable pub authorize : Result Text ℕ → ℕ → ℕ → ℕ → ℕ → Result Text (Unit {0})
authorize (err message) committed current target headroom = err message
authorize (ok available) committed current target headroom =
    validate_grow_headroom current target (available - committed) headroom

module _ (env : Environment) where
  -- `record_unexecuted`.
  unfoldable pub record_unexecuted : VirtioMemState → RequestAdmission → MemoryResult → Action Step
  record_unexecuted state admission result = do
    admit_if_new admission result.request result.observed_unix_millis
    journal_result result
    save env
    publish env state none
    pure wait

  unfoldable pub refuse_at : VirtioMemState → RequestAdmission → MemoryResult → Action Step
  refuse_at state new result = do publish env state (some result); pure wait
  refuse_at state replay result = record_unexecuted state replay result

  -- `refuse`.
  unfoldable pub refuse : VirtioMemState → MemoryRequest → RequestAdmission → Text → Action Step
  unfolding refuse_at
  refuse state request admission reason = do
    observed ← now env
    refuse_at state admission (rejection request observed reason)

  unfoldable pub available_bytes : Action ℕ
  available_bytes s = (map_err host_memory (env.available_bytes s.trace), note read_host_memory s)

  unfoldable pub grant_for : MemoryOperation → Ready → Option ℕ → ℕ → Action ℕ
  unfolding available_bytes
  grant_for add r ceiling committed = do
    available ← available_bytes
    vm ← current_vm
    pure (growth_grant vm.config r.base_ram r.state r.request.bytes ceiling available committed)
  grant_for remove r ceiling committed = do
    vm ← current_vm
    pure (removal_grant vm.config r.base_ram r.state r.request.bytes)

  -- The sink's command; `authorize` reads the available memory again.
  unfoldable pub resize_device :
      HostConfig → VirtioMemState → ℕ → ℕ → Action (Result ResizeSinkError (Unit {0}))
  resize_device config state target committed s =
      let checked =
        authorize (env.available_bytes s.trace) committed state.current_bytes target
          config.host_min_headroom_bytes in
      (
        ok (env.request_resize_guarded (read_host_memory ∷ s.trace) state target checked),
        note (commanded (request_resize target) state) (note read_host_memory s),
      )

  unfoldable pub unknown_outcome : MemoryOperation → Text → Step
  unknown_outcome add message = stop (resize_failed message)
  unknown_outcome remove message = wait

  unfoldable pub after_resize : Ready → ℕ → Result ResizeSinkError (Unit {0}) → Action Step
  unfolding unknown_outcome
  after_resize r at (ok _) = do
    since ← instant_now env
    change (λ vm. record vm { pending_since = some since })
    publish env r.state none
    pure wait
  after_resize r at (err (command_rejected reason)) = do
    change (λ vm. record (with_intent none vm) { outstanding_growth = some 0 })
    record_unexecuted r.state replay (rejection r.request at reason)
  after_resize r at (err (command_unknown reason)) = do
    let message = sink_message (command_unknown reason)
    latch env (codes "resize command failed: " ++ message)
    publish env r.state none
    pure (unknown_outcome r.request.operation message)

  -- From the intent to the end of `act`: the step and the bytes that the round has committed.
  unfoldable pub execute : Ready → ℕ → ℕ → ℕ → Action (Step × ℕ)
  execute r committed at target = do
    id ← next_operation_id env.process_id
    admit_if_new r.admission r.request at
    change (
        with_intent (
          some (record {
            operation_id = id;
            started_unix_millis = at;
            direction = granted_direction r.request.operation;
            prior_requested_bytes = r.state.requested_bytes;
            prior_current_bytes = r.state.current_bytes;
            target_bytes = target;
          })))
    save env
    let growth = target - r.state.current_bytes
    change (λ vm. record vm { outstanding_growth = some growth })
    vm ← current_vm
    command ← resize_device vm.config r.state target committed
    step ← after_resize r at command
    pure (step, saturating_add committed growth)

  unfoldable pub keeping : ℕ → Action Step → Action (Step × ℕ)
  keeping committed m = do step ← m; pure (step, committed)

  unfoldable pub act_granted : Ready → ℕ → ℕ → ℕ → Action (Step × ℕ)
  act_granted r committed at grant = do
    vm ← current_vm
    if vm.config.observe_only
        then keeping committed (
            refuse r.state r.request r.admission
              (codes "observe_only: would grant " ++ (decimal grant ++ codes " bytes")))
        else if grant == 0
        then keeping committed (
            record_unexecuted r.state r.admission
              (nothing_granted r.request.operation r.request at))
        else (do
          halted ← stop_requested env
          if halted
              then pure (wait, committed)
              else execute r committed at
                  (granted_target r.request.operation r.state.current_bytes grant))

  unfoldable pub act_valid :
      Ready → Option ℕ → ℕ → ℕ → Result RequestError (Unit {0}) → Action (Step × ℕ)
  act_valid r ceiling committed at (err e) =
      keeping committed (refuse r.state r.request r.admission (request_message e))
  act_valid r ceiling committed at (ok _) =
      if not (is_multiple_of r.request.bytes r.state.block_size_bytes)
      then keeping committed (
          refuse r.state r.request r.admission
            (codes "request is not a multiple of the device block size"))
      else (do
        grant ← grant_for r.request.operation r ceiling committed
        act_granted r committed at grant)

  -- `act`, with the bytes committed so far in the round.
  unfoldable pub act : Ready → Option ℕ → ℕ → Action (Step × ℕ)
  act r ceiling committed = do
    at ← now env
    vm ← current_vm
    act_valid r ceiling committed at (
        validate_at r.request vm.config.vm_name vm.config.raw_telemetry_service_name at
          vm.config.raw_telemetry_future_tolerance)
