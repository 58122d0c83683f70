-- ===== src/Runtime/Acting.antt =====
-- host/src/runtime.rs, `act` and `round`: every history is disciplined.
use virtio_mem_windows_servi.Prelude.{
  ℕ, ◌≡◌, refl, not, Option, Result, ok, err, Result-cases, inl, inr, ◌==◌, is_multiple_of,
}
use virtio_mem_windows_servi.VirtioMem.{validate_target}
use virtio_mem_windows_servi.MemoryRequest.{MemoryOperation, add, remove, RequestError}
use virtio_mem_windows_servi.Runtime.{
  Step, Ready, Environment, Session, Action, read_host_memory, now, stop_requested,
}
use virtio_mem_windows_servi.Runtime.Granted.{growth_target_accepted, removal_target_accepted}
use virtio_mem_windows_servi.Runtime.Act.{
  granted_target, available_bytes, grant_for, keeping, act_granted, act_valid, act,
}
use virtio_mem_windows_servi.Runtime.Holds.{
  Holds, Ensures, Same, Same-refl, Frame, Same-Frame, note-Same, step, branch, choice, quiet_step,
  now-Same, stop_requested-Same,
}
use virtio_mem_windows_servi.Runtime.Settling.{Free}
use virtio_mem_windows_servi.Runtime.Readiness.{Actable}
use virtio_mem_windows_servi.Runtime.Admitting.{Calm, Waiting-same}
use virtio_mem_windows_servi.Runtime.Executing.{
  record_unexecuted-Holds, refuse-Holds, execute-Holds,
}

-- `Actable` looks at the control state only.
pub Frame-Actable : (r : Ready) (s t : Session) → Frame s t → Actable r s.vm → Actable r t.vm
Frame-Actable r s t f k = record {
  valid = k.valid;
  converged = k.converged;
  unlatched = rw f.control k.unlatched;
  waiting = Waiting-same r.admission r.request s.vm t.vm f.control k.waiting;
}

module _ (env : Environment) where
  -- The grant leads to a target that the device accepts.
  grant_for-accepted :
      (o : MemoryOperation) (r : Ready) (ceiling : Option ℕ) (committed : ℕ) (s : Session)
      → Holds s
      → Actable r s.vm
      → Ensures
          (λ grant t.
            Same s t
            × (validate_target r.state (granted_target o r.state.current_bytes grant) ≡ ok tt))
          (grant_for env o r ceiling committed s)
  unfolding grant_for available_bytes granted_target
  grant_for-accepted remove r ceiling committed s h k =
      (Same-refl s, removal_target_accepted s.vm.config r.base_ram r.state r.request.bytes k.valid)
  grant_for-accepted add r ceiling committed s h k =
      let same = note-Same read_host_memory s refl in
      elim (Result-cases (env.available_bytes s.trace)) [
        | inr (m, e) ↦ rw e (same.kept h.commands)
        | inl (available, e) ↦ rw e (
          same,
          growth_target_accepted s.vm.config r.base_ram r.state r.request.bytes ceiling available
              committed k.valid,
        )
      ]

  kept_step :
      (committed : ℕ) (m : Action Step) (s : Session)
      → Ensures (λ _ t. Holds t) (m s)
      → Ensures (λ _ t. Holds t) (keeping env committed m s)
  unfolding keeping
  kept_step committed m s h = step (λ _ t. Holds t) (λ _ t. Holds t) (m s) _ h (λ _ t k. k)

  act_granted-Holds :
      (r : Ready) (committed at grant : ℕ) (s : Session)
      → Holds s
      → Actable r s.vm
      → validate_target r.state (granted_target r.request.operation r.state.current_bytes grant)
        ≡ ok tt
      → Ensures (λ _ t. Holds t) (act_granted env r committed at grant s)
  unfolding act_granted
  act_granted-Holds r committed at grant s h k v =
      let calm : Calm s = record { holds = h; unlatched = k.unlatched } in
      choice (λ _ t. Holds t) _ _ s s.vm.config.observe_only
        (λ y. kept_step committed _ s (refuse-Holds env r.state r.request r.admission _ s calm))
        (λ n.
          branch (λ _ t. Holds t) _ _ s
            (kept_step committed _ s (record_unexecuted-Holds env r.state r.admission _ s calm))
            (quiet_step (λ _ t. Holds t) s (stop_requested env s) _ (stop_requested-Same env s)
              h.commands
              (λ halted t same.
                let f = Same-Frame s t same in
                let free : Free t = record {
                  holds = same.holds h;
                  unlatched = rw f.control k.unlatched;
                  active = rw f.config n;
                } in
                branch (λ _ u. Holds u) _ _ t (same.holds h)
                  (execute-Holds env r committed at
                    (granted_target r.request.operation r.state.current_bytes grant) t free
                    (Frame-Actable r s t f k) v)
                  halted))
            (grant == 0))

  act_valid-Holds :
      (r : Ready) (ceiling : Option ℕ) (committed at : ℕ) (checked : Result RequestError (Unit {0}))
      (s : Session)
      → Holds s
      → Actable r s.vm
      → Ensures (λ _ t. Holds t) (act_valid env r ceiling committed at checked s)
  unfolding act_valid
  act_valid-Holds r ceiling committed at (err e) s h k = kept_step committed _ s (
      refuse-Holds env r.state r.request r.admission _ s
        (record { holds = h; unlatched = k.unlatched }))
  act_valid-Holds r ceiling committed at (ok _) s h k =
      branch (λ _ t. Holds t) _ _ s
        (kept_step committed _ s (
          refuse-Holds env r.state r.request r.admission _ s
            (record { holds = h; unlatched = k.unlatched })))
        (step
          (λ grant t.
            Same s t
            × (validate_target r.state
                  (granted_target r.request.operation r.state.current_bytes grant)
                ≡ ok tt))
          (λ _ t. Holds t) (grant_for env r.request.operation r ceiling committed s) _
          (grant_for-accepted r.request.operation r ceiling committed s h k)
          (λ grant t (same, v).
            act_granted-Holds r committed at grant t (same.holds h)
              (Frame-Actable r s t (Same-Frame s t same) k) v))
        (not (is_multiple_of r.request.bytes r.state.block_size_bytes))

  pub act-Holds :
      (r : Ready) (ceiling : Option ℕ) (committed : ℕ) (s : Session)
      → Holds s
      → Actable r s.vm
      → Ensures (λ _ t. Holds t) (act env r ceiling committed s)
  unfolding act
  act-Holds r ceiling committed s h k =
      quiet_step (λ _ t. Holds t) s (now env s) _ (now-Same env s) h.commands
        (λ at t same.
          act_valid-Holds r ceiling committed at _ t (same.holds h)
            (Frame-Actable r s t (Same-Frame s t same) k))
