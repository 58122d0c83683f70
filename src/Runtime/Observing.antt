-- ===== src/Runtime/Observing.antt =====
-- host/src/runtime.rs, `observe` on every branch.
use virtio_mem_windows_servi.Prelude.{
  ℕ, ◌<◌, ◌≡◌, ◌≢◌, refl, true, false, Option, none, some, Result, ok, err, arith, Text, u64_mod,
  Bool-cases, inl, inr, if◌then◌else◌, is_some, ◌==◌,
}
use virtio_mem_windows_servi.VirtioMem.{VirtioMemState}
use virtio_mem_windows_servi.VirtioMem
use virtio_mem_windows_servi.MemoryRequest.{MemoryRequest, RequestError}
use virtio_mem_windows_servi.Journal.{MemoryRequestJournal, RequestAdmission, new, replay, admit}
use virtio_mem_windows_servi.Journal.Replay.{admit_new_only, admit_replay_only}
use virtio_mem_windows_servi.Telemetry.{RawTelemetryEnvelope}
use virtio_mem_windows_servi.Checkpoint.{CommandIntent, is_latched}
use virtio_mem_windows_servi.Runtime.{
  wait, Environment, Session, pure, read_state, read_guest, note, now,
}
use virtio_mem_windows_servi.Runtime.Control.{publish, resolve_intent}
use virtio_mem_windows_servi.Runtime.Pending.{observe_pending, widen}
use virtio_mem_windows_servi.Runtime.Observe.{
  charged, checked_state, live_state, unreadable, refuse_observed, held_published, admitted,
  consider, from_base, from_guest, observe_converged, observe_live, observe, charge_stopped,
  observe_stopped,
}
use virtio_mem_windows_servi.Runtime.Holds.{
  Holds, Ensures, change-Frame, note-Same, step, branch, quiet_step, now-Same, publish-Same,
}
use virtio_mem_windows_servi.Runtime.Resolving.{latched_Holds, resolve_intent-Holds}
use virtio_mem_windows_servi.Runtime.Polling.{observe_pending-Holds, widen-Holds}
use virtio_mem_windows_servi.Runtime.Readiness.{
  Seen, Sized, replay_unlatched, unless_stopped-Seen, checked_state-ok, charged_Holds, not_retained,
}

module _ (env : Environment) where
  published_Holds :
      (state : VirtioMemState) (charge : Option (ℕ × ℕ)) (s : Session)
      → Holds s
      → Ensures Seen (held_published env state charge s)
  unfolding held_published
  published_Holds state charge s h =
      quiet_step Seen s (publish env state none s) _ (publish-Same env s state none) h.commands
        (λ _ t same. same.holds h)

  refused_Holds :
      (state : VirtioMemState) (charge : Option (ℕ × ℕ)) (request : MemoryRequest) (at : ℕ)
      (refusal : Text) (s : Session)
      → Holds s
      → Ensures Seen (refuse_observed env state charge request at refusal s)
  unfolding refuse_observed
  refused_Holds state charge request at refusal s h =
      quiet_step Seen s (publish env state _ s) _ (publish-Same env s state _) h.commands
        (λ _ t same. same.holds h)

  module _ (state : VirtioMemState) (charge : Option (ℕ × ℕ))
      (valid : VirtioMem.validate state ≡ ok tt)
      (converged : state.requested_bytes ≡ state.current_bytes) where
    admitted-Seen :
        (base_ram at : ℕ) (request : MemoryRequest)
        (r : Result RequestError (MemoryRequestJournal × RequestAdmission)) (s : Session)
        → ((j : MemoryRequestJournal)
            → r ≡ ok (j, replay)
            → is_some s.vm.control.journal.request ≡ true)
        → ((j : MemoryRequestJournal)
            → r ≡ ok (j, new)
            → s.vm.control.journal.request ≢ some request)
        → Holds s
        → Ensures Seen (
            admitted env
              (record { base_ram = base_ram; state = state; request = request; admission = new })
              charge
              at
              r
              s)
    unfolding admitted
    admitted-Seen base_ram at request (err e) s w u h = refused_Holds state charge request at _ s h
    admitted-Seen base_ram at request (ok (j, replay)) s w u h =
        elim (Bool-cases (is_some s.vm.control.journal.result)) [
          | inl y ↦ rw y (published_Holds state charge s h)
          | inr n ↦
              let owed = replay_unlatched s.vm h.answers (w j refl) n in
              rw n (
                h,
                record {
                  valid = valid;
                  converged = converged;
                  unlatched = owed.0;
                  waiting = owed.1;
                },
              )
        ]
    admitted-Seen base_ram at request (ok (j, new)) s w u h =
        elim (Bool-cases (is_latched s.vm.control)) [
          | inl y ↦ rw y (refused_Holds state charge request at _ s h)
          | inr n ↦ rw n (
            h,
            record { valid = valid; converged = converged; unlatched = n; waiting = u j refl },
          )
        ]

    consider-Seen :
        (base_ram : ℕ) (request : Option MemoryRequest) (s : Session)
        → Holds s
        → Ensures Seen (consider env state charge base_ram request s)
    unfolding consider
    consider-Seen base_ram none s h = published_Holds state charge s h
    consider-Seen base_ram (some request) s h =
        quiet_step Seen s (now env s) _ (now-Same env s) h.commands (λ at t same.
          let c = t.vm.config in
          let service = c.raw_telemetry_service_name in
          let tolerance = c.raw_telemetry_future_tolerance in
          admitted-Seen base_ram at request
            (admit c.vm_name service at tolerance t.vm.control.journal request) t
            (λ j e.
              let held_request =
                (admit_replay_only c.vm_name service at tolerance t.vm.control.journal request j
                  e).1 in
              rw held_request refl)
            (λ j e.
              not_retained t.vm.control.journal request j
                (admit_new_only c.vm_name service at tolerance t.vm.control.journal request j e))
            (same.holds h))

    from_base-Seen :
        (request : Option MemoryRequest) (base : Option ℕ) (s : Session)
        → Holds s
        → Ensures Seen (from_base env state charge request base s)
    unfolding from_base
    from_base-Seen request none s h = published_Holds state charge s h
    from_base-Seen request (some base) s h = consider-Seen base request s h

    from_guest-Seen :
        (guest : Result Text RawTelemetryEnvelope) (s : Session)
        → Holds s
        → Ensures Seen (from_guest env state charge guest s)
    unfolding from_guest
    from_guest-Seen (err _) s h = consider-Seen 0 none s h
    from_guest-Seen (ok e) s h = from_base-Seen e.request _ s h

    read_guest-Seen :
        (s : Session)
        → Holds s
        → Ensures Seen (from_guest env state charge (env.read s.trace) (note read_guest s))
    read_guest-Seen s h =
        from_guest-Seen (env.read s.trace) (note read_guest s)
          ((note-Same read_guest s refl).holds h)

    observe_converged-Seen :
        (s : Session) → Holds s → Ensures Seen (observe_converged env state charge s)
    unfolding observe_converged
    observe_converged-Seen s h =
        let s' : Session = record s {
          vm = record s.vm {
            pending_since = none;
            pending_progress = none;
            widened = if state.current_bytes == 0 then false else s.vm.widened;
          };
        } in
        let h' = (change-Frame s s'.vm refl refl).holds h in
        step (λ _ t. Holds t) Seen ((if s.vm.widen_due then widen env state else pure wait) s') _
          (branch (λ _ t. Holds t) (widen env state) (pure wait) s'
            (widen-Holds env state valid s' converged h') h' s.vm.widen_due)
          (λ st t k. unless_stopped-Seen st _ t k (read_guest-Seen t k))

  unreadable-Holds :
      (message : Text) (intent : Option CommandIntent) (s : Session)
      → Holds s
      → Ensures (λ _ t. Holds t) (unreadable env message intent s)
  unfolding unreadable
  unreadable-Holds message none s h = h
  unreadable-Holds message (some intent) s h = latched_Holds env _ s h

  observe_live-Seen :
      (live : Result Text VirtioMemState) (s : Session)
      → ((state : VirtioMemState)
          → live ≡ ok state
          → (VirtioMem.validate state ≡ ok tt) × (state.size_bytes < u64_mod))
      → Holds s
      → Ensures Seen (observe_live env live s)
  unfolding observe_live
  observe_live-Seen (err message) s v h =
      step (λ _ t. Holds t) Seen (unreadable env message s.vm.control.intent s) _
        (unreadable-Holds message s.vm.control.intent s h) (λ _ t k. k)
  observe_live-Seen (ok state) s v h =
      let s' : Session = record s { vm = charged state s.vm } in
      let charge = s'.vm.last_charge in
      let known = v state refl in
      step (λ _ t. Holds t) Seen (resolve_intent env state s') _
        (resolve_intent-Holds env state s' (charged_Holds state s h))
        (λ _ t k. elim (Bool-cases (state.requested_bytes == state.current_bytes)) [
          | inl y ↦ rw y (observe_converged-Seen state charge known.0 (ground arith) t k)
          | inr n ↦ rw n (
              step (λ _ u. Holds u) Seen (observe_pending env state t) _
                (observe_pending-Holds env state known.0 known.1 t k)
                (λ st u k'.
                  quiet_step Seen u (publish env state none u) _ (publish-Same env u state none)
                    k'.commands
                    (λ _ w same. unless_stopped-Seen st _ w (same.holds k') (same.holds k'))))
        ])

  -- The invariant is kept, and a VM that is ready to act has a valid, converged device, no latch, and a
  -- request that is new or has no result yet.
  pub observe-Seen : Sized env → (s : Session) → Holds s → Ensures Seen (observe env s)
  unfolding observe live_state
  observe-Seen sized s h =
      observe_live-Seen (checked_state (env.memory_state s.trace)) (note read_state s)
        (λ state e.
          let c = checked_state-ok (env.memory_state s.trace) state e in
          (c.0, sized s.trace state c.1))
        ((note-Same read_state s refl).holds h)

  charge_stopped-Holds :
      (live : Result Text VirtioMemState) (s : Session)
      → Holds s
      → Ensures (λ _ t. Holds t) (charge_stopped live s)
  unfolding charge_stopped
  charge_stopped-Holds (err _) s h = h
  charge_stopped-Holds (ok state) s h = charged_Holds state s h

  pub observe_stopped-Seen : (s : Session) → Holds s → Ensures Seen (observe_stopped env s)
  unfolding observe_stopped live_state
  observe_stopped-Seen s h =
      let s' = note read_state s in
      step (λ _ t. Holds t) Seen (charge_stopped (checked_state (env.memory_state s.trace)) s') _
        (charge_stopped-Holds (checked_state (env.memory_state s.trace)) s'
          ((note-Same read_state s refl).holds h))
        (λ _ t k. k)
