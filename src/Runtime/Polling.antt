-- ===== src/Runtime/Polling.antt =====
-- host/src/runtime.rs, `observe_pending` and `widen_usable_region`: they keep the invariant.
use virtio_mem_windows_servi.Prelude.{
  ℕ, ◌<◌, ◌≡◌, refl, Bool, true, false, not, ◌&&◌, ◌||◌, Option, none, some, Result, ok, err, arith,
  Text, u64_mod, Bool-cases, inl, inr, if◌then◌else◌, is_some_and, ◌==◌,
}
use virtio_mem_windows_servi.VirtioMem.{VirtioMemState, validate}
use virtio_mem_windows_servi.Status.{CommandDirection, grow, shrink, settle_grow, settle_shrink}
use virtio_mem_windows_servi.Checkpoint.{CommandIntent, is_latched}
use virtio_mem_windows_servi.Runtime.{
  ResizeSinkError, command_rejected, command_unknown, Environment, Session, wait, pure,
  widen_usable_region, read_guest, note, stop_requested,
}
use virtio_mem_windows_servi.Runtime.Control.{latch, exceeded_deadline}
use virtio_mem_windows_servi.Runtime.Deadlines.{command_stalled, pending_elapsed}
use virtio_mem_windows_servi.Runtime.Settle.{settle_short}
use virtio_mem_windows_servi.Runtime.Extend.{extend_shrink}
use virtio_mem_windows_servi.Runtime.Pending.{
  can_settle, ok_of, base_of, reports_low, pending_grow, extend_if_stalled, pending_shrink,
  pending_settle, pending_direction, pending_owned, observe_pending, after_widening, widen_device,
  widen_unless, widen,
}
use virtio_mem_windows_servi.Runtime.Discipline.{prepared}
use virtio_mem_windows_servi.Runtime.Holds.{
  Holds, Ensures, Frame, Same-Frame, change-Frame, note-Same, step, branch, quiet_step,
  stop_requested-Same,
}
use virtio_mem_windows_servi.Runtime.Resolving.{
  latched_Holds, exceeded_deadline-Holds, command_stalled-Frame, pending_elapsed-Frame,
}
use virtio_mem_windows_servi.Runtime.Settling.{Free, Frame-Free, command-Holds, settle_short-Holds}
use virtio_mem_windows_servi.Runtime.Extending.{extend_shrink-Holds}

can_settle-Free : (s : Session) → Holds s → can_settle s.vm ≡ true → Free s
unfolding can_settle
can_settle-Free s h e = record {
  holds = h;
  unlatched = ground (arith, e);
  active = ground (arith, e);
}

module _ (env : Environment) where
  module _ (state : VirtioMemState) (valid : validate state ≡ ok tt) where
    settled_if :
        (direction : CommandDirection) (s : Session) (stalled : Bool)
        → Free s
        → Ensures
            (λ _ t. Holds t)
            ((if stalled then settle_short env direction state else pure wait) s)
    settled_if direction s stalled free =
        branch (λ _ t. Holds t) (settle_short env direction state) (pure wait) s
          (settle_short-Holds env direction state s valid free) free.holds stalled

    pending_grow-Holds :
        (s : Session) → Holds s → Ensures (λ _ t. Holds t) (pending_grow env state s)
    unfolding pending_grow
    pending_grow-Holds s h =
        elim (Bool-cases (
          can_settle s.vm
          && not s.vm.widened
          && is_some_and s.vm.control.intent (λ i. i.prior_current_bytes == state.current_bytes))) [
            | inl y ↦
                let free = can_settle-Free s h (ground (arith, y)) in
                rw y (
                  step (λ _ t. Frame s t) (λ _ t. Holds t) (command_stalled env state s) _
                    (command_stalled-Frame env state s h.commands)
                    (λ stalled t f. settled_if grow t stalled (Frame-Free s t f free)))
            | inr n ↦ rw n h
          ]

    module _ (small : state.size_bytes < u64_mod) where
      extend_if_stalled-Holds :
          (base : Option ℕ) (s : Session)
          → Free s
          → Ensures (λ _ t. Holds t) (extend_if_stalled env state base s)
      unfolding extend_if_stalled
      extend_if_stalled-Holds none s free = free.holds
      extend_if_stalled-Holds (some base_ram) s free =
          step (λ _ t. Frame s t) (λ _ t. Holds t) (command_stalled env state s) _
            (command_stalled-Frame env state s free.holds.commands)
            (λ stalled t f.
              let free' = Frame-Free s t f free in
              branch (λ _ u. Holds u) (extend_shrink env state base_ram) (pure wait) t
                (extend_shrink-Holds env state valid base_ram t small free') free'.holds stalled)

      pending_shrink-Holds :
          (s : Session) → Free s → Ensures (λ _ t. Holds t) (pending_shrink env state s)
      unfolding pending_shrink
      pending_shrink-Holds s free =
          let guest = ok_of (env.read s.trace) in
          let s' = note read_guest s in
          let free' = Frame-Free s s' (Same-Frame s s' (note-Same read_guest s refl)) free in
          branch (λ _ t. Holds t) (settle_short env shrink state)
            (extend_if_stalled env state (base_of state guest)) s'
            (settle_short-Holds env shrink state s' valid free')
            (extend_if_stalled-Holds (base_of state guest) s' free') (reports_low guest)

      pending_settle-Holds :
          (operation : Text) (s : Session)
          → Holds s
          → Ensures (λ _ t. Holds t) (pending_settle env operation s)
      unfolding pending_settle
      pending_settle-Holds operation s h =
          step (λ _ t. Frame s t) (λ _ t. Holds t) (pending_elapsed env s) _
            (pending_elapsed-Frame env s h.commands)
            (λ elapsed t f.
              branch (λ _ u. Holds u) _ (pure wait) t
                (step (λ _ u. Holds u) (λ _ u. Holds u) (exceeded_deadline env operation t) _
                  (exceeded_deadline-Holds env operation t (f.holds h)) (λ _ u k. k))
                (f.holds h) elapsed)

      pending_direction-Holds :
          (direction : CommandDirection) (s : Session)
          → Holds s
          → Ensures (λ _ t. Holds t) (pending_direction env direction state s)
      unfolding pending_direction
      pending_direction-Holds grow s h = pending_grow-Holds s h
      pending_direction-Holds settle_grow s h = pending_settle-Holds _ s h
      pending_direction-Holds settle_shrink s h = pending_settle-Holds _ s h
      pending_direction-Holds shrink s h = elim (Bool-cases (can_settle s.vm)) [
        | inl y ↦ rw y (pending_shrink-Holds s (can_settle-Free s h y))
        | inr n ↦ rw n h
      ]

      pending_owned-Holds :
          (intent : Option CommandIntent) (s : Session)
          → Holds s
          → Ensures (λ _ t. Holds t) (pending_owned env intent state s)
      unfolding pending_owned
      pending_owned-Holds none s h = h
      pending_owned-Holds (some intent) s h = pending_direction-Holds intent.direction s h

      pub observe_pending-Holds :
          (s : Session) → Holds s → Ensures (λ _ t. Holds t) (observe_pending env state s)
      unfolding observe_pending
      observe_pending-Holds s h = pending_owned-Holds _ s h

    after_widening-Holds :
        (r : Result ResizeSinkError (Unit {0})) (s : Session)
        → Holds s
        → Ensures (λ _ t. Holds t) (after_widening env r s)
    unfolding after_widening
    after_widening-Holds (ok _) s h = h
    after_widening-Holds (err (command_rejected _)) s h = h
    after_widening-Holds (err (command_unknown reason)) s h =
        step (λ _ t. Holds t) (λ _ t. Holds t) (latch env _ s) _ (latched_Holds env _ s h)
          (λ _ t k. k)

    widen_unless-Holds :
        (halted : Bool) (s : Session)
        → state.requested_bytes ≡ state.current_bytes
        → Free s
        → Ensures (λ _ t. Holds t) (widen_unless env halted state s)
    unfolding widen_unless widen_device
    widen_unless-Holds true s e free = free.holds
    widen_unless-Holds false s e free =
        let s' : Session = record s { vm = record s.vm { widened = true } } in
        let free' = Frame-Free s s' (change-Frame s s'.vm refl refl) free in
        after_widening-Holds _ _
          (command-Holds widen_usable_region state s' free' (unfold prepared in ground (arith, e)))

    pub widen-Holds :
        (s : Session)
        → state.requested_bytes ≡ state.current_bytes
        → Holds s
        → Ensures (λ _ t. Holds t) (widen env state s)
    unfolding widen
    widen-Holds s e h =
        let s' : Session = record s { vm = record s.vm { widen_due = false } } in
        let h' = (change-Frame s s'.vm refl refl).holds h in
        elim (Bool-cases (is_latched s.vm.control || s.vm.config.observe_only)) [
          | inl y ↦ rw y h'
          | inr n ↦
              let free : Free s' = record {
                holds = h';
                unlatched = ground (arith, n);
                active = ground (arith, n);
              } in
              rw n (
                quiet_step (λ _ t. Holds t) s' (stop_requested env s') _
                  (stop_requested-Same env s') h'.commands
                  (λ halted t same.
                    widen_unless-Holds halted t e (Frame-Free s' t (Same-Frame s' t same) free)))
        ]
