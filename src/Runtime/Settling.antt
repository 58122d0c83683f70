-- ===== src/Runtime/Settling.antt =====
-- host/src/runtime.rs, `settle_short` and `extend_shrink`: they keep the invariant.
use virtio_mem_windows_servi.Prelude.{
  ℕ, ◌≡◌, refl, true, false, Option, none, some, Result, ok, err, arith, saturating_add, decimal,
  codes, ◌++◌,
}
use virtio_mem_windows_servi.VirtioMem.{VirtioMemState, validate, validate_target}
use virtio_mem_windows_servi.VirtioMem.Targets.{validate_iff_IsDevice, validate_target_iff}
use virtio_mem_windows_servi.Status.{CommandDirection}
use virtio_mem_windows_servi.Checkpoint.{CommandIntent, is_latched}
use virtio_mem_windows_servi.Runtime.{
  ResizeSinkError, Environment, Session, DeviceCommand, retarget_pending, commanded, note, now,
  stop_requested, save, wait, pure,
}
use virtio_mem_windows_servi.Runtime.Control.{with_intent, next_operation_id, latch}
use virtio_mem_windows_servi.Runtime.Settle.{
  settle_direction, prior_current, retarget_device, after_settle, settle_now, settle_short,
}
use virtio_mem_windows_servi.Runtime.Discipline.{
  last_saved, never_latched, records, prepared, disciplined,
}
use virtio_mem_windows_servi.Runtime.Granted.{device_maximum_lem}
use virtio_mem_windows_servi.Runtime.Holds.{
  Holds, Ensures, Frame, Same-Frame, change-Frame, step, branch, quiet_step, now-Same,
  stop_requested-Same,
}
use virtio_mem_windows_servi.Runtime.Latching.{Saved, save-Saved}
use virtio_mem_windows_servi.Runtime.Resolving.{with_intent-Holds, latched_Holds}

-- Commands are allowed.
pub record Free (s : Session) : Type 0 where
  pub holds : Holds s
  pub unlatched : is_latched s.vm.control ≡ false
  pub active : s.vm.config.observe_only ≡ false

pub Frame-Free : (s t : Session) → Frame s t → Free s → Free t
Frame-Free s t f free = record {
  holds = f.holds free.holds;
  unlatched = rw f.control free.unlatched;
  active = rw f.config free.active;
}

pub with_intent-Free :
    (intent : Option CommandIntent) (s : Session)
    → Free s
    → Free (record s { vm = with_intent intent s.vm })
unfolding is_latched
with_intent-Free intent s free = record {
  holds = with_intent-Holds intent s free.holds;
  unlatched = free.unlatched;
  active = free.active;
}

pub Saved-Free : (s t : Session) → Saved s t → Free s → Free t
Saved-Free s t v free = record {
  holds = v.holds;
  unlatched = rw v.vm free.unlatched;
  active = rw v.vm free.active;
}

-- A command for which everything is prepared.
pub command-Holds :
    (command : DeviceCommand) (state : VirtioMemState) (s : Session)
    → Free s
    → prepared command state s.trace ≡ true
    → Holds (note (commanded command state) s)
unfolding disciplined
command-Holds command state s free p =
    let h = free.holds in
    let never : never_latched s.trace ≡ true = ground (arith, h.quiet, free.unlatched) in
    record {
      commands = ground (arith, free.active, never, p, h.commands);
      quiet = unfold never_latched in h.quiet;
      answers = h.answers;
    }

pub current_accepted :
    (state : VirtioMemState)
    → validate state ≡ ok tt
    → validate_target state state.current_bytes ≡ ok tt
current_accepted state v =
    let d = (validate_iff_IsDevice state).0 v in
    (validate_target_iff state state.current_bytes v).1
      (omega (arith, d.current_fits.within, device_maximum_lem state v), d.current_fits.aligned)

-- The intent of a settlement.
abbrev settled_intent :
    Environment → CommandDirection → VirtioMemState → Session → ℕ → ℕ → CommandIntent
settled_intent env direction state t counter at = record {
  operation_id = decimal env.process_id ++ (codes "-" ++ decimal counter);
  started_unix_millis = at;
  direction = settle_direction direction;
  prior_requested_bytes = state.requested_bytes;
  prior_current_bytes = prior_current t.vm.control.intent state.current_bytes;
  target_bytes = state.current_bytes;
}

module _ (env : Environment) where
  -- A saved intent and the command to its target.
  pub retarget_saved :
      (state : VirtioMemState) (target : ℕ) (s t : Session)
      → Free t
      → records target s.vm.control ≡ true
      → last_saved t.trace ≡ some s.vm.control
      → validate_target state target ≡ ok tt
      → Holds (retarget_device env state target t).1
  unfolding retarget_device
  retarget_saved state target s t free r l v =
      command-Holds (retarget_pending target) state t free (unfold prepared in rw (v, l) r)

  after_settle-Holds :
      (direction : CommandDirection) (r : Result ResizeSinkError (Unit {0})) (s : Session)
      → Holds s
      → Ensures (λ _ t. Holds t) (after_settle env direction r s)
  unfolding after_settle
  after_settle-Holds direction (ok _) s h = h
  after_settle-Holds direction (err e) s h =
      step (λ _ t. Holds t) (λ _ t. Holds t) (latch env _ s) _ (latched_Holds env _ s h)
        (λ _ t k. k)

  settle_now-Holds :
      (direction : CommandDirection) (state : VirtioMemState) (s : Session)
      → validate state ≡ ok tt
      → Free s
      → Ensures (λ _ t. Holds t) (settle_now env direction state s)
  unfolding settle_now next_operation_id retarget_device
  settle_now-Holds direction state s v free =
      let s' : Session = record s {
        vm = record s.vm { operation_counter = saturating_add s.vm.operation_counter 1 };
      } in
      let free' = Frame-Free s s' (change-Frame s s'.vm refl refl) free in
      quiet_step (λ _ t. Holds t) s' (now env s') _ (now-Same env s') free'.holds.commands
        (λ at t same.
          let intent = settled_intent env direction state t s'.vm.operation_counter at in
          let t' : Session = record t { vm = with_intent (some intent) t.vm } in
          let ready =
            with_intent-Free (some intent) t (Frame-Free s' t (Same-Frame s' t same) free') in
          step (λ _ u. Saved t' u) (λ _ u. Holds u) (save env t') _ (save-Saved env t' ready.holds)
            (λ _ u v'.
              let u' : Session = record u { vm = record u.vm { pending_since = none } } in
              let frame = change-Frame u u'.vm refl refl in
              let free'' = Frame-Free u u' frame (Saved-Free t' u v' ready) in
              after_settle-Holds direction _ _ (
                retarget_saved state state.current_bytes t' u' free''
                  (unfold records in ground arith) v'.last (current_accepted state v))))

  pub settle_short-Holds :
      (direction : CommandDirection) (state : VirtioMemState) (s : Session)
      → validate state ≡ ok tt
      → Free s
      → Ensures (λ _ t. Holds t) (settle_short env direction state s)
  unfolding settle_short
  settle_short-Holds direction state s v free =
      quiet_step (λ _ t. Holds t) s (stop_requested env s) _ (stop_requested-Same env s)
        free.holds.commands
        (λ halted t same.
          branch (λ _ u. Holds u) (pure wait) (settle_now env direction state) t
            (same.holds free.holds)
            (settle_now-Holds direction state t v (Frame-Free s t (Same-Frame s t same) free))
            halted)
