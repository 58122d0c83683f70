-- ===== src/Runtime/Resolving.antt =====
-- host/src/runtime.rs, `resolve_intent` and the deadlines: they keep the invariant.
use virtio_mem_windows_servi.Prelude.{
  ℕ, refl, Bool, true, false, Option, none, some, Text, ◌==◌, Bool-cases, inl, inr,
}
use virtio_mem_windows_servi.VirtioMem.{VirtioMemState}
use virtio_mem_windows_servi.MemoryRequest.{MemoryResult}
use virtio_mem_windows_servi.Status.{
  CommandOwnership, unowned, owned_pending, owned_converged_unresolved, unowned_pending,
  recorded_not_applied, conflict,
}
use virtio_mem_windows_servi.Checkpoint.{
  CommandIntent, is_latched, command_ownership, movement_result,
}
use virtio_mem_windows_servi.Runtime.{
  Environment, Session, read_unix_clock, note, now, instant_now, save,
}
use virtio_mem_windows_servi.Runtime.Control.{
  with_intent, journal_result, short_reason, record_movement, complete_intent, resolve_owned,
  resolve_intent, latch, exceeded_deadline,
}
use virtio_mem_windows_servi.Runtime.Deadlines.{
  restart_progress, stalled_since, command_stalled, pending_start, process_elapsed, clock,
  elapsed_from, pending_elapsed,
}
use virtio_mem_windows_servi.Runtime.Discipline.{answered}
use virtio_mem_windows_servi.Runtime.Holds.{
  Kept, Holds, Ensures, Frame, Same-Frame, Frame-refl, Frame-trans, change-Frame, note-Same, step,
  weaken, quiet_step, now-Same, instant_now-Same,
}
use virtio_mem_windows_servi.Runtime.Latching.{
  Saved, save-Saved, Resulted, journal_result-Resulted, Resulted-Holds, Latched, latch-Latched,
}

-- The control state's other fields do not count for the invariant.
pub with_intent-Holds :
    (intent : Option CommandIntent) (s : Session)
    → Holds s
    → Holds (record s { vm = with_intent intent s.vm })
unfolding is_latched answered
with_intent-Holds intent s h = record {
  commands = h.commands;
  quiet = h.quiet;
  answers = h.answers;
}

pub saved_Holds :
    (env : Environment) (s : Session) → Holds s → Ensures (λ _ t. Holds t) (save env s)
saved_Holds env s h =
    weaken (λ _ t. Saved s t) (λ _ t. Holds t) (save env s) (save-Saved env s h) (λ _ t v. v.holds)

pub latched_Holds :
    (env : Environment) (reason : Text) (s : Session)
    → Holds s
    → Ensures (λ _ t. Holds t) (latch env reason s)
latched_Holds env reason s h =
    weaken (λ _ t. Latched t) (λ _ t. Holds t) (latch env reason s) (latch-Latched env reason s h)
      (λ _ t l. l.holds)

journalled_Holds :
    (q : MemoryResult) (s : Session) → Holds s → Ensures (λ _ t. Holds t) (journal_result q s)
journalled_Holds q s h =
    weaken (λ _ t. Resulted s t) (λ _ t. Holds t) (journal_result q s)
      (journal_result-Resulted q s h.commands) (λ _ t r. Resulted-Holds s t r h.commands h.quiet)

record_movement-Holds :
    (intent : CommandIntent) (q : Option MemoryResult) (s : Session)
    → Holds s
    → Ensures (λ _ t. Holds t) (record_movement intent q s)
unfolding record_movement
record_movement-Holds intent none s h = h
record_movement-Holds intent (some q) s h =
    journalled_Holds q _ (record { commands = h.commands; quiet = h.quiet; answers = h.answers })

module _ (env : Environment) where
  complete_intent-Holds :
      (intent : Option CommandIntent) (live : VirtioMemState) (s : Session)
      → Holds s
      → Ensures (λ _ t. Holds t) (complete_intent env intent live s)
  unfolding complete_intent
  complete_intent-Holds none live s h = h
  complete_intent-Holds (some intent) live s h =
      let s' : Session = record s { vm = with_intent none s.vm } in
      let h' = with_intent-Holds none s h in
      quiet_step (λ _ t. Holds t) s' (now env s') _ (now-Same env s') h'.commands
        (λ at t same.
          let q =
            movement_result t.vm.control.journal intent live at (short_reason intent.direction) in
          step (λ _ u. Holds u) (λ _ u. Holds u) (record_movement intent q t) _
            (record_movement-Holds intent q t (same.holds h')) (λ _ u k. saved_Holds env u k))

  resolve_owned-Holds :
      (o : CommandOwnership) (live : VirtioMemState) (s : Session)
      → Holds s
      → Ensures (λ _ t. Holds t) (resolve_owned env o live s)
  unfolding resolve_owned
  resolve_owned-Holds unowned live s h = h
  resolve_owned-Holds unowned_pending live s h = h
  resolve_owned-Holds owned_pending live s h = h
  resolve_owned-Holds owned_converged_unresolved live s h =
      complete_intent-Holds s.vm.control.intent live s h
  resolve_owned-Holds recorded_not_applied live s h = latched_Holds env _ s h
  resolve_owned-Holds conflict live s h = latched_Holds env _ s h

  pub resolve_intent-Holds :
      (live : VirtioMemState) (s : Session)
      → Holds s
      → Ensures (λ _ t. Holds t) (resolve_intent env live s)
  unfolding resolve_intent
  resolve_intent-Holds live s h =
      resolve_owned-Holds (command_ownership s.vm.control.intent live) live s h

  pub exceeded_deadline-Holds :
      (operation : Text) (s : Session)
      → Holds s
      → Ensures (λ _ t. Holds t) (exceeded_deadline env operation s)
  unfolding exceeded_deadline
  exceeded_deadline-Holds operation s h =
      step (λ _ t. Holds t) (λ _ t. Holds t) (latch env _ s) _ (latched_Holds env _ s h)
        (λ _ t k. k)

  restart_progress-Frame :
      (state : VirtioMemState) (s : Session)
      → Kept s
      → Ensures (λ _ t. Frame s t) (restart_progress env state s)
  unfolding restart_progress
  restart_progress-Frame state s h =
      quiet_step (λ _ t. Frame s t) s (instant_now env s) _ (instant_now-Same env s) h
        (λ since t same. Frame-trans s t _ (Same-Frame s t same) (change-Frame t _ refl refl))

  stalled_since-Frame :
      (state : VirtioMemState) (bound : ℕ) (progress : Option (ℕ × ℕ)) (s : Session)
      → Kept s
      → Ensures (λ _ t. Frame s t) (stalled_since env state bound progress s)
  unfolding stalled_since
  stalled_since-Frame state bound none s h = restart_progress-Frame state s h
  stalled_since-Frame state bound (some (current, since)) s h =
      elim (Bool-cases (current == state.current_bytes)) [
        | inl y ↦ rw y (
            quiet_step (λ _ t. Frame s t) s (instant_now env s) _ (instant_now-Same env s) h
              (λ at t same. Same-Frame s t same))
        | inr n ↦ rw n (restart_progress-Frame state s h)
      ]

  pub command_stalled-Frame :
      (state : VirtioMemState) (s : Session)
      → Kept s
      → Ensures (λ _ t. Frame s t) (command_stalled env state s)
  unfolding command_stalled
  command_stalled-Frame state s h = stalled_since-Frame state _ s.vm.pending_progress s h

  pending_start-Frame :
      (since : Option ℕ) (s : Session)
      → Kept s
      → Ensures (λ _ t. Frame s t) (pending_start env since s)
  unfolding pending_start
  pending_start-Frame (some at) s h = Frame-refl s
  pending_start-Frame none s h =
      quiet_step (λ _ t. Frame s t) s (instant_now env s) _ (instant_now-Same env s) h
        (λ since t same. Frame-trans s t _ (Same-Frame s t same) (change-Frame t _ refl refl))

  process_elapsed-Frame :
      (timeout : ℕ) (durable : Bool) (s : Session)
      → Kept s
      → Ensures (λ _ t. Frame s t) (process_elapsed env timeout durable s)
  unfolding process_elapsed
  process_elapsed-Frame timeout true s h = Frame-refl s
  process_elapsed-Frame timeout false s h =
      step (λ _ t. Frame s t) (λ _ t. Frame s t) (pending_start env s.vm.pending_since s) _
        (pending_start-Frame s.vm.pending_since s h)
        (λ since t f.
          quiet_step (λ _ u. Frame s u) t (instant_now env t) _ (instant_now-Same env t) (f.kept h)
            (λ at u same. Frame-trans s t u f (Same-Frame t u same)))

  elapsed_from-Frame :
      (timeout : ℕ) (intent : Option CommandIntent) (s : Session)
      → Kept s
      → Ensures (λ _ t. Frame s t) (elapsed_from env timeout intent s)
  unfolding elapsed_from clock
  elapsed_from-Frame timeout none s h = Frame-refl s
  elapsed_from-Frame timeout (some intent) s h =
      let same = note-Same read_unix_clock s refl in
      weaken (λ _ t. Frame (note read_unix_clock s) t) (λ _ t. Frame s t) _
        (process_elapsed-Frame timeout _ (note read_unix_clock s) (same.kept h))
        (λ _ t f. Frame-trans s (note read_unix_clock s) t (Same-Frame s _ same) f)

  pub pending_elapsed-Frame :
      (s : Session) → Kept s → Ensures (λ _ t. Frame s t) (pending_elapsed env s)
  unfolding pending_elapsed
  pending_elapsed-Frame s h = elapsed_from-Frame _ s.vm.control.intent s h
