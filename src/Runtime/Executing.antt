-- ===== src/Runtime/Executing.antt =====
-- host/src/runtime.rs, `record_unexecuted`, `refuse` and the execution of a grant.
use virtio_mem_windows_servi.Prelude.{
  ℕ, ◌-◌, ◌≡◌, refl, ◌∙◌, true, none, some, Result, ok, err, arith, Text, saturating_add,
}
use virtio_mem_windows_servi.VirtioMem.{VirtioMemState, validate_target}
use virtio_mem_windows_servi.MemoryRequest.{MemoryRequest, MemoryResult}
use virtio_mem_windows_servi.Journal.{RequestAdmission, new, replay}
use virtio_mem_windows_servi.Runtime.{
  ResizeSinkError, command_rejected, command_unknown, Ready, Environment, Session, request_resize,
  read_host_memory, note, now, instant_now, save,
}
use virtio_mem_windows_servi.Runtime.Control.{
  with_intent, next_operation_id, journal_result, admit_if_new, publish, latch,
}
use virtio_mem_windows_servi.Runtime.Act.{
  record_unexecuted, refuse_at, refuse, resize_device, after_resize, execute,
}
use virtio_mem_windows_servi.Runtime.Discipline.{last_saved, records, awaits_result, prepared}
use virtio_mem_windows_servi.Runtime.Holds.{
  Holds, Ensures, Same-Frame, change-Frame, note-Same, step, quiet_step, now-Same, instant_now-Same,
  publish-Same,
}
use virtio_mem_windows_servi.Runtime.Latching.{
  Saved, save-Saved, Resulted, journal_result-Resulted, Resulted-Holds,
}
use virtio_mem_windows_servi.Runtime.Resolving.{saved_Holds, latched_Holds}
use virtio_mem_windows_servi.Runtime.Settling.{
  Free, Frame-Free, with_intent-Free, Saved-Free, command-Holds,
}
use virtio_mem_windows_servi.Runtime.Readiness.{Actable, Waiting}
use virtio_mem_windows_servi.Runtime.Admitting.{
  Calm, Frame-Calm, Entered, admit_if_new-Entered, granted_intent, Waiting-same, Entered-Free,
  released,
}

module _ (env : Environment) where
  pub record_unexecuted-Holds :
      (state : VirtioMemState) (a : RequestAdmission) (q : MemoryResult) (s : Session)
      → Calm s
      → Ensures (λ _ t. Holds t) (record_unexecuted env state a q s)
  unfolding record_unexecuted
  record_unexecuted-Holds state a q s c =
      step (λ _ t. Entered s t × (Waiting a q.request s.vm → awaits_result t.vm.control ≡ true))
        (λ _ t. Holds t) (admit_if_new a q.request q.observed_unix_millis s) _
        (admit_if_new-Entered a q.request q.observed_unix_millis s c)
        (λ _ t (k, _).
          let h = k.calm.holds in
          step (λ _ u. Resulted t u) (λ _ u. Holds u) (journal_result q t) _
            (journal_result-Resulted q t h.commands)
            (λ _ u r.
              step (λ _ w. Holds w) (λ _ w. Holds w) (save env u) _
                (saved_Holds env u (Resulted-Holds t u r h.commands h.quiet))
                (λ _ w k'.
                  quiet_step (λ _ x. Holds x) w (publish env state none w) _
                    (publish-Same env w state none) k'.commands (λ _ x same. same.holds k'))))

  refuse_at-Holds :
      (state : VirtioMemState) (a : RequestAdmission) (q : MemoryResult) (s : Session)
      → Calm s
      → Ensures (λ _ t. Holds t) (refuse_at env state a q s)
  unfolding refuse_at
  refuse_at-Holds state replay q s c = record_unexecuted-Holds state replay q s c
  refuse_at-Holds state new q s c =
      quiet_step (λ _ t. Holds t) s (publish env state (some q) s) _
        (publish-Same env s state (some q)) c.holds.commands (λ _ t same. same.holds c.holds)

  pub refuse-Holds :
      (state : VirtioMemState) (request : MemoryRequest) (a : RequestAdmission) (reason : Text)
      (s : Session)
      → Calm s
      → Ensures (λ _ t. Holds t) (refuse env state request a reason s)
  unfolding refuse
  refuse-Holds state request a reason s c =
      quiet_step (λ _ t. Holds t) s (now env s) _ (now-Same env s) c.holds.commands
        (λ at t same. refuse_at-Holds state a _ t (Frame-Calm s t (Same-Frame s t same) c))

  after_resize-Holds :
      (r : Ready) (at : ℕ) (outcome : Result ResizeSinkError (Unit {0})) (s : Session)
      → Calm s
      → Ensures (λ _ t. Holds t) (after_resize env r at outcome s)
  unfolding after_resize
  after_resize-Holds r at (ok _) s c =
      quiet_step (λ _ t. Holds t) s (instant_now env s) _ (instant_now-Same env s) c.holds.commands
        (λ since t same.
          let t' : Session = record t { vm = record t.vm { pending_since = some since } } in
          let h = (change-Frame t t'.vm refl refl).holds (same.holds c.holds) in
          quiet_step (λ _ u. Holds u) t' (publish env r.state none t') _
            (publish-Same env t' r.state none) h.commands (λ _ u same'. same'.holds h))
  after_resize-Holds r at (err (command_rejected reason)) s c =
      record_unexecuted-Holds r.state replay _ _ (released s c)
  after_resize-Holds r at (err (command_unknown reason)) s c =
      step (λ _ t. Holds t) (λ _ t. Holds t) (latch env _ s) _ (latched_Holds env _ s c.holds)
        (λ _ t h.
          quiet_step (λ _ u. Holds u) t (publish env r.state none t) _
            (publish-Same env t r.state none) h.commands (λ _ u same. same.holds h))

  -- The command of a saved intent.
  resize_device-Calm :
      (r : Ready) (target committed : ℕ) (s t : Session)
      → Free t
      → records target s.vm.control ≡ true
      → awaits_result s.vm.control ≡ true
      → last_saved t.trace ≡ some s.vm.control
      → validate_target r.state target ≡ ok tt
      → r.state.requested_bytes ≡ r.state.current_bytes
      → Ensures (λ _ u. Calm u) (resize_device env t.vm.config r.state target committed t)
  unfolding resize_device
  resize_device-Calm r target committed s t free p a l v e =
      let t' = note read_host_memory t in
      let same = note-Same read_host_memory t refl in
      let last : last_saved t'.trace ≡ some s.vm.control = same.last ∙ l in
      record {
        holds =
            command-Holds (request_resize target) r.state t'
              (Frame-Free t t' (Same-Frame t t' same) free)
              (unfold prepared in ground (arith, v, e, last, p, a));
        unlatched = free.unlatched;
      }

  pub execute-Holds :
      (r : Ready) (committed at target : ℕ) (s : Session)
      → Free s
      → Actable r s.vm
      → validate_target r.state target ≡ ok tt
      → Ensures (λ _ t. Holds t) (execute env r committed at target s)
  unfolding execute next_operation_id
  execute-Holds r committed at target s free k v =
      let s' : Session = record s {
        vm = record s.vm { operation_counter = saturating_add s.vm.operation_counter 1 };
      } in
      let free' = Frame-Free s s' (change-Frame s s'.vm refl refl) free in
      let calm : Calm s' = record { holds = free'.holds; unlatched = free'.unlatched } in
      step
        (λ _ t.
          Entered s' t × (Waiting r.admission r.request s'.vm → awaits_result t.vm.control ≡ true))
        (λ _ t. Holds t) (admit_if_new r.admission r.request at s') _
        (admit_if_new-Entered r.admission r.request at s' calm)
        (λ _ t (e, w).
          let intent = granted_intent env r at target s'.vm.operation_counter in
          let waits = w (Waiting-same r.admission r.request s.vm s'.vm refl k.waiting) in
          let t' : Session = record t { vm = with_intent (some intent) t.vm } in
          let ready = with_intent-Free (some intent) t (Entered-Free s' t e free') in
          step (λ _ u. Saved t' u) (λ _ u. Holds u) (save env t') _ (save-Saved env t' ready.holds)
            (λ _ u saved.
              let growth = target - r.state.current_bytes in
              let u' : Session = record u {
                vm = record u.vm { outstanding_growth = some growth };
              } in
              let frame = change-Frame u u'.vm refl refl in
              step (λ _ x. Calm x) (λ _ x. Holds x)
                (resize_device env u'.vm.config r.state target committed u') _
                (resize_device-Calm r target committed t' u'
                  (Frame-Free u u' frame (Saved-Free t' u saved ready))
                  (unfold records in ground arith) (unfold awaits_result in waits) saved.last v
                  k.converged)
                (λ outcome x calm'.
                  step (λ _ y. Holds y) (λ _ y. Holds y) (after_resize env r at outcome x) _
                    (after_resize-Holds r at outcome x calm') (λ _ y k'. k'))))
