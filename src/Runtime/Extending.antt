-- ===== src/Runtime/Extending.antt =====
-- host/src/runtime.rs, `extend_shrink`: it keeps the invariant.
use virtio_mem_windows_servi.Prelude.{
  ℕ, ◌<◌, ◌-◌, ◌/◌, ◌≡◌, refl, Option, none, some, Result, ok, err, arith, leb, u64_mod,
}
use virtio_mem_windows_servi.VirtioMem.{VirtioMemState, validate, validate_target}
use virtio_mem_windows_servi.Status.{shrink}
use virtio_mem_windows_servi.Checkpoint.{CommandIntent}
use virtio_mem_windows_servi.Runtime.{
  ResizeSinkError, command_rejected, command_unknown, Environment, Session, wait, pure, instant_now,
  stop_requested, save,
}
use virtio_mem_windows_servi.Runtime.Control.{with_intent, latch}
use virtio_mem_windows_servi.Runtime.Settle.{retarget, retarget_device, settle_short}
use virtio_mem_windows_servi.Runtime.Extension.{
  extension_floor, asked_bytes, extension_goal, extension_step, step_bytes, extension_target,
}
use virtio_mem_windows_servi.Runtime.Extended.{extension_target-Lower}
use virtio_mem_windows_servi.Runtime.Extend.{
  after_extension, extend_now, idle_since, extend_to, extend_from, extend_shrink,
}
use virtio_mem_windows_servi.Runtime.Discipline.{records}
use virtio_mem_windows_servi.Runtime.Holds.{
  Holds, Ensures, Same-Frame, change-Frame, step, branch, quiet_step, instant_now-Same,
  stop_requested-Same,
}
use virtio_mem_windows_servi.Runtime.Latching.{Saved, save-Saved}
use virtio_mem_windows_servi.Runtime.Resolving.{with_intent-Holds, latched_Holds, saved_Holds}
use virtio_mem_windows_servi.Runtime.Settling.{
  Free, Frame-Free, with_intent-Free, Saved-Free, retarget_saved, settle_short-Holds,
}

module _ (env : Environment) (state : VirtioMemState) (valid : validate state ≡ ok tt) where
  after_extension-Holds :
      (intent : CommandIntent) (r : Result ResizeSinkError (Unit {0})) (s : Session)
      → Holds s
      → Ensures (λ _ t. Holds t) (after_extension env state intent r s)
  unfolding after_extension
  after_extension-Holds intent (ok _) s h = h
  after_extension-Holds intent (err (command_rejected _)) s h =
      let kept = some (retarget intent state.requested_bytes) in
      let s' : Session = record s { vm = with_intent kept s.vm } in
      step (λ _ t. Holds t) (λ _ t. Holds t) (save env s') _
        (saved_Holds env s' (with_intent-Holds kept s h)) (λ _ t k. k)
  after_extension-Holds intent (err (command_unknown reason)) s h =
      step (λ _ t. Holds t) (λ _ t. Holds t) (latch env _ s) _ (latched_Holds env _ s h)
        (λ _ t k. k)

  extend_now-Holds :
      (intent : CommandIntent) (target blocks : ℕ) (s : Session)
      → validate_target state target ≡ ok tt
      → Free s
      → Ensures (λ _ t. Holds t) (extend_now env state intent target blocks s)
  unfolding extend_now retarget_device
  extend_now-Holds intent target blocks s v free =
      let lower = some (retarget intent target) in
      let s' : Session = record s { vm = with_intent lower s.vm } in
      let ready = with_intent-Free lower s free in
      step (λ _ t. Saved s' t) (λ _ t. Holds t) (save env s') _ (save-Saved env s' ready.holds)
        (λ _ t v'.
          let t' : Session = record t {
            vm = record t.vm {
              pending_progress = none;
              extension = some (intent.operation_id, state.current_bytes, blocks);
            };
          } in
          let frame = change-Frame t t'.vm refl refl in
          let free' = Frame-Free t t' frame (Saved-Free s' t v' ready) in
          after_extension-Holds intent _ _ (
            retarget_saved env state target s' t' free' (unfold records in ground arith) v'.last v))

  idle_since-Holds :
      (timeout : ℕ) (progress : Option (ℕ × ℕ)) (s : Session)
      → Free s
      → Ensures (λ _ t. Holds t) (idle_since env state timeout progress s)
  unfolding idle_since
  idle_since-Holds timeout none s free = free.holds
  idle_since-Holds timeout (some (_, since)) s free =
      quiet_step (λ _ t. Holds t) s (instant_now env s) _ (instant_now-Same env s)
        free.holds.commands
        (λ at t same.
          let free' = Frame-Free s t (Same-Frame s t same) free in
          branch (λ _ u. Holds u) (settle_short env shrink state) (pure wait) t
            (settle_short-Holds env shrink state t valid free') free'.holds
            (leb timeout (at - since)))

  extend_to-Holds :
      (intent : CommandIntent) (blocks : ℕ) (target : Option ℕ) (s : Session)
      → ((t : ℕ) → target ≡ some t → validate_target state t ≡ ok tt)
      → Free s
      → Ensures (λ _ t. Holds t) (extend_to env state intent blocks target s)
  unfolding extend_to
  extend_to-Holds intent blocks none s v free =
      idle_since-Holds s.vm.config.convergence_timeout s.vm.pending_progress s free
  extend_to-Holds intent blocks (some target) s v free =
      quiet_step (λ _ t. Holds t) s (stop_requested env s) _ (stop_requested-Same env s)
        free.holds.commands
        (λ halted t same.
          let free' = Frame-Free s t (Same-Frame s t same) free in
          branch (λ _ u. Holds u) (pure wait) (extend_now env state intent target blocks) t
            free'.holds (extend_now-Holds intent target blocks t (v target refl) free') halted)

  extend_from-Holds :
      (base_ram : ℕ) (intent : Option CommandIntent) (s : Session)
      → state.size_bytes < u64_mod
      → Free s
      → Ensures (λ _ t. Holds t) (extend_from env state base_ram intent s)
  unfolding extend_from
  extend_from-Holds base_ram none s small free = free.holds
  extend_from-Holds base_ram (some intent) s small free =
      let block = state.block_size_bytes in
      let floor = extension_floor s.vm.config base_ram block in
      let goal =
        extension_goal intent.prior_current_bytes (asked_bytes s.vm.control.journal.request) block
          floor in
      let bytes =
        step_bytes (extension_step s.vm.extension intent.operation_id state.current_bytes block)
          state.current_bytes goal block in
      let s' : Session = record s { vm = record s.vm { extension = none } } in
      let free' = Frame-Free s s' (change-Frame s s'.vm refl refl) free in
      branch (λ _ t. Holds t) (settle_short env shrink state) _ s
        (settle_short-Holds env shrink state s valid free)
        (extend_to-Holds intent (bytes / block) (extension_target state.requested_bytes bytes floor)
          s'
          (λ t e.
            (extension_target-Lower s.vm.config base_ram state s.vm.extension intent.operation_id
              goal t valid small e).accepted)
          free')
        (leb state.current_bytes goal)

  pub extend_shrink-Holds :
      (base_ram : ℕ) (s : Session)
      → state.size_bytes < u64_mod
      → Free s
      → Ensures (λ _ t. Holds t) (extend_shrink env state base_ram s)
  unfolding extend_shrink
  extend_shrink-Holds base_ram s small free =
      extend_from-Holds base_ram s.vm.control.intent s small free
