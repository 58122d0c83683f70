-- ===== src/Runtime/Growth.antt =====
-- host/src/runtime.rs: the growth that a history of effects has commanded.
use virtio_mem_windows_servi.Prelude.{
  ℕ, ◌+◌, ◌-◌, ◌≡◌, refl, Bool, true, false, Option, none, some, [], ◌∷◌, Result, ok, err, Text,
  Result-cases, Bool-cases, inl, inr, ◌∙◌, codes, ◌++◌, if◌then◌else◌,
}
use virtio_mem_windows_servi.VirtioMem.{VirtioMemState}
use virtio_mem_windows_servi.MemoryRequest.{MemoryRequest, MemoryResult, rejection}
use virtio_mem_windows_servi.Journal.{
  RequestAdmission, new, replay, admit, record_result, bounded_reason,
}
use virtio_mem_windows_servi.Checkpoint.{is_latched}
use virtio_mem_windows_servi.Runtime.{
  ResizeSinkError, command_rejected, command_unknown, HostRuntimeError, Ready, request_resize,
  retarget_pending, widen_usable_region, read_state, read_unix_clock, read_instant, read_guest,
  read_host_memory, read_stop, saved, save_failed, commanded, published, Trace, Environment,
  Session, Action, continue, save, after_save, now, instant_now,
}
use virtio_mem_windows_servi.Runtime.Control.{
  with_intent, with_latch, uncertain_result, journal_result, admit_if_new, publish, publish_at,
  record_uncertain, latch_first, latch,
}
use virtio_mem_windows_servi.Runtime.Settle.{sink_message}
use virtio_mem_windows_servi.Runtime.Act.{record_unexecuted, refuse_at, refuse, after_resize}

-- The bytes by which resize commands raise the device above the size it had, added up.
unfoldable pub growth_of : Trace → ℕ
growth_of [] = 0
growth_of (commanded (request_resize target) state ∷ t) = target - state.current_bytes + growth_of t
growth_of (commanded (retarget_pending target) state ∷ t) = growth_of t
growth_of (commanded widen_usable_region state ∷ t) = growth_of t
growth_of (read_state ∷ t) = growth_of t
growth_of (read_unix_clock ∷ t) = growth_of t
growth_of (read_instant ∷ t) = growth_of t
growth_of (read_guest ∷ t) = growth_of t
growth_of (read_host_memory ∷ t) = growth_of t
growth_of (read_stop ∷ t) = growth_of t
growth_of (saved c ∷ t) = growth_of t
growth_of (save_failed c ∷ t) = growth_of t
growth_of (published status ∷ t) = growth_of t

-- The growth commanded up to the end of an action, whether it succeeds or not.
abbrev pub growth_after : {A : Type 0} → Result HostRuntimeError A × Session → ℕ
growth_after r = growth_of r.1.trace

pub quiet_step :
    {A B : Type 0} (g : ℕ) (r : Result HostRuntimeError A × Session) (k : A → Action B)
    → growth_after r ≡ g
    → ((a : A) (s : Session) → growth_of s.trace ≡ g → growth_after (k a s) ≡ g)
    → growth_after (continue r.0 k r.1) ≡ g
quiet_step g (ok a, s) k h f = f a s h
quiet_step g (err e, s) k h f = h

pub quiet_branch :
    {A : Type 0} (g : ℕ) (m k : Action A) (s : Session) (b : Bool)
    → growth_after (m s) ≡ g
    → growth_after (k s) ≡ g
    → growth_after ((if b then m else k) s) ≡ g
quiet_branch g m k s true p q = p
quiet_branch g m k s false p q = q

journal_result_quiet :
    (q : MemoryResult) (s : Session) → growth_after (journal_result q s) ≡ growth_of s.trace
unfolding journal_result
journal_result_quiet q s = elim (Result-cases (record_result s.vm.control.journal q)) [
  | inl (j, e) ↦ rw e refl
  | inr (x, e) ↦ rw e refl
]

pub admit_if_new_quiet :
    (a : RequestAdmission) (r : MemoryRequest) (at : ℕ) (s : Session)
    → growth_after (admit_if_new a r at s) ≡ growth_of s.trace
unfolding admit_if_new
admit_if_new_quiet replay r at s = refl
admit_if_new_quiet new r at s =
    elim (Result-cases (
      admit s.vm.config.vm_name s.vm.config.raw_telemetry_service_name at
        s.vm.config.raw_telemetry_future_tolerance s.vm.control.journal r)) [
          | inl (j, e) ↦ rw e refl
          | inr (x, e) ↦ rw e refl
        ]

module _ (env : Environment) where
  pub save_quiet : (s : Session) → growth_after (save env s) ≡ growth_of s.trace
  unfolding save after_save growth_of
  save_quiet s = elim (Result-cases (env.save s.trace s.vm.control)) [
    | inl (_, e) ↦ rw e refl
    | inr (x, e) ↦ rw e refl
  ]

  pub publish_quiet :
      (state : VirtioMemState) (refusal : Option MemoryResult) (s : Session)
      → growth_after (publish env state refusal s) ≡ growth_of s.trace
  unfolding publish publish_at growth_of
  publish_quiet state refusal s = elim (Result-cases (env.now_unix_millis s.trace)) [
    | inl (at, e) ↦ rw e refl
    | inr (x, e) ↦ rw e refl
  ]

  record_uncertain_quiet :
      (reason : Text) (request : Option MemoryRequest) (result : Option MemoryResult) (s : Session)
      → growth_after (record_uncertain env reason request result s) ≡ growth_of s.trace
  unfolding record_uncertain now growth_of
  record_uncertain_quiet reason none result s = refl
  record_uncertain_quiet reason (some r) (some q) s = refl
  record_uncertain_quiet reason (some r) none s =
      quiet_step (growth_of s.trace) (now env s) _ refl
        (λ at t h. journal_result_quiet (uncertain_result r at reason) t ∙ h)

  latch_quiet :
      (reason : Text) (s : Session) → growth_after (latch env reason s) ≡ growth_of s.trace
  unfolding latch latch_first
  latch_quiet reason s = elim (Bool-cases (is_latched s.vm.control)) [
    | inl y ↦ rw y refl
    | inr n ↦
        let cut = bounded_reason reason in
        let s' : Session = record s { vm = with_latch cut s.vm } in
        let j = s.vm.control.journal in
        rw n (
          quiet_step (growth_of s.trace) (record_uncertain env cut j.request j.result s') _
            (record_uncertain_quiet cut j.request j.result s') (λ _ t h. save_quiet t ∙ h))
  ]

  pub record_unexecuted_quiet :
      (state : VirtioMemState) (a : RequestAdmission) (q : MemoryResult) (s : Session)
      → growth_after (record_unexecuted env state a q s) ≡ growth_of s.trace
  unfolding record_unexecuted
  record_unexecuted_quiet state a q s =
      let g = growth_of s.trace in
      quiet_step g (admit_if_new a q.request q.observed_unix_millis s) _
        (admit_if_new_quiet a q.request q.observed_unix_millis s)
        (λ _ t h. quiet_step g (journal_result q t) _ (journal_result_quiet q t ∙ h) (λ _ u h'.
          quiet_step g (save env u) _ (save_quiet u ∙ h') (λ _ v h''.
            quiet_step g (publish env state none v) _ (publish_quiet state none v ∙ h'')
              (λ _ w k. k))))

  refuse_at_quiet :
      (state : VirtioMemState) (a : RequestAdmission) (q : MemoryResult) (s : Session)
      → growth_after (refuse_at env state a q s) ≡ growth_of s.trace
  unfolding refuse_at
  refuse_at_quiet state new q s =
      quiet_step (growth_of s.trace) (publish env state (some q) s) _
        (publish_quiet state (some q) s) (λ _ t h. h)
  refuse_at_quiet state replay q s = record_unexecuted_quiet state replay q s

  pub refuse_quiet :
      (state : VirtioMemState) (r : MemoryRequest) (a : RequestAdmission) (reason : Text)
      (s : Session)
      → growth_after (refuse env state r a reason s) ≡ growth_of s.trace
  unfolding refuse now growth_of
  refuse_quiet state r a reason s =
      quiet_step (growth_of s.trace) (now env s) _ refl
        (λ at t h. refuse_at_quiet state a (rejection r at reason) t ∙ h)

  pub after_resize_quiet :
      (r : Ready) (at : ℕ) (outcome : Result ResizeSinkError (Unit {0})) (s : Session)
      → growth_after (after_resize env r at outcome s) ≡ growth_of s.trace
  unfolding after_resize instant_now growth_of
  after_resize_quiet r at (ok _) s =
      let t : Session = record {
        vm = record s.vm { pending_since = some (env.instant s.trace) };
        trace = read_instant ∷ s.trace;
      } in
      quiet_step (growth_of s.trace) (publish env r.state none t) _ (publish_quiet r.state none t)
        (λ _ u h. h)
  after_resize_quiet r at (err (command_rejected reason)) s =
      record_unexecuted_quiet r.state replay (rejection r.request at reason)
        (record s { vm = record (with_intent none s.vm) { outstanding_growth = some 0 } })
  after_resize_quiet r at (err (command_unknown reason)) s =
      let message = sink_message (command_unknown reason) in
      let failed = codes "resize command failed: " ++ message in
      quiet_step (growth_of s.trace) (latch env failed s) _ (latch_quiet failed s) (λ _ t h.
        quiet_step (growth_of s.trace) (publish env r.state none t) _
          (publish_quiet r.state none t ∙ h) (λ _ u k. k))
