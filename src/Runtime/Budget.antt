-- ===== src/Runtime/Budget.antt =====
-- host/src/runtime.rs, `HostBudget`: the host memory that the VMs of one round may take together.
use virtio_mem_windows_servi.Prelude.{
  ℕ, ◌+◌, ◌-◌, ◌<◌, ◌≤◌, ◌≡◌, ◌∙◌, ap, ◌∷◌, u64_mod, refl, Bool, true, false, not, Option, none,
  some, Result, ok, err, arith, max, if◌then◌else◌, subst, saturating_add, ◌==◌, is_multiple_of,
}
use virtio_mem_windows_servi.MemoryRequest.{MemoryOperation, add, remove, RequestError}
use virtio_mem_windows_servi.HostMemory.{grow_admission_margin_bytes}
use virtio_mem_windows_servi.Runtime.{
  HostRuntimeError, Step, wait, stop, Ready, Observed, held, ready, stopping, Environment, Session,
  Trace, Action, pure, continue, now, stop_requested, save, read_host_memory, read_stop,
  read_unix_clock,
}
use virtio_mem_windows_servi.Runtime.Control.{with_intent, next_operation_id, admit_if_new}
use virtio_mem_windows_servi.Runtime.Grant.{growth_caps, smallest, growth_grant, host_room}
use virtio_mem_windows_servi.Runtime.Growth.{
  growth_of, growth_after, admit_if_new_quiet, save_quiet, record_unexecuted_quiet, refuse_quiet,
  after_resize_quiet,
}
use virtio_mem_windows_servi.Config.{HostConfig}
use virtio_mem_windows_servi.VirtioMem.{VirtioMemState}
use virtio_mem_windows_servi.Runtime.Act.{
  authorize, granted_target, grant_for, available_bytes, resize_device, after_resize, execute,
  keeping, act_granted, act_valid, act,
}
use virtio_mem_windows_servi.Runtime.Round.{after_step, act_member}
use virtio_mem_windows_servi.Runtime.Admitting.{granted_intent}

-- A property of the value of an action that succeeds.
abbrev Gives : {A : Type 0} → (A → Type 0) → Result HostRuntimeError A × Session → Type 0
Gives {A} Q r = (a : A) → r.0 ≡ ok a → Q a

-- The bytes committed and the growth commanded rise together, as far as the room allows.
abbrev pub Costs : ℕ → ℕ → ℕ → ℕ → ℕ → Type 0
Costs room c c' g g' = c + g' + max c' room ≤ c' + g + max c room

-- After an action that starts with `c` bytes committed and a growth of `g` commanded: what it returns as
-- committed accounts for the growth, and an error leaves the growth within the room.
abbrev pub Spends :
    {A : Type 0} → (A → ℕ) → ℕ → ℕ → ℕ → Result HostRuntimeError A × Session → Type 0
Spends total room c g (ok a, s) = Costs room c (total a) g (growth_of s.trace)
Spends total room c g (err e, s) = c + growth_of s.trace ≤ g + max c room

pub spend_step :
    {A B : Type 0} (total : B → ℕ) (room c g : ℕ) (r : Result HostRuntimeError A × Session)
    (k : A → Action B)
    → growth_after r ≡ g
    → ((a : A) → r.0 ≡ ok a → growth_after r ≡ g → Spends total room c g (k a r.1))
    → Spends total room c g (continue r.0 k r.1)
spend_step total room c g (ok a, s) k h f = f a refl h
spend_step total room c g (err m, s) k h f = omega (arith, h)

spend_branch :
    {A : Type 0} (total : A → ℕ) (room c g : ℕ) (m k : Action A) (s : Session) (b : Bool)
    → Spends total room c g (m s)
    → Spends total room c g (k s)
    → Spends total room c g ((if b then m else k) s)
spend_branch total room c g m k s true p q = p
spend_branch total room c g m k s false p q = q

growth_grant-le-room :
    (config : HostConfig) (base_ram : ℕ) (state : VirtioMemState) (bytes : ℕ) (ceiling : Option ℕ)
    (available committed : ℕ)
    → growth_grant config base_ram state bytes ceiling available committed
      ≤ available - committed - config.host_min_headroom_bytes - grow_admission_margin_bytes
unfolding growth_grant growth_caps smallest host_room
growth_grant-le-room config base_ram state bytes ceiling available committed = omega arith

saturated :
    (c d room g : ℕ) → d ≤ room - c → room < u64_mod → Costs room c (saturating_add c d) g (g + d)
saturated c d room g h small = ground (arith, h, small)

module _ (env : Environment) (available headroom : ℕ) (small : available < u64_mod)
    (steady : (t : Trace) → env.available_bytes t ≡ ok available) where
  -- What all growth of a round may take.
  abbrev pub round_room : ℕ
  round_room = available - headroom - grow_admission_margin_bytes

  abbrev Accounts : ℕ → ℕ → Result HostRuntimeError (Step × ℕ) × Session → Type 0
  Accounts c g r = Spends (λ q. q.1) round_room c g r

  keeping-Accounts :
      (c : ℕ) (m : Action Step) (s : Session)
      → growth_after (m s) ≡ growth_of s.trace
      → Accounts c (growth_of s.trace) (keeping env c m s)
  unfolding keeping
  keeping-Accounts c m s h =
      spend_step (λ q. q.1) round_room c (growth_of s.trace) (m s) _ h
        (λ st e h'. omega (arith, h'))

  grant_for-within :
      (o : MemoryOperation) (r : Ready) (ceiling : Option ℕ) (committed : ℕ) (s : Session)
      → s.vm.config.host_min_headroom_bytes ≡ headroom
      → Gives
          (λ grant.
            granted_target o r.state.current_bytes grant - r.state.current_bytes
            ≤ available - committed - headroom - grow_admission_margin_bytes)
          (grant_for env o r ceiling committed s)
  unfolding grant_for available_bytes granted_target
  grant_for-within remove r ceiling committed s c grant e = omega arith
  grant_for-within add r ceiling committed s c grant e =
      let given : growth_grant s.vm.config r.base_ram r.state r.request.bytes ceiling available
            committed
          ≡ grant =
        ground (arith, steady s.trace, e) in
      omega (
        arith,
        growth_grant-le-room s.vm.config r.base_ram r.state r.request.bytes ceiling available
            committed,
        c,
      )

  grant_for_quiet :
      (o : MemoryOperation) (r : Ready) (ceiling : Option ℕ) (c : ℕ) (s : Session)
      → growth_after (grant_for env o r ceiling c s) ≡ growth_of s.trace
  unfolding grant_for available_bytes growth_of
  grant_for_quiet remove r ceiling c s = refl
  grant_for_quiet add r ceiling c s = rw (steady s.trace) refl

  commanded_spends :
      (c g d : ℕ) (r : Result HostRuntimeError Step × Session)
      → d ≤ round_room - c
      → growth_after r ≡ d + g
      → Accounts c g (continue r.0 (λ st. pure (st, saturating_add c d)) r.1)
  commanded_spends c g d (ok st, s) within h =
      omega (arith, h, saturated c d round_room g within (omega (arith, small)))
  commanded_spends c g d (err e, s) within h = omega (arith, h, within)

  execute-Accounts :
      (r : Ready) (c at target : ℕ) (s : Session)
      → target - r.state.current_bytes ≤ round_room - c
      → Accounts c (growth_of s.trace) (execute env r c at target s)
  unfolding execute next_operation_id resize_device growth_of
  execute-Accounts r c at target s within =
      let g = growth_of s.trace in
      let growth = target - r.state.current_bytes in
      let s' : Session = record s {
        vm = record s.vm { operation_counter = saturating_add s.vm.operation_counter 1 };
      } in
      spend_step (λ q. q.1) round_room c g (admit_if_new r.admission r.request at s') _
        (admit_if_new_quiet r.admission r.request at s')
        (λ _ _ h.
          let t = (admit_if_new r.admission r.request at s').1 in
          let intent = granted_intent env r at target s'.vm.operation_counter in
          let t' : Session = record t { vm = with_intent (some intent) t.vm } in
          spend_step (λ q. q.1) round_room c g (save env t') _ (save_quiet env t' ∙ h)
            (λ _ _ h'.
              let u = (save env t').1 in
              let u' : Session = record u {
                vm = record u.vm { outstanding_growth = some growth };
              } in
              let x = resize_device env u'.vm.config r.state target c u' in
              commanded_spends c g growth
                (after_resize env r at
                  (env.request_resize_guarded (read_host_memory ∷ u'.trace) r.state target (
                    authorize (env.available_bytes u'.trace) c r.state.current_bytes target
                      u'.vm.config.host_min_headroom_bytes))
                  x.1)
                within (after_resize_quiet env r at _ x.1 ∙ ap (λ n. growth + n) h')))

  act_granted-Accounts :
      (r : Ready) (c at grant : ℕ) (s : Session)
      → granted_target r.request.operation r.state.current_bytes grant - r.state.current_bytes
        ≤ round_room - c
      → Accounts c (growth_of s.trace) (act_granted env r c at grant s)
  unfolding act_granted stop_requested growth_of
  act_granted-Accounts r c at grant s within =
      let g = growth_of s.trace in
      let target = granted_target r.request.operation r.state.current_bytes grant in
      let t : Session = record s { trace = read_stop ∷ s.trace } in
      spend_branch (λ q. q.1) round_room c g _ _ s s.vm.config.observe_only
        (keeping-Accounts c _ s (refuse_quiet env r.state r.request r.admission _ s))
        (spend_branch (λ q. q.1) round_room c g _ _ s (grant == 0)
          (keeping-Accounts c _ s (record_unexecuted_quiet env r.state r.admission _ s))
          (spend_branch (λ q. q.1) round_room c g _ _ t (env.stop_requested s.trace) (omega arith)
            (execute-Accounts r c at target t within)))

  act_valid-Accounts :
      (r : Ready) (ceiling : Option ℕ) (c at : ℕ) (checked : Result RequestError (Unit {0}))
      (s : Session)
      → s.vm.config.host_min_headroom_bytes ≡ headroom
      → Accounts c (growth_of s.trace) (act_valid env r ceiling c at checked s)
  unfolding act_valid
  act_valid-Accounts r ceiling c at (err e) s k =
      keeping-Accounts c _ s (refuse_quiet env r.state r.request r.admission _ s)
  act_valid-Accounts r ceiling c at (ok _) s k =
      let g = growth_of s.trace in
      let granted = grant_for env r.request.operation r ceiling c s in
      spend_branch (λ q. q.1) round_room c g _ _ s
        (not (is_multiple_of r.request.bytes r.state.block_size_bytes))
        (keeping-Accounts c _ s (refuse_quiet env r.state r.request r.admission _ s))
        (spend_step (λ q. q.1) round_room c g granted _
          (grant_for_quiet r.request.operation r ceiling c s)
          (λ grant e h.
            subst (λ n. Accounts c n (act_granted env r c at grant granted.1)) h
              (act_granted-Accounts r c at grant granted.1
                (omega (arith, grant_for-within r.request.operation r ceiling c s k grant e)))))

  act-Accounts :
      (r : Ready) (ceiling : Option ℕ) (c : ℕ) (s : Session)
      → s.vm.config.host_min_headroom_bytes ≡ headroom
      → Accounts c (growth_of s.trace) (act env r ceiling c s)
  unfolding act now growth_of
  act-Accounts r ceiling c s k =
      let t : Session = record s { trace = read_unix_clock ∷ s.trace } in
      spend_step (λ q. q.1) round_room c (growth_of s.trace) (now env s) _ refl
        (λ at _ _. act_valid-Accounts r ceiling c at _ t k)

  after_step-Accounts :
      (c g : ℕ) (r : Result HostRuntimeError (Step × ℕ) × Session)
      → Accounts c g r
      → Spends (λ q. q.0) round_room c g (continue r.0 after_step r.1)
  unfolding after_step
  after_step-Accounts c g (ok (wait, c'), s) k = k
  after_step-Accounts c g (ok (stop e, c'), s) k = k
  after_step-Accounts c g (err e, s) k = k

  pub act_member-Accounts :
      (seen : Option Observed) (ceiling : Option ℕ) (c : ℕ) (s : Session)
      → s.vm.config.host_min_headroom_bytes ≡ headroom
      → Spends (λ q. q.0) round_room c (growth_of s.trace) (act_member env seen ceiling c s)
  unfolding act_member
  act_member-Accounts none ceiling c s k = omega arith
  act_member-Accounts (some (held charge)) ceiling c s k = omega arith
  act_member-Accounts (some (stopping e)) ceiling c s k = omega arith
  act_member-Accounts (some (ready r)) ceiling c s k =
      after_step-Accounts c (growth_of s.trace) (act env r ceiling c s)
        (act-Accounts r ceiling c s k)
