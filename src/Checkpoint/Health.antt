-- ===== src/Checkpoint/Health.antt =====
-- host/src/checkpoint.rs, `read_controller_status`: what the reported health means.
use virtio_mem_windows_servi.Config.{HostConfig}
use virtio_mem_windows_servi.Prelude.{
  ℕ, ◌≡◌, ◌≢◌, refl, ◌↔◌, ◌⊎◌, inl, inr, Bool, true, false, ◌&&◌, Option, none, some, arith, Text,
  Option-cases,
}
use virtio_mem_windows_servi.VirtioMem.{VirtioMemState}
use virtio_mem_windows_servi.Status.{converged, latched, review_required, GuestInputStatus}
use virtio_mem_windows_servi.Checkpoint.{
  CommandIntent, DurableControlState, command_ownership, is_pending, is_latched,
}
use virtio_mem_windows_servi.Checkpoint.Report.{snapshot, recovery_reason, ownership_reason, health}

-- Nothing needs the operator's review: no latch, no pending state under other evidence, and live state
-- that is at rest without a command or on its way to the recorded target.
pub record Clean (changed : Bool) (control : DurableControlState) (live : VirtioMemState)
    : Type 0 where
  pub latch : control.latch_reason ≡ none
  pub evidence : changed && is_pending control ≡ false
  pub command :
      ((control.intent ≡ none) × (live.requested_bytes ≡ live.current_bytes))
      ⊎ ((i : CommandIntent) × (control.intent ≡ some i)
          × (live.requested_bytes ≡ i.target_bytes)
          × (live.current_bytes ≢ i.target_bytes))

ownership_clean :
    (intent : Option CommandIntent) (live : VirtioMemState)
    → (ownership_reason (command_ownership intent live) ≡ none) ↔ (
        ((intent ≡ none) × (live.requested_bytes ≡ live.current_bytes))
        ⊎ ((i : CommandIntent) × (intent ≡ some i)
            × (live.requested_bytes ≡ i.target_bytes)
            × (live.current_bytes ≢ i.target_bytes)))
unfolding ownership_reason command_ownership
ownership_clean none live = ground arith
ownership_clean (some i) live = (
  λ h. inr (i, refl, ground arith, ground arith),
  λ h. elim h [ inl (n, _) ↦ absurd (ground arith) | inr (j, e, r, c) ↦ ground arith ],
)

reason_none_iff :
    (changed : Bool) (control : DurableControlState) (live : VirtioMemState)
    → (recovery_reason control changed (command_ownership control.intent live) ≡ none)
      ↔ Clean changed control live
reason_none_iff changed control live = (
  λ h. elim (Option-cases control.latch_reason) [
    | inl l ↦ record {
      latch = l;
      evidence = unfold recovery_reason in ground (arith, l, h);
      command =
          (ownership_clean control.intent live).0 (unfold recovery_reason in ground (arith, l, h));
    }
    | inr (t, l) ↦ absurd (unfold recovery_reason in ground (arith, l, h))
  ],
  λ c.
      unfold recovery_reason in
      ground (arith, c.latch, c.evidence, (ownership_clean control.intent live).1 c.command),
)

clean_health :
    (control : DurableControlState) (live : VirtioMemState)
    → control.latch_reason ≡ none
    → ((control.intent ≡ none) × (live.requested_bytes ≡ live.current_bytes))
      ⊎ ((i : CommandIntent) × (control.intent ≡ some i)
          × (live.requested_bytes ≡ i.target_bytes)
          × (live.current_bytes ≢ i.target_bytes))
    → (health control none (command_ownership control.intent live) ≡ converged)
      ↔ (control.intent ≡ none)
unfolding health command_ownership is_latched
clean_health control live l c = elim c [
  | inl (n, e) ↦ (λ h. n, λ h. ground (arith, l, n, e))
  | inr (i, e, r, ne) ↦
      (λ h. absurd (ground (arith, l, e, r, ne, h)), λ h. absurd (ground (arith, h, e)))
]

-- The status asks for no review exactly when nothing needs one, it reports convergence exactly when
-- in addition no command is recorded and the device holds what was requested of it, and it reports a
-- latch exactly when there is one.
pub health_iff :
    (config : HostConfig) (live : VirtioMemState) (guest_input : GuestInputStatus)
    (fingerprint : Text) (observed : ℕ) (changed : Bool) (control : DurableControlState)
    (last : Option Text)
    → let s = snapshot config live guest_input fingerprint observed changed control last in
      (((s.recovery_state ≢ review_required) ↔ Clean changed control live)
        × ((s.control_health ≡ converged) ↔ (Clean changed control live × (control.intent ≡ none)))
        × ((s.control_health ≡ latched) ↔ (s.actuation_latched ≡ true)))
health_iff config live guest_input fingerprint observed changed control last =
    let ownership = command_ownership control.intent live in
    let reason = recovery_reason control changed ownership in
    let clean = reason_none_iff changed control live in
    (
      (
        λ h. elim (Option-cases reason) [
          | inl n ↦ clean.0 n
          | inr (t, e) ↦ absurd (unfold snapshot in ground (arith, e, h))
        ],
        λ c. let n = clean.1 c in unfold snapshot in ground (arith, n),
      ),
      (
        λ h. elim (Option-cases reason) [
          | inl n ↦
              let c = clean.0 n in
              let rested : health control none ownership ≡ converged =
                unfold snapshot in ground (arith, n, h) in
              (c, (clean_health control live c.latch c.command).0 rested)
          | inr (t, e) ↦ absurd (unfold snapshot health in ground (arith, e, h))
        ],
        λ (c, rest).
            let n = clean.1 c in
            let rested = (clean_health control live c.latch c.command).1 rest in
            unfold snapshot in ground (arith, n, rested),
      ),
      unfold snapshot health is_latched in ground arith,
    )
