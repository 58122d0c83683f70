-- ===== src/Target/Promises.antt =====
-- target_controller.rs, `TargetEstimator::estimate`: what an estimate promises.
use virtio_mem_windows_servi.Prelude.{
  ℕ, ◌+◌, ◌-◌, ◌≤◌, ◌<◌, ◌≡◌, sym, ◌∙◌, subst, inl, inr, true, false, Option, some, ok, arith, [],
  min, max, is_empty,
}
use virtio_mem_windows_servi.VirtioMem.{maximum_target_bytes}
use virtio_mem_windows_servi.Telemetry.{MemoryResourceNotificationState, high}
use virtio_mem_windows_servi.Target.{
  TargetPolicyConfig, TargetGeometry, TargetSample, InstantaneousTarget, TargetEstimate,
}
use virtio_mem_windows_servi.Target.History.{CandidateHistoryEntry, history_is_ready, maximum_of}
use virtio_mem_windows_servi.Target.Estimator.{
  TargetEstimator, TargetEstimatorState, prepare_sample, is_high, raise, remember, estimate_state,
  estimate,
}
use virtio_mem_windows_servi.Target.Instant.{InDevice, instantaneous-InDevice}
use virtio_mem_windows_servi.Target.Bounds.{Limited, apply_limits-Limited}
use virtio_mem_windows_servi.Target.Estimate.{
  Ran, estimate-Ran, raise_bounds, remember-Newest, entry_of, Concluded, conclude-Concluded,
}
use virtio_mem_windows_servi.Target.Retention.{maximum_of-covers}

-- All that is known of a call that succeeds.
pub record Call (t : TargetEstimator) (sample : TargetSample) (g : TargetGeometry)
    (s : TargetEstimatorState) (est : TargetEstimate) : Type 0 where
  pub ran : Ran t sample g s est
  pub device : InDevice t.config g ran.instant
  pub limits : Limited t g ran.base ran.instant ran.now
  pub end :
      Concluded t.config
        (remember t.config (raise ran.prepared g ran.base ran.now) sample ran.now)
        sample
        g
        ran.now
        s
        est

pub call_of :
    (t t' : TargetEstimator) (sample : TargetSample) (g : TargetGeometry) (est : TargetEstimate)
    → estimate t sample g ≡ (t', ok est)
    → Call t sample g t'.state est
call_of t t' sample g est h =
    let e : estimate_state t sample g ≡ (t'.state, ok est) = unfold estimate in ground arith in
    let r = estimate-Ran t sample g t'.state est e in
    let d = instantaneous-InDevice t.config sample.memory g r.instant r.instant_eq in
    record {
      ran = r;
      device = d;
      limits = apply_limits-Limited t t.config g r.base r.instant r.now d r.now_eq;
      end = conclude-Concluded _ _ _ _ _ _ _ r.concluded;
    }

maximum_of_nothing : (f : CandidateHistoryEntry → ℕ) (m : ℕ) → maximum_of f [] ≡ some m → ⊥
unfolding maximum_of
maximum_of_nothing f m h = cc

ready_of_nothing : (now window : ℕ) → history_is_ready [] now window ≡ true → ⊥
unfolding history_is_ready
ready_of_nothing now window h = cc

module _ (c : TargetPolicyConfig) (s : TargetEstimatorState) (sample : TargetSample)
    (now : InstantaneousTarget) where
  -- The maximum of a remembered history covers the sample.
  remembered_desired :
      (m : ℕ)
      → maximum_of (λ h. h.desired_now_bytes) (remember c s sample now).history ≡ some m
      → now.desired_now_bytes ≤ m
  remembered_desired m h = elim ((remember-Newest c s sample now).1) [
    | inl (_, e) ↦ absurd (maximum_of_nothing (λ x. x.desired_now_bytes) m (rw e at h))
    | inr (_, n) ↦
        (maximum_of-covers (entry_of sample now) (remember c s sample now).history m n).0 h
  ]

  remembered_floor :
      (m : ℕ)
      → maximum_of (λ h. h.floor_now_bytes) (remember c s sample now).history ≡ some m
      → now.floor_now_bytes ≤ m
  remembered_floor m h = elim ((remember-Newest c s sample now).1) [
    | inl (_, e) ↦ absurd (maximum_of_nothing (λ x. x.floor_now_bytes) m (rw e at h))
    | inr (_, n) ↦
        (maximum_of-covers (entry_of sample now) (remember c s sample now).history m n).1 h
  ]

  ready_is_high :
      (window : ℕ)
      → history_is_ready (remember c s sample now).history sample.monotonic_millis window ≡ true
      → is_high sample.native_pressure ≡ true
  ready_is_high window h = elim ((remember-Newest c s sample now).1) [
    | inl (_, e) ↦ absurd (ready_of_nothing sample.monotonic_millis window (rw e at h))
    | inr (p, _) ↦ p
  ]

pub record Sound (t : TargetEstimator) (sample : TargetSample) (g : TargetGeometry)
    (est : TargetEstimate) : Type 0 where
  pub floor_within : est.safe_floor_bytes ≤ est.desired_bytes
  pub desired_within : est.desired_bytes ≤ est.effective_maximum_bytes
  pub device_within :
      est.effective_maximum_bytes ≤ maximum_target_bytes g.device_size_bytes g.block_size_bytes
  pub demand_covered : est.desired_now_bytes ≤ est.desired_bytes
  pub ram_minimum :
      t.min_ram ≤ sample.memory.physical_total_bytes - g.current_bytes + est.desired_bytes
  pub ram_maximum :
      sample.memory.physical_total_bytes - g.current_bytes + est.desired_bytes ≤ t.max_ram

-- Every estimate has its safe floor at most its desired size and that at most the device's largest
-- valid target; the desired size is never below the demand of the sample itself, and with the RAM
-- that the guest has beside the device it stays within the configured RAM limits.
pub estimate-Sound :
    (t t' : TargetEstimator) (sample : TargetSample) (g : TargetGeometry) (est : TargetEstimate)
    → estimate t sample g ≡ (t', ok est)
    → Sound t sample g est
estimate-Sound t t' sample g est h =
    let k = call_of t t' sample g est h in
    let r = k.ran in
    let s = raise r.prepared g r.base r.now in
    let (least, up) = raise_bounds r.prepared g r.base r.now k.limits.desired_le_maximum in
    let kept = (remember-Newest t.config s sample r.now).0 in
    let demand : r.now.desired_now_bytes ≤ est.desired_bytes = elim k.end.lowered [
      | inl same ↦ omega (arith, same, kept, least)
      | inr (_, m, _) ↦ remembered_desired t.config s sample r.now est.desired_bytes m
    ] in
    let top : est.desired_bytes ≤ r.now.effective_maximum_bytes = elim k.end.lowered [
      | inl same ↦ omega (arith, same, kept, up)
      | inr (_, _, l) ↦ omega (arith, l, kept, up)
    ] in
    record {
      floor_within = k.end.floor_within;
      desired_within = omega (arith, k.end.maximum_eq, top);
      device_within =
          omega (arith, k.end.maximum_eq, k.limits.maximum_le, k.device.usable.maximum_eq);
      demand_covered = omega (arith, k.end.now_eq, demand);
      ram_minimum = omega (arith, r.base_eq, k.limits.minimum_ram, demand);
      ram_maximum = omega (arith, r.base_eq, k.limits.maximum_ram, top);
    }

-- Reclaim evidence needs Windows' High notification: an estimate is ready for reclaim only when its
-- own sample reported High, and then its safe floor is not below the floor of that sample.
pub ready_needs_high :
    (t t' : TargetEstimator) (sample : TargetSample) (g : TargetGeometry) (est : TargetEstimate)
    → estimate t sample g ≡ (t', ok est)
    → est.history_ready ≡ true
    → (sample.native_pressure ≡ some high) × (est.floor_now_bytes ≤ est.safe_floor_bytes)
ready_needs_high t t' sample g est h ready =
    let k = call_of t t' sample g est h in
    let r = k.ran in
    let s = raise r.prepared g r.base r.now in
    let sound = estimate-Sound t t' sample g est h in
    let p =
      ready_is_high t.config s sample r.now t.config.history_window_millis
        (sym k.end.ready_eq ∙ ready) in
    (
      high_of sample.native_pressure p,
      elim k.end.floored [
        | inl (n, _) ↦ absurd (cc)
        | inr (_, (f, m, e)) ↦ omega (
          arith,
          e,
          k.end.floor_eq,
          k.end.now_eq,
          k.limits.floor_le_desired,
          sound.demand_covered,
          remembered_floor t.config s sample r.now f m,
        )
      ],
    )
  where
    high_of : (o : Option MemoryResourceNotificationState) → is_high o ≡ true → o ≡ some high
    high_of o e = ground arith

pub prepare_keeps :
    (c : TargetPolicyConfig) (s s' : TargetEstimatorState) (sample : TargetSample)
    → prepare_sample c s sample ≡ ok s'
    → (s'.desired_bytes ≡ s.desired_bytes) × (s'.session_id ≡ s.session_id)
unfolding prepare_sample
prepare_keeps c s s' sample h = ground arith

pub raise_started :
    (s : TargetEstimatorState) (g : TargetGeometry) (base : ℕ) (now : InstantaneousTarget)
    → is_empty s.session_id ≡ false
    → (raise s g base now).desired_bytes
      ≡ min (max s.desired_bytes now.desired_now_bytes) now.effective_maximum_bytes
unfolding raise
raise_started s g base now h = ground arith

-- The desired size of a running session falls below both what it was and the effective maximum only on
-- ready evidence from a High sample, and then by at least the hysteresis. The effective maximum is what
-- the device and the configured RAM limit allow; a fall to it needs no evidence.
pub reclaim_needs_evidence :
    (t t' : TargetEstimator) (sample : TargetSample) (g : TargetGeometry) (est : TargetEstimate)
    → estimate t sample g ≡ (t', ok est)
    → is_empty t.state.session_id ≡ false
    → est.desired_bytes < min t.state.desired_bytes est.effective_maximum_bytes
    → (est.history_ready ≡ true)
      × (sample.native_pressure ≡ some high)
      × (est.desired_bytes + t.config.downward_hysteresis_bytes ≤ t.state.desired_bytes)
reclaim_needs_evidence t t' sample g est h running fallen =
    let k = call_of t t' sample g est h in
    let r = k.ran in
    let s = raise r.prepared g r.base r.now in
    let (same_desired, same_session) =
      prepare_keeps t.config t.state r.prepared sample r.prepared_eq in
    let raised =
      raise_started r.prepared g r.base r.now
        (subst (λ x. is_empty x ≡ false) (sym same_session) running) in
    let kept = (remember-Newest t.config s sample r.now).0 in
    elim k.end.lowered [
      | inl same ↦ absurd (omega (arith, same, kept, raised, same_desired, k.end.maximum_eq))
      | inr (ready, m, l) ↦ (
        ready,
        (ready_needs_high t t' sample g est h ready).0,
        omega (
          arith,
          l,
          kept,
          raised,
          same_desired,
          k.end.maximum_eq,
          remembered_desired t.config s sample r.now est.desired_bytes m,
        ),
      )
    ]
