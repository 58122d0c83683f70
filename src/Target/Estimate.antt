-- ===== src/Target/Estimate.antt =====
-- target_controller.rs, `estimate`: the stages of a call that succeeds, and what it returns.
use virtio_mem_windows_servi.Prelude.{
  ℕ, ◌+◌, ◌-◌, ◌≤◌, ◌≡◌, refl, ap, ◌∙◌, ◌⊎◌, inl, inr, true, false, some, ok, err, Result, arith,
  [], Bool-cases, Option-cases, Result-cases, min,
}
use virtio_mem_windows_servi.Target.{
  TargetPolicyConfig, TargetGeometry, TargetSample, InstantaneousTarget, TargetEstimate,
  TargetEstimatorError, calculate_instantaneous,
}
use virtio_mem_windows_servi.Target.History.{
  CandidateHistoryEntry, bucket_millis, observe, drop_excess, history_is_ready, maximum_of,
}
use virtio_mem_windows_servi.Target.Estimator.{
  TargetEstimator, TargetEstimatorState, prepare_sample, apply_limits, is_high, raise, remember,
  conclude, estimate_state,
}
use virtio_mem_windows_servi.Target.Retention.{
  Newest, observe-Newest, drop_excess-Newest, prune_before-Newest,
}

-- The stages that a call of `estimate` passed to succeed.
pub record Ran (t : TargetEstimator) (sample : TargetSample) (g : TargetGeometry)
    (s : TargetEstimatorState) (est : TargetEstimate) : Type 0 where
  pub base : ℕ
  pub base_eq : base ≡ sample.memory.physical_total_bytes - g.current_bytes
  pub instant : InstantaneousTarget
  pub instant_eq : calculate_instantaneous t.config sample.memory g ≡ ok instant
  pub prepared : TargetEstimatorState
  pub prepared_eq : prepare_sample t.config t.state sample ≡ ok prepared
  pub now : InstantaneousTarget
  pub now_eq : apply_limits t g base instant ≡ ok (some now)
  pub concluded :
      conclude t.config (remember t.config (raise prepared g base now) sample now) sample g now
      ≡ (s, ok est)

pub estimate-Ran :
    (t : TargetEstimator) (sample : TargetSample) (g : TargetGeometry) (s : TargetEstimatorState)
    (est : TargetEstimate)
    → estimate_state t sample g ≡ (s, ok est)
    → Ran t sample g s est
unfolding estimate_state
estimate-Ran t sample g s est h =
    elim (Result-cases (calculate_instantaneous t.config sample.memory g)) [
      | inr (x, e) ↦ absurd (failed (rw (e, estimate_state) at h))
      | inl (instant, e) ↦ elim (Result-cases (prepare_sample t.config t.state sample)) [
        | inr (x, p) ↦ absurd (failed (rw (e, p, estimate_state) at h))
        | inl (prepared, p) ↦
            elim (Result-cases
              (apply_limits t g (sample.memory.physical_total_bytes - g.current_bytes) instant)) [
                | inr (x, l) ↦ absurd (failed (rw (e, p, l, estimate_state) at h))
                | inl (o, l) ↦ elim (Option-cases o) [
                  | inl n ↦ absurd (failed (rw (e, p, l ∙ ap ok n, estimate_state) at h))
                  | inr (now, n) ↦ record {
                    base = sample.memory.physical_total_bytes - g.current_bytes;
                    base_eq = refl;
                    instant = instant;
                    instant_eq = e;
                    prepared = prepared;
                    prepared_eq = p;
                    now = now;
                    now_eq = l ∙ ap ok n;
                    concluded = rw (e, p, l ∙ ap ok n, estimate_state) at h;
                  }
                ]
              ]
      ]
    ]
  where
    failed :
        {s' : TargetEstimatorState} {x : TargetEstimatorError}
        → ◌≡◌ {A = TargetEstimatorState × Result TargetEstimatorError TargetEstimate}
            (s', err x)
            (s, ok est)
        → ⊥
    failed k = cc

-- The desired size after growth lies between the sample's demand and the maximum.
pub raise_bounds :
    (s : TargetEstimatorState) (g : TargetGeometry) (base : ℕ) (now : InstantaneousTarget)
    → now.desired_now_bytes ≤ now.effective_maximum_bytes
    → (now.desired_now_bytes ≤ (raise s g base now).desired_bytes)
      × ((raise s g base now).desired_bytes ≤ now.effective_maximum_bytes)
unfolding raise
raise_bounds s g base now h = (omega arith, omega arith)

abbrev pub entry_of : TargetSample → InstantaneousTarget → CandidateHistoryEntry
entry_of sample now = record {
  monotonic_millis = sample.monotonic_millis;
  desired_now_bytes = now.desired_now_bytes;
  floor_now_bytes = now.floor_now_bytes;
}

-- After a sample the history is empty unless the pressure was High, and then ends in the sample.
pub remember-Newest :
    (c : TargetPolicyConfig) (s : TargetEstimatorState) (sample : TargetSample)
    (now : InstantaneousTarget)
    → ((remember c s sample now).desired_bytes ≡ s.desired_bytes)
      × ((is_high sample.native_pressure ≡ false) × ((remember c s sample now).history ≡ [])
          ⊎ (is_high sample.native_pressure ≡ true)
            × Newest (entry_of sample now) (remember c s sample now).history)
unfolding remember
remember-Newest c s sample now = elim (Bool-cases (is_high sample.native_pressure)) [
  | inl yes_high ↦ rw yes_high (
    refl,
    inr (
      refl,
      prune_before-Newest (sample.monotonic_millis - c.history_window_millis) (entry_of sample now)
          (drop_excess
            (observe (bucket_millis c.history_window_millis) (entry_of sample now) s.history))
          (drop_excess-Newest (entry_of sample now)
            (observe (bucket_millis c.history_window_millis) (entry_of sample now) s.history)
            (observe-Newest (bucket_millis c.history_window_millis) (entry_of sample now)
              s.history)),
    ),
  )
  | inr not_high ↦ rw not_high (refl, inl (refl, refl))
]

-- What the end of `estimate` makes of the remembered state.
pub record Concluded (c : TargetPolicyConfig) (s : TargetEstimatorState) (sample : TargetSample)
    (g : TargetGeometry) (now : InstantaneousTarget) (s' : TargetEstimatorState)
    (est : TargetEstimate) : Type 0 where
  pub floor_within : est.safe_floor_bytes ≤ est.desired_bytes
  pub maximum_eq : est.effective_maximum_bytes ≡ now.effective_maximum_bytes
  pub now_eq : est.desired_now_bytes ≡ now.desired_now_bytes
  pub floor_eq : est.floor_now_bytes ≡ now.floor_now_bytes
  pub limited_eq : est.capacity_limited ≡ now.capacity_limited
  pub ready_eq :
      est.history_ready ≡ history_is_ready s.history sample.monotonic_millis c.history_window_millis
  pub stored_desired : s'.desired_bytes ≡ est.desired_bytes
  pub stored_floor : s'.safe_floor_bytes ≡ est.safe_floor_bytes
  pub stored_session : s'.session_id ≡ sample.session_id
  pub stored_monotonic : s'.last_monotonic_millis ≡ sample.monotonic_millis
  pub stored_sequence : s'.last_sequence ≡ sample.sequence
  pub stored_base : s'.last_visible_base_bytes ≡ s.last_visible_base_bytes
  pub stored_history : s'.history ≡ s.history
  pub lowered :
      (est.desired_bytes ≡ s.desired_bytes)
      ⊎ ((est.history_ready ≡ true)
          × (maximum_of (λ h. h.desired_now_bytes) s.history ≡ some est.desired_bytes)
          × (est.desired_bytes + c.downward_hysteresis_bytes ≤ s.desired_bytes))
  pub floored :
      ((est.history_ready ≡ false) × (est.safe_floor_bytes ≡ min g.current_bytes est.desired_bytes))
      ⊎ ((est.history_ready ≡ true)
          × ((f : ℕ) × (maximum_of (λ h. h.floor_now_bytes) s.history ≡ some f)
              × (est.safe_floor_bytes ≡ min f est.desired_bytes)))

pub conclude-Concluded :
    (c : TargetPolicyConfig) (s : TargetEstimatorState) (sample : TargetSample) (g : TargetGeometry)
    (now : InstantaneousTarget) (s' : TargetEstimatorState) (est : TargetEstimate)
    → conclude c s sample g now ≡ (s', ok est)
    → Concluded c s sample g now s' est
unfolding conclude
conclude-Concluded c s sample g now s' est h = ground arith
