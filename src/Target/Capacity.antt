-- ===== src/Target/Capacity.antt =====
-- target_controller.rs: the length of the history.
use virtio_mem_windows_servi.Prelude.{
  ℕ, ◌-◌, ◌≤◌, ◌≡◌, sym, ap, ◌∙◌, subst, inl, inr, ok, arith, Bool-cases, Option-cases,
  Result-cases, length,
}
use virtio_mem_windows_servi.Target.{
  TargetPolicyConfig, TargetGeometry, TargetSample, InstantaneousTarget, calculate_instantaneous,
}
use virtio_mem_windows_servi.Target.History.{
  max_target_history_entries, bucket_millis, observe, drop_excess,
}
use virtio_mem_windows_servi.Target.Estimator.{
  TargetEstimator, TargetEstimatorState, invalidate, prepare_sample, apply_limits, is_high, raise,
  remember, conclude, estimate_state, estimate,
}
use virtio_mem_windows_servi.Target.Estimate.{entry_of}
use virtio_mem_windows_servi.Target.Retention.{
  length-observe, length-drop_excess, length-prune_before,
}

abbrev pub WithinCapacity : TargetEstimatorState → Type 0
WithinCapacity s = length s.history ≤ max_target_history_entries

prepare_capacity :
    (c : TargetPolicyConfig) (s s' : TargetEstimatorState) (sample : TargetSample)
    → prepare_sample c s sample ≡ ok s'
    → WithinCapacity s
    → WithinCapacity s'
unfolding prepare_sample
prepare_capacity c s s' sample h w = ground arith

raise_capacity :
    (s : TargetEstimatorState) (g : TargetGeometry) (base : ℕ) (now : InstantaneousTarget)
    → WithinCapacity s
    → WithinCapacity (raise s g base now)
unfolding raise
raise_capacity s g base now w = ground arith

remember_capacity :
    (c : TargetPolicyConfig) (s : TargetEstimatorState) (sample : TargetSample)
    (now : InstantaneousTarget)
    → WithinCapacity s
    → WithinCapacity (remember c s sample now)
unfolding remember
remember_capacity c s sample now w = elim (Bool-cases (is_high sample.native_pressure)) [
  | inr not_high ↦ rw not_high (omega arith)
  | inl yes_high ↦
      let seen = observe (bucket_millis c.history_window_millis) (entry_of sample now) s.history in
      rw yes_high (
        omega (
          arith,
          length-observe (bucket_millis c.history_window_millis) (entry_of sample now) s.history,
          length-drop_excess seen,
          length-prune_before (sample.monotonic_millis - c.history_window_millis)
              (drop_excess seen),
        ))
]

conclude_history :
    (c : TargetPolicyConfig) (s : TargetEstimatorState) (sample : TargetSample) (g : TargetGeometry)
    (now : InstantaneousTarget)
    → (conclude c s sample g now).0.history ≡ s.history
unfolding conclude
conclude_history c s sample g now = ground arith

invalidate_capacity : (s : TargetEstimatorState) → WithinCapacity (invalidate s)
unfolding invalidate
invalidate_capacity s = omega arith

-- Whatever a call of `estimate` returns, it leaves at most 4096 history entries if there were no
-- more before.
pub estimate-WithinCapacity :
    (t : TargetEstimator) (sample : TargetSample) (g : TargetGeometry)
    → WithinCapacity t.state
    → WithinCapacity (estimate t sample g).0.state
unfolding estimate estimate_state
estimate-WithinCapacity t sample g w =
    elim (Result-cases (calculate_instantaneous t.config sample.memory g)) [
      | inr (x, e) ↦ rw (e, estimate_state) (invalidate_capacity t.state)
      | inl (instant, e) ↦ elim (Result-cases (prepare_sample t.config t.state sample)) [
        | inr (x, p) ↦ rw (e, p, estimate_state) (invalidate_capacity t.state)
        | inl (prepared, p) ↦
            let base = sample.memory.physical_total_bytes - g.current_bytes in
            let wp = prepare_capacity t.config t.state prepared sample p w in
            elim (Result-cases (apply_limits t g base instant)) [
              | inr (x, l) ↦ rw (e, p, l, estimate_state) wp
              | inl (o, l) ↦ elim (Option-cases o) [
                | inl n ↦ rw (e, p, l ∙ ap ok n, estimate_state) (invalidate_capacity prepared)
                | inr (now, n) ↦
                    let s = remember t.config (raise prepared g base now) sample now in
                    rw (e, p, l ∙ ap ok n, estimate_state)
                      (subst (λ x. length x ≤ max_target_history_entries)
                        (sym (conclude_history t.config s sample g now))
                        (remember_capacity t.config (raise prepared g base now) sample now
                          (raise_capacity prepared g base now wp)))
              ]
            ]
      ]
    ]
