-- ===== src/Target/Window.antt =====
-- target_controller.rs: which samples the history still accounts for.
use virtio_mem_windows_servi.Prelude.{
  ℕ, ◌-◌, ◌≤◌, ◌<◌, ◌≡◌, refl, subst, sym, inl, inr, true, false, [], arith, ok, text_eq, is_empty,
  min,
}
use virtio_mem_windows_servi.Target.{
  TargetPolicyConfig, TargetGeometry, TargetSample, InstantaneousTarget, TargetEstimate,
}
use virtio_mem_windows_servi.Target.Estimator.{
  TargetEstimator, TargetEstimatorState, is_high, remember, estimate, raise,
}
use virtio_mem_windows_servi.Target.Estimate.{remember-Newest}
use virtio_mem_windows_servi.Target.Promises.{
  call_of, raise_started, prepare_keeps, reclaim_needs_evidence,
}
use virtio_mem_windows_servi.Target.History.{
  observe, drop_excess, prune_before, prune_history, history_is_ready,
}
use virtio_mem_windows_servi.Target.Covering.{Covers, maximum_of-Covers}
use virtio_mem_windows_servi.Target.Remembering.{remember-Remembered, raised_history, later_sample}
use virtio_mem_windows_servi.Target.Sessions.{Session, Session-Regular}

restarted_unready :
    (c : TargetPolicyConfig) (s : TargetEstimatorState) (sample : TargetSample)
    (now : InstantaneousTarget)
    → s.history ≡ []
    → is_high sample.native_pressure ≡ true
    → 0 < c.history_window_millis
    → history_is_ready
        (remember c s sample now).history
        sample.monotonic_millis
        c.history_window_millis
      ≡ false
unfolding remember history_is_ready observe drop_excess prune_before prune_history
restarted_unready c s sample now e high p = rw (high, e) (ground (arith, p))

-- Reclaim never goes below a demand of the window: when the desired size of a running session falls
-- below the lesser of the old size and the effective maximum, which is the device's capacity or the RAM
-- limit, it stays at least every demand of the last window that the history of the same session
-- accounted for. The estimator is one that a session of calls reaches, without an overflow in the
-- reclaim decision. It is not said of a fall to the effective maximum.
pub reclaim_above_window :
    (t t' : TargetEstimator) (sample : TargetSample) (g : TargetGeometry) (est : TargetEstimate)
    (at demand : ℕ)
    → Session t
    → estimate t sample g ≡ (t', ok est)
    → is_empty t.state.session_id ≡ false
    → text_eq sample.session_id t.state.session_id ≡ true
    → Covers at demand t.state.history
    → at ≤ t.state.last_monotonic_millis
    → sample.monotonic_millis - t.config.history_window_millis ≤ at
    → est.desired_bytes < min t.state.desired_bytes est.effective_maximum_bytes
    → demand ≤ est.desired_bytes
reclaim_above_window t t' sample g est at demand session h running same covers old within fallen =
    let k = call_of t t' sample g est h in
    let r = k.ran in
    let s = raise r.prepared g r.base r.now in
    let (ready, pressure, _) = reclaim_needs_evidence t t' sample g est h running fallen in
    let yes_high : is_high sample.native_pressure ≡ true = rw pressure refl in
    let late = later_sample t.config t.state r.prepared sample r.prepared_eq running same in
    elim (raised_history t.config t.state r.prepared sample g r.base r.now r.prepared_eq) [
      | inr restarted ↦
          let unready =
            restarted_unready t.config s sample r.now restarted yes_high
              k.device.usable.window_pos in
          absurd (ground (arith, ready, k.end.ready_eq, unready))
      | inl continued ↦
          let kept =
            remember-Remembered t.config s sample r.now t.state.last_monotonic_millis yes_high
              (omega (arith, late)) (rw continued (Session-Regular t session).spaced) in
          let covered =
            kept.kept at demand (omega (arith, late, old)) within (rw continued covers) in
          let (m, top, below) = maximum_of-Covers at demand _ covered in
          elim k.end.lowered [
            | inl stayed ↦
                let (desired_eq, session_eq) =
                  prepare_keeps t.config t.state r.prepared sample r.prepared_eq in
                let raised =
                  raise_started r.prepared g r.base r.now
                    (subst (λ x. is_empty x ≡ false) (sym session_eq) running) in
                let same_desired = (remember-Newest t.config s sample r.now).0 in
                absurd (
                  omega (arith, stayed, same_desired, raised, desired_eq, k.end.maximum_eq, fallen))
            | inr (_, chosen, _) ↦
                let found : m ≡ est.desired_bytes = ground (arith, top, chosen) in
                omega (arith, below, found)
          ]
    ]
