-- ===== src/Target/Remembering.antt =====
-- target_controller.rs: what a sample leaves of the history.
use virtio_mem_windows_servi.Prelude.{
  ℕ, ◌-◌, ◌≤◌, ◌<◌, ◌≡◌, ◌⊎◌, true, false, [], arith, ok, text_eq, is_empty,
}
use virtio_mem_windows_servi.Target.{
  TargetPolicyConfig, TargetGeometry, TargetSample, InstantaneousTarget,
}
use virtio_mem_windows_servi.Target.Estimator.{
  TargetEstimatorState, is_high, remember, raise, prepare_sample,
}
use virtio_mem_windows_servi.Target.Estimate.{entry_of}
use virtio_mem_windows_servi.Target.History.{CandidateHistoryEntry, bucket_millis, observe}
use virtio_mem_windows_servi.Target.Covering.{
  Covers, Spaced, observe-newest, observe-Covers, prune_before-Covers, observe-Spaced,
  drop_excess-Covers, drop_excess-Spaced, prune_before-Spaced,
}

-- A High sample keeps the history spaced and accounts for its own demand, and every demand that the
-- history accounted for still is, as long as it lies within the window.
pub record Remembered (c : TargetPolicyConfig) (s : TargetEstimatorState) (sample : TargetSample)
    (now : InstantaneousTarget) : Type 0 where
  pub spaced :
      Spaced
        (bucket_millis c.history_window_millis)
        sample.monotonic_millis
        (remember c s sample now).history
  pub newest :
      Covers sample.monotonic_millis now.desired_now_bytes (remember c s sample now).history
  pub kept :
      (at demand : ℕ)
      → at < sample.monotonic_millis
      → sample.monotonic_millis - c.history_window_millis ≤ at
      → Covers at demand s.history
      → Covers at demand (remember c s sample now).history

pub remember-Remembered :
    (c : TargetPolicyConfig) (s : TargetEstimatorState) (sample : TargetSample)
    (now : InstantaneousTarget) (last : ℕ)
    → is_high sample.native_pressure ≡ true
    → last ≤ sample.monotonic_millis
    → Spaced (bucket_millis c.history_window_millis) last s.history
    → Remembered c s sample now
unfolding remember
remember-Remembered c s sample now last high l spaced = record {
  spaced =
      rw high
        (prune_before-Spaced bucket mono boundary _ (drop_excess-Spaced bucket mono _ observed));
  newest = rw high (
      prune_before-Covers mono now.desired_now_bytes boundary _ (omega arith) (
        drop_excess-Covers mono now.desired_now_bytes c.history_window_millis mono _ (omega arith)
          observed (observe-newest bucket entry s.history)));
  kept = λ at demand late within covers. rw high (
      prune_before-Covers at demand boundary _ within (
        drop_excess-Covers at demand c.history_window_millis mono _ within observed
          (observe-Covers at demand bucket entry s.history late covers)));
}
  where
    bucket : ℕ
    bucket = bucket_millis c.history_window_millis

    mono : ℕ
    mono = sample.monotonic_millis

    boundary : ℕ
    boundary = sample.monotonic_millis - c.history_window_millis

    entry : CandidateHistoryEntry
    entry = entry_of sample now

    observed : Spaced bucket mono (observe bucket entry s.history)
    observed = observe-Spaced bucket last entry s.history (omega arith) l spaced

pub raised_history :
    (c : TargetPolicyConfig) (s p : TargetEstimatorState) (sample : TargetSample)
    (g : TargetGeometry) (base : ℕ) (now : InstantaneousTarget)
    → prepare_sample c s sample ≡ ok p
    → ((raise p g base now).history ≡ s.history) ⊎ ((raise p g base now).history ≡ [])
unfolding raise prepare_sample
raised_history c s p sample g base now h = ground (arith, h)

pub later_sample :
    (c : TargetPolicyConfig) (s p : TargetEstimatorState) (sample : TargetSample)
    → prepare_sample c s sample ≡ ok p
    → is_empty s.session_id ≡ false
    → text_eq sample.session_id s.session_id ≡ true
    → s.last_monotonic_millis < sample.monotonic_millis
unfolding prepare_sample
later_sample c s p sample h running same = ground (arith, h, running, same)
