-- ===== src/Target/Sessions.antt =====
-- target_controller.rs: the estimators that a session of calls of `TargetEstimator` reaches.
use virtio_mem_windows_servi.Prelude.{
  ℕ, ◌<◌, ◌≡◌, ◌∙◌, refl, inl, inr, ◌⊎◌, false, [], ◌∷◌, arith, ok, err, text_eq, trim, Text,
  is_empty, Bool-cases,
}
use virtio_mem_windows_servi.Target.{
  TargetPolicyConfig, TargetGeometry, TargetSample, InstantaneousTarget, TargetEstimate,
  TargetEstimatorError,
}
use virtio_mem_windows_servi.Target.Estimator.{
  TargetEstimator, TargetEstimatorState, remember, estimate, raise, prepare_sample, new_estimator,
  set_ram_limits, invalidate_history,
}
use virtio_mem_windows_servi.Target.Estimate.{remember-Newest}
use virtio_mem_windows_servi.Target.Promises.{call_of}
use virtio_mem_windows_servi.Target.History.{bucket_millis}
use virtio_mem_windows_servi.Target.Covering.{Spaced}
use virtio_mem_windows_servi.Target.Remembering.{remember-Remembered, raised_history, later_sample}

-- What the calls make of an estimator. A refused estimate leaves the state or clears the history;
-- that it overflows at the very end, after the sample was remembered, is left out.
pub data Session : TargetEstimator → Type 0 where
  started : (c : TargetPolicyConfig) (t : TargetEstimator) → new_estimator c ≡ ok t → Session t
  limited :
      (t t' : TargetEstimator) (minimum maximum : ℕ)
      → Session t
      → set_ram_limits t minimum maximum ≡ ok t'
      → Session t'
  forgotten : (t : TargetEstimator) → Session t → Session (invalidate_history t)
  estimated :
      (t t' : TargetEstimator) (sample : TargetSample) (g : TargetGeometry) (est : TargetEstimate)
      → Session t
      → estimate t sample g ≡ (t', ok est)
      → Session t'
  refused :
      (t t' : TargetEstimator) (sample : TargetSample) (g : TargetGeometry)
      (e : TargetEstimatorError)
      → Session t
      → estimate t sample g ≡ (t', err e)
      → (t'.state ≡ t.state) ⊎ (t'.state.history ≡ [])
      → Session t'

-- The history is spaced up to the last sample, and empty while there was none.
pub record Regular (t : TargetEstimator) : Type 0 where
  pub spaced :
      Spaced
        (bucket_millis t.config.history_window_millis)
        t.state.last_monotonic_millis
        t.state.history
  pub unseen : (is_empty t.state.session_id ≡ false) ⊎ (t.state.history ≡ [])

cleared-Regular : (t : TargetEstimator) → t.state.history ≡ [] → Regular t
cleared-Regular t e = record { spaced = rw e tt; unseen = inr e }

not_blank : (x : Text) → is_empty (trim x) ≡ false → is_empty x ≡ false
unfolding trim
not_blank [] n = n
not_blank (c ∷ cs) n = refl

named_session :
    (c : TargetPolicyConfig) (s p : TargetEstimatorState) (sample : TargetSample)
    → prepare_sample c s sample ≡ ok p
    → is_empty sample.session_id ≡ false
unfolding prepare_sample
named_session c s p sample h = elim (Bool-cases (is_empty (trim sample.session_id))) [
  | inl y ↦ absurd (ground (arith, h, y))
  | inr n ↦ not_blank sample.session_id n
]

other_session :
    (c : TargetPolicyConfig) (s p : TargetEstimatorState) (sample : TargetSample)
    → prepare_sample c s sample ≡ ok p
    → is_empty s.session_id ≡ false
    → text_eq sample.session_id s.session_id ≡ false
    → p.history ≡ []
unfolding prepare_sample
other_session c s p sample h running other = ground (arith, h, running, other)

raised_nothing :
    (p : TargetEstimatorState) (g : TargetGeometry) (base : ℕ) (now : InstantaneousTarget)
    → p.history ≡ []
    → (raise p g base now).history ≡ []
unfolding raise
raised_nothing p g base now e = ground (arith, e)

-- The history that a sample meets is empty, or the earlier one, which ends before the sample.
met_history :
    (t : TargetEstimator) (p : TargetEstimatorState) (sample : TargetSample) (g : TargetGeometry)
    (base : ℕ) (now : InstantaneousTarget)
    → Regular t
    → prepare_sample t.config t.state sample ≡ ok p
    → ((raise p g base now).history ≡ [])
      ⊎ (((raise p g base now).history ≡ t.state.history)
          × (t.state.last_monotonic_millis < sample.monotonic_millis))
met_history t p sample g base now reg h =
    elim (raised_history t.config t.state p sample g base now h) [
      | inr e ↦ inl e
      | inl kept ↦ elim (Bool-cases (is_empty t.state.session_id)) [
        | inl y ↦
            let empty : t.state.history ≡ [] = ground (arith, y, reg.unseen) in inl (kept ∙ empty)
        | inr running ↦ elim (Bool-cases (text_eq sample.session_id t.state.session_id)) [
          | inl same ↦ inr (kept, later_sample t.config t.state p sample h running same)
          | inr other ↦ inl (
              raised_nothing p g base now (other_session t.config t.state p sample h running other))
        ]
      ]
    ]

estimated-Regular :
    (t t' : TargetEstimator) (sample : TargetSample) (g : TargetGeometry) (est : TargetEstimate)
    → Regular t
    → estimate t sample g ≡ (t', ok est)
    → Regular t'
estimated-Regular t t' sample g est reg h =
    let k = call_of t t' sample g est h in
    let r = k.ran in
    let s = raise r.prepared g r.base r.now in
    let same : t'.config ≡ t.config = unfold estimate in ground (arith, h) in
    let named : is_empty t'.state.session_id ≡ false =
      rw k.end.stored_session (named_session t.config t.state r.prepared sample r.prepared_eq) in
    let bucket = bucket_millis t.config.history_window_millis in
    let spaced : Spaced bucket sample.monotonic_millis (remember t.config s sample r.now).history =
      elim ((remember-Newest t.config s sample r.now).1) [
        | inl (_, e) ↦ rw e tt
        | inr (yes_high, _) ↦
            elim (met_history t r.prepared sample g r.base r.now reg r.prepared_eq) [
              | inl e ↦
                  (remember-Remembered t.config s sample r.now 0 yes_high (omega arith)
                    (rw e tt)).spaced
              | inr (e, late) ↦
                  (remember-Remembered t.config s sample r.now t.state.last_monotonic_millis
                    yes_high (omega (arith, late)) (rw e reg.spaced)).spaced
            ]
      ] in
    record {
      spaced = rw (same, k.end.stored_monotonic, k.end.stored_history) spaced;
      unseen = inl named;
    }

-- In every session of calls the entries of the history are each at least a time bucket later than the
-- one before and none is later than the last sample, and there are none before the first estimate. The
-- calls are any that succeed, and estimates that are refused and leave the state or clear the history.
pub Session-Regular : (t : TargetEstimator) → Session t → Regular t
unfolding new_estimator set_ram_limits invalidate_history
Session-Regular t (started c _ h) = cleared-Regular t (ground (arith, h))
Session-Regular t (limited t0 _ minimum maximum s h) = cleared-Regular t (ground (arith, h))
Session-Regular t (forgotten t0 s) = cleared-Regular t refl
Session-Regular t (estimated t0 _ sample g est s h) =
    estimated-Regular t0 t sample g est (Session-Regular t0 s) h
Session-Regular t (refused t0 _ sample g e s h left) =
    let same : t.config ≡ t0.config = unfold estimate in ground (arith, h) in
    let before = Session-Regular t0 s in
    elim left [
      | inr nothing ↦ cleared-Regular t nothing
      | inl kept ↦ record { spaced = rw (same, kept) before.spaced; unseen = rw kept before.unseen }
    ]
