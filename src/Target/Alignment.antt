-- ===== src/Target/Alignment.antt =====
-- target_controller.rs, `estimate`: its sizes and the device's blocks.
use virtio_mem_windows_servi.Prelude.{
  ℕ, ◌-◌, ◌%◌, ◌≡◌, inl, inr, some, List, [], ◌∷◌, ok, arith, min, max, ltb, leb, Bool-cases,
  Option-cases, is_empty, is_some_and, not, ◌==◌, All,
}
use virtio_mem_windows_servi.Target.{
  TargetPolicyConfig, TargetGeometry, TargetSample, InstantaneousTarget, TargetEstimate,
}
use virtio_mem_windows_servi.Target.History.{
  CandidateHistoryEntry, bucket_millis, observe, drop_excess, prune_before, maximum_of,
}
use virtio_mem_windows_servi.Target.Estimator.{
  TargetEstimator, TargetEstimatorState, prepare_sample, is_high, raise, remember, estimate,
}
use virtio_mem_windows_servi.Target.Instant.{min_aligned}
use virtio_mem_windows_servi.Target.Estimate.{entry_of}
use virtio_mem_windows_servi.Target.Promises.{call_of}

abbrev pub Whole : ℕ → CandidateHistoryEntry → Type 0
Whole b h = (h.desired_now_bytes % b ≡ 0) × (h.floor_now_bytes % b ≡ 0)

pub max_aligned : (x y b : ℕ) → x % b ≡ 0 → y % b ≡ 0 → max x y % b ≡ 0
max_aligned x y b p q = ground (arith, p, q)

observe-Whole :
    (b bucket : ℕ) (e : CandidateHistoryEntry) (hs : List CandidateHistoryEntry)
    → Whole b e
    → All (Whole b) hs
    → All (Whole b) (observe bucket e hs)
unfolding observe
observe-Whole b bucket e [] w a = (w, tt)
observe-Whole b bucket e (last ∷ []) w a =
    elim (Bool-cases (ltb (e.monotonic_millis - last.monotonic_millis) bucket)) [
      | inl y ↦ rw y (
        (
          max_aligned last.desired_now_bytes e.desired_now_bytes b a.0.0 w.0,
          max_aligned last.floor_now_bytes e.floor_now_bytes b a.0.1 w.1,
        ),
        tt,
      )
      | inr n ↦ rw n (a.0, (w, tt))
    ]
observe-Whole b bucket e (h ∷ h' ∷ hs) w a = (a.0, observe-Whole b bucket e (h' ∷ hs) w a.1)

drop_excess-Whole :
    (b : ℕ) (hs : List CandidateHistoryEntry) → All (Whole b) hs → All (Whole b) (drop_excess hs)
unfolding drop_excess
drop_excess-Whole b [] a = tt
drop_excess-Whole b (h ∷ hs) a = ground (arith, a)

prune_before-Whole :
    (b boundary : ℕ) (hs : List CandidateHistoryEntry)
    → All (Whole b) hs
    → All (Whole b) (prune_before boundary hs)
unfolding prune_before
prune_before-Whole b boundary [] a = tt
prune_before-Whole b boundary (h ∷ []) a = a
prune_before-Whole b boundary (h ∷ h' ∷ hs) a =
    elim (Bool-cases (leb h'.monotonic_millis boundary)) [
      | inl y ↦ rw y (prune_before-Whole b boundary (h' ∷ hs) a.1)
      | inr n ↦ rw n a
    ]

maximum_of_aligned :
    (f : CandidateHistoryEntry → ℕ) (b : ℕ) (hs : List CandidateHistoryEntry) (m : ℕ)
    → All (λ h. f h % b ≡ 0) hs
    → maximum_of f hs ≡ some m
    → m % b ≡ 0
unfolding maximum_of
maximum_of_aligned f b [] m a h = cc
maximum_of_aligned f b (x ∷ hs) m a h = elim (Option-cases (maximum_of f hs)) [
  | inl n ↦ ground (arith, a, n, h)
  | inr (k, e) ↦
      let deeper = maximum_of_aligned f b hs k a.1 e in
      let both = max_aligned (f x) k b a.0 deeper in ground (arith, e, h, both)
]

desired_aligned :
    (b : ℕ) (hs : List CandidateHistoryEntry)
    → All (Whole b) hs
    → All (λ h. h.desired_now_bytes % b ≡ 0) hs
desired_aligned b [] a = tt
desired_aligned b (h ∷ hs) a = (a.0.0, desired_aligned b hs a.1)

floors_aligned :
    (b : ℕ) (hs : List CandidateHistoryEntry)
    → All (Whole b) hs
    → All (λ h. h.floor_now_bytes % b ≡ 0) hs
floors_aligned b [] a = tt
floors_aligned b (h ∷ hs) a = (a.0.1, floors_aligned b hs a.1)

-- The sizes that the estimator remembers are whole blocks.
pub record WholeBlocks (b : ℕ) (s : TargetEstimatorState) : Type 0 where
  pub desired : s.desired_bytes % b ≡ 0
  pub floor : s.safe_floor_bytes % b ≡ 0
  pub history : All (Whole b) s.history

prepare_sample-WholeBlocks :
    (b : ℕ) (c : TargetPolicyConfig) (s s' : TargetEstimatorState) (sample : TargetSample)
    → prepare_sample c s sample ≡ ok s'
    → WholeBlocks b s
    → WholeBlocks b s'
unfolding prepare_sample
prepare_sample-WholeBlocks b c s s' sample h w = ground (arith, h, w.desired, w.floor, w.history)

raise-WholeBlocks :
    (s : TargetEstimatorState) (g : TargetGeometry) (base : ℕ) (now : InstantaneousTarget)
    → WholeBlocks g.block_size_bytes s
    → g.current_bytes % g.block_size_bytes ≡ 0
    → now.desired_now_bytes % g.block_size_bytes ≡ 0
    → now.effective_maximum_bytes % g.block_size_bytes ≡ 0
    → WholeBlocks g.block_size_bytes (raise s g base now)
unfolding raise
raise-WholeBlocks s g base now w current desired maximum =
    elim (Bool-cases (is_some_and s.last_visible_base_bytes (λ b. not (b == base)))) [
      | inl moved ↦ elim (Bool-cases (is_empty s.session_id)) [
        | inl started ↦
            rw (moved, started) (record { desired = cold; floor = current; history = tt })
        | inr running ↦
            rw (moved, running) (record { desired = warm; floor = w.desired; history = tt })
      ]
      | inr fixed ↦ elim (Bool-cases (is_empty s.session_id)) [
        | inl started ↦
            rw (fixed, started) (record { desired = cold; floor = current; history = w.history })
        | inr running ↦
            rw (fixed, running) (record { desired = warm; floor = w.floor; history = w.history })
      ]
    ]
  where
    b : ℕ
    b = g.block_size_bytes

    cold :
        min
            (max (max g.current_bytes now.desired_now_bytes) now.desired_now_bytes)
            now.effective_maximum_bytes
          % b
        ≡ 0
    cold =
        min_aligned _ now.effective_maximum_bytes b
          (max_aligned _ now.desired_now_bytes b
            (max_aligned g.current_bytes now.desired_now_bytes b current desired) desired)
          maximum

    warm : min (max s.desired_bytes now.desired_now_bytes) now.effective_maximum_bytes % b ≡ 0
    warm =
        min_aligned _ now.effective_maximum_bytes b
          (max_aligned s.desired_bytes now.desired_now_bytes b w.desired desired) maximum

remember-WholeBlocks :
    (b : ℕ) (c : TargetPolicyConfig) (s : TargetEstimatorState) (sample : TargetSample)
    (now : InstantaneousTarget)
    → WholeBlocks b s
    → now.desired_now_bytes % b ≡ 0
    → now.floor_now_bytes % b ≡ 0
    → WholeBlocks b (remember c s sample now)
unfolding remember
remember-WholeBlocks b c s sample now w d f = elim (Bool-cases (is_high sample.native_pressure)) [
  | inl yes_high ↦ rw yes_high (record {
    desired = w.desired;
    floor = w.floor;
    history = prune_before-Whole b (sample.monotonic_millis - c.history_window_millis) _ (
        drop_excess-Whole b _ (
          observe-Whole b (bucket_millis c.history_window_millis) (entry_of sample now) s.history
            (d, f) w.history));
  })
  | inr not_high ↦ rw not_high (record { desired = w.desired; floor = w.desired; history = tt })
]

-- Where the remembered sizes are whole numbers of the device's blocks, so are the desired size and the
-- safe floor of every estimate, and all sizes remembered after it: the desired size and the floor, and
-- those of each history entry.
pub estimate-WholeBlocks :
    (t t' : TargetEstimator) (sample : TargetSample) (g : TargetGeometry) (est : TargetEstimate)
    → estimate t sample g ≡ (t', ok est)
    → WholeBlocks g.block_size_bytes t.state
    → (est.desired_bytes % g.block_size_bytes ≡ 0)
      × (est.safe_floor_bytes % g.block_size_bytes ≡ 0)
      × WholeBlocks g.block_size_bytes t'.state
estimate-WholeBlocks t t' sample g est h w =
    let k = call_of t t' sample g est h in
    let r = k.ran in
    let b = g.block_size_bytes in
    let prepared =
      prepare_sample-WholeBlocks b t.config t.state r.prepared sample r.prepared_eq w in
    let raised =
      raise-WholeBlocks r.prepared g r.base r.now prepared k.device.usable.current_aligned
        k.limits.desired_aligned k.limits.maximum_aligned in
    let seen =
      remember-WholeBlocks b t.config (raise r.prepared g r.base r.now) sample r.now raised
        k.limits.desired_aligned k.limits.floor_aligned in
    let asked : est.desired_bytes % b ≡ 0 = elim k.end.lowered [
      | inl same ↦ rw same seen.desired
      | inr (_, m, _) ↦
          maximum_of_aligned (λ e. e.desired_now_bytes) b _ est.desired_bytes
            (desired_aligned b _ seen.history) m
    ] in
    let floor : est.safe_floor_bytes % b ≡ 0 = elim k.end.floored [
      | inl (_, e) ↦
          rw e
            (min_aligned g.current_bytes est.desired_bytes b k.device.usable.current_aligned asked)
      | inr (_, (f, m, e)) ↦ rw e (
          min_aligned f est.desired_bytes b
            (maximum_of_aligned (λ x. x.floor_now_bytes) b _ f (floors_aligned b _ seen.history) m)
            asked)
    ] in
    (
      asked,
      floor,
      record {
        desired = rw (k.end.stored_desired) asked;
        floor = rw (k.end.stored_floor) floor;
        history = rw (k.end.stored_history) seen.history;
      },
    )
