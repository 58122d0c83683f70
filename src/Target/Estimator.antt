-- ===== src/Target/Estimator.antt =====
-- target_controller.rs, `TargetEstimator`: a call returns the estimator after it and its result,
-- since a call that fails can change the state too.
use virtio_mem_windows_servi.Prelude.{
  ℕ, ◌-◌, ◌*◌, ◌/◌, Bool, true, false, not, ◌||◌, Option, none, some, List, [], Result, ok, err,
  ◌>>=◌, ◌>>◌, fail_if, is_some_and, is_empty, ltb, leb, ◌==◌, if◌then◌else◌, min, max, checked_add,
  u64_max, Text, text_eq, trim,
}
use virtio_mem_windows_servi.Telemetry.{MemoryResourceNotificationState, low, neutral, high}
use virtio_mem_windows_servi.Target.{
  TargetPolicyConfig, TargetGeometry, TargetSample, InstantaneousTarget, TargetEstimate,
  TargetEstimatorError, invalid_geometry, arithmetic_overflow, invalid_ordering, limits_unmet,
  empty_session, not_advanced, empty_history, validate_config, align_up, calculate_instantaneous,
}
use virtio_mem_windows_servi.Target.History.{
  CandidateHistoryEntry, bucket_millis, observe, drop_excess, prune_history, history_is_ready,
  maximum_of,
}

pub record TargetEstimatorState : Type 0 where
  pub desired_bytes : ℕ
  pub safe_floor_bytes : ℕ
  pub session_id : Text
  pub last_monotonic_millis : ℕ
  pub last_sequence : ℕ
  pub last_visible_base_bytes : Option ℕ
  pub history : List CandidateHistoryEntry

-- `TargetEstimatorState::default`.
abbrev pub cold : TargetEstimatorState
cold = record {
  desired_bytes = 0;
  safe_floor_bytes = 0;
  session_id = [];
  last_monotonic_millis = 0;
  last_sequence = 0;
  last_visible_base_bytes = none;
  history = [];
}

pub record TargetEstimator : Type 0 where
  pub config : TargetPolicyConfig
  pub min_ram : ℕ
  pub max_ram : ℕ
  pub state : TargetEstimatorState

unfoldable pub invalidate : TargetEstimatorState → TargetEstimatorState
invalidate s = record s { history = []; safe_floor_bytes = s.desired_bytes }

-- `TargetEstimator::invalidate_history`.
unfoldable pub invalidate_history : TargetEstimator → TargetEstimator
unfolding invalidate
invalidate_history t = record t { state = invalidate t.state }

-- `TargetEstimator::new`.
unfoldable pub new_estimator : TargetPolicyConfig → Result TargetEstimatorError TargetEstimator
new_estimator config = do
  validate_config config
  ok (record { config = config; min_ram = 0; max_ram = u64_max; state = cold })

-- `TargetEstimator::set_ram_limits`; its one error message carries no data.
unfoldable pub set_ram_limits : TargetEstimator → ℕ → ℕ → Result (Unit {0}) TargetEstimator
unfolding invalidate
set_ram_limits t minimum maximum = do
  fail_if (ltb maximum minimum) tt
  ok (record t { state = invalidate t.state; min_ram = minimum; max_ram = maximum })

unfoldable pub prepare_sample :
    TargetPolicyConfig
    → TargetEstimatorState
    → TargetSample
    → Result TargetEstimatorError TargetEstimatorState
prepare_sample c s sample = do
  fail_if (is_empty (trim sample.session_id)) (invalid_ordering empty_session)
  if is_empty s.session_id
      then ok s
      else if not (text_eq sample.session_id s.session_id)
      then ok (record s { history = [] })
      else do
        fail_if
            (leb sample.sequence s.last_sequence
              || leb sample.monotonic_millis s.last_monotonic_millis)
            (invalid_ordering not_advanced)
        ok (
            if ltb c.maximum_gap_millis (sample.monotonic_millis - s.last_monotonic_millis)
            then record s { history = [] }
            else s)

-- `u64::clamp`, for `low ≤ high`.
abbrev pub clamp : ℕ → ℕ → ℕ → ℕ
clamp x minimum maximum = if ltb x minimum then minimum else if ltb maximum x then maximum else x

-- The instantaneous target within the administrator's RAM limits; `none` where the limits cannot be
-- met, for which the caller discards the history.
unfoldable pub apply_limits :
    TargetEstimator
    → TargetGeometry
    → ℕ
    → InstantaneousTarget
    → Result TargetEstimatorError (Option InstantaneousTarget)
unfolding align_up
apply_limits t g visible_base now = do
  minimum ← align_up (t.min_ram - visible_base) g.block_size_bytes
  let maximum =
      min ((t.max_ram - visible_base) / g.block_size_bytes * g.block_size_bytes)
        now.effective_maximum_bytes
  ok (
      if ltb maximum minimum || ltb t.max_ram visible_base
      then none
      else some (record now {
        effective_maximum_bytes = maximum;
        desired_now_bytes = clamp now.desired_now_bytes minimum maximum;
        floor_now_bytes = clamp now.floor_now_bytes minimum maximum;
      }))

abbrev pub is_high : Option MemoryResourceNotificationState → Bool
is_high none = false
is_high (some low) = false
is_high (some neutral) = false
is_high (some high) = true

-- Geometry change, cold start, and growth of the desired size at once.
unfoldable pub raise :
    TargetEstimatorState → TargetGeometry → ℕ → InstantaneousTarget → TargetEstimatorState
unfolding invalidate
raise s g visible_base now =
    let kept =
      if is_some_and s.last_visible_base_bytes (λ base. not (base == visible_base))
      then invalidate s
      else s in
    let started =
      if is_empty s.session_id
      then record kept {
        last_visible_base_bytes = some visible_base;
        desired_bytes = max g.current_bytes now.desired_now_bytes;
        safe_floor_bytes = g.current_bytes;
      }
      else record kept { last_visible_base_bytes = some visible_base } in
    record started {
      desired_bytes =
          min (max started.desired_bytes now.desired_now_bytes) now.effective_maximum_bytes;
    }

-- The history after a sample: pushed or merged under High pressure, else discarded; then bounded
-- and pruned.
unfoldable pub remember :
    TargetPolicyConfig
    → TargetEstimatorState
    → TargetSample
    → InstantaneousTarget
    → TargetEstimatorState
unfolding invalidate observe drop_excess prune_history
remember c s sample now =
    let entry : CandidateHistoryEntry = record {
      monotonic_millis = sample.monotonic_millis;
      desired_now_bytes = now.desired_now_bytes;
      floor_now_bytes = now.floor_now_bytes;
    } in
    let seen =
      if is_high sample.native_pressure
      then record s { history = observe (bucket_millis c.history_window_millis) entry s.history }
      else invalidate s in
    record seen {
      history =
          prune_history (drop_excess seen.history) sample.monotonic_millis c.history_window_millis;
    }

-- The reclaim decision on a ready history; an error leaves the state as far as it was changed.
unfoldable pub reclaim :
    TargetPolicyConfig → TargetEstimatorState → TargetEstimatorState × Option TargetEstimatorError
unfolding maximum_of
reclaim c s = elim (maximum_of (λ h. h.desired_now_bytes) s.history) [
  | none ↦ (s, some (invalid_ordering empty_history))
  | some window_desired ↦ elim (checked_add window_desired c.downward_hysteresis_bytes) [
    | none ↦ (s, some arithmetic_overflow)
    | some threshold ↦
        let lowered =
          if leb threshold s.desired_bytes
          then record s { desired_bytes = window_desired }
          else s in
        elim (maximum_of (λ h. h.floor_now_bytes) s.history) [
          | none ↦ (lowered, some (invalid_ordering empty_history))
          | some window_floor ↦
              (record lowered { safe_floor_bytes = min window_floor lowered.desired_bytes }, none)
        ]
  ]
]

-- The floor of the estimate, and the sample's place in the producer session.
unfoldable pub conclude :
    TargetPolicyConfig
    → TargetEstimatorState
    → TargetSample
    → TargetGeometry
    → InstantaneousTarget
    → TargetEstimatorState × Result TargetEstimatorError TargetEstimate
unfolding reclaim
conclude c s sample g now =
    let ready = history_is_ready s.history sample.monotonic_millis c.history_window_millis in
    let (floored, failure) =
      if ready
      then reclaim c s
      else (record s { safe_floor_bytes = min g.current_bytes s.desired_bytes }, none) in
    elim failure [
      | some e ↦ (floored, err e)
      | none ↦ (
        record floored {
          session_id = sample.session_id;
          last_monotonic_millis = sample.monotonic_millis;
          last_sequence = sample.sequence;
        },
        ok (record {
          desired_bytes = floored.desired_bytes;
          safe_floor_bytes = floored.safe_floor_bytes;
          desired_now_bytes = now.desired_now_bytes;
          floor_now_bytes = now.floor_now_bytes;
          effective_maximum_bytes = now.effective_maximum_bytes;
          history_ready = ready;
          capacity_limited = now.capacity_limited;
        }),
      )
    ]

-- The state after `estimate`, and its result.
unfoldable pub estimate_state :
    TargetEstimator
    → TargetSample
    → TargetGeometry
    → TargetEstimatorState × Result TargetEstimatorError TargetEstimate
unfolding invalidate
estimate_state t sample g = elim (calculate_instantaneous t.config sample.memory g) [
  | err e ↦ (invalidate t.state, err e)
  | ok instant ↦ elim (prepare_sample t.config t.state sample) [
    | err e ↦ (invalidate t.state, err e)
    | ok prepared ↦
        let visible_base = sample.memory.physical_total_bytes - g.current_bytes in
        elim (apply_limits t g visible_base instant) [
          | err e ↦ (prepared, err e)
          | ok none ↦ (invalidate prepared, err (invalid_geometry limits_unmet))
          | ok (some now) ↦
              conclude t.config (remember t.config (raise prepared g visible_base now) sample now)
                sample g now
        ]
  ]
]

-- `TargetEstimator::estimate`.
unfoldable pub estimate :
    TargetEstimator
    → TargetSample
    → TargetGeometry
    → TargetEstimator × Result TargetEstimatorError TargetEstimate
unfolding estimate_state
estimate t sample g =
    let (s, result) = estimate_state t sample g in (record t { state = s }, result)
