-- ===== src/Examples/Estimating.antt =====
-- Tests of the target estimator.
use virtio_mem_windows_servi.Target.History.{history_is_ready}
use virtio_mem_windows_servi.VirtioMem.{maximum_target_bytes}
use virtio_mem_windows_servi.Prelude.{
  ◌+◌, inl, text_eq, ◌%◌, ◌≤◌, ◌≡◌, refl, true, false, some, [], ◌∷◌, ok, arith, is_power_of_two,
  trim, text_eq,
}
use virtio_mem_windows_servi.Telemetry.{MemoryTelemetrySnapshot, high, low, validate_memory}
use virtio_mem_windows_servi.Target.{
  InstantaneousTarget, TargetEstimate, calculate_instantaneous, calculate_effective_maximum,
  validate_config, candidate, align_up,
}
use virtio_mem_windows_servi.Target.Instant.{desired_meets_reserves}
use virtio_mem_windows_servi.Target.Estimator.{
  TargetEstimator, cold, new_estimator, estimate, prepare_sample, apply_limits, conclude, remember,
  raise,
}
use virtio_mem_windows_servi.Target.Promises.{Sound, estimate-Sound, reclaim_needs_evidence}
use virtio_mem_windows_servi.Target.Alignment.{WholeBlocks, estimate-WholeBlocks}
use virtio_mem_windows_servi.Target.Window.{reclaim_above_window}
use virtio_mem_windows_servi.Target.Sessions.{Session, Regular, Session-Regular, started, estimated}
use virtio_mem_windows_servi.Target.Capacity.{WithinCapacity, estimate-WithinCapacity}
use virtio_mem_windows_servi.Examples.{config, geometry, idle_memory, busy_memory, sample_at}

-- What a busy guest wants: its half GiB and the missing part of the reserve.
abbrev busy_target : InstantaneousTarget
busy_target = record {
  desired_now_bytes = 603979776;
  floor_now_bytes = 536870912;
  effective_maximum_bytes = 1073741824;
  capacity_limited = false;
}

busy_wants : calculate_instantaneous config busy_memory geometry ≡ ok busy_target
unfolding calculate_instantaneous calculate_effective_maximum validate_config is_power_of_two
    maximum_target_bytes validate_memory candidate align_up
busy_wants = refl

desired_meets_reserves_example :
    (134217728 + 536870912 ≤ busy_memory.physical_available_bytes + 603979776)
    × (busy_memory.commit_total_bytes + 134217728 + 536870912
        ≤ busy_memory.commit_limit_bytes + 603979776)
desired_meets_reserves_example =
    desired_meets_reserves config busy_memory geometry busy_target busy_wants refl

abbrev cold_estimator : TargetEstimator
cold_estimator = record {
  config = config;
  min_ram = 0;
  max_ram = 18446744073709551615;
  state = cold;
}

abbrev busy_estimate : TargetEstimate
busy_estimate = record {
  desired_bytes = 603979776;
  safe_floor_bytes = 536870912;
  desired_now_bytes = 603979776;
  floor_now_bytes = 536870912;
  effective_maximum_bytes = 1073741824;
  history_ready = false;
  capacity_limited = false;
}

abbrev after_busy : TargetEstimator
after_busy = (estimate cold_estimator (sample_at 10 busy_memory low) geometry).0

busy_estimated :
    estimate cold_estimator (sample_at 10 busy_memory low) geometry ≡ (after_busy, ok busy_estimate)
unfolding estimate calculate_instantaneous calculate_effective_maximum validate_config
    is_power_of_two maximum_target_bytes validate_memory candidate align_up prepare_sample trim
    apply_limits conclude history_is_ready remember raise
busy_estimated = refl

estimate-Sound_example : Sound cold_estimator (sample_at 10 busy_memory low) geometry busy_estimate
estimate-Sound_example =
    estimate-Sound cold_estimator after_busy (sample_at 10 busy_memory low) geometry busy_estimate
      busy_estimated

estimate-WithinCapacity_example :
    WithinCapacity (estimate cold_estimator (sample_at 10 busy_memory low) geometry).0.state
estimate-WithinCapacity_example =
    estimate-WithinCapacity cold_estimator (sample_at 10 busy_memory low) geometry (omega arith)

-- A second of High pressure later.
abbrev after_window : TargetEstimator
after_window = record {
  config = config;
  min_ram = 0;
  max_ram = 18446744073709551615;
  state = record {
    desired_bytes = 603979776;
    safe_floor_bytes = 536870912;
    session_id = (sample_at 0 idle_memory high).session_id;
    last_monotonic_millis = 900;
    last_sequence = 900;
    last_visible_base_bytes = some 8053063680;
    history =
        record { monotonic_millis = 10; desired_now_bytes = 268435456; floor_now_bytes = 0 } ∷ [];
  };
}

abbrev ready_estimate : TargetEstimate
ready_estimate = record {
  desired_bytes = 268435456;
  safe_floor_bytes = 0;
  desired_now_bytes = 0;
  floor_now_bytes = 0;
  effective_maximum_bytes = 1073741824;
  history_ready = true;
  capacity_limited = false;
}

abbrev after_reclaim : TargetEstimator
after_reclaim = (estimate after_window (sample_at 1020 idle_memory high) geometry).0

ready :
    estimate after_window (sample_at 1020 idle_memory high) geometry
    ≡ (after_reclaim, ok ready_estimate)
unfolding estimate calculate_instantaneous calculate_effective_maximum validate_config
    is_power_of_two maximum_target_bytes validate_memory candidate align_up prepare_sample trim
    text_eq apply_limits conclude history_is_ready remember raise
ready = refl

reclaim_needs_evidence_example :
    (ready_estimate.history_ready ≡ true)
    × (some high ≡ some high)
    × (ready_estimate.desired_bytes + config.downward_hysteresis_bytes ≤ 603979776)
reclaim_needs_evidence_example =
    reclaim_needs_evidence after_window after_reclaim (sample_at 1020 idle_memory high) geometry
      ready_estimate ready refl (omega arith)

after_window-WholeBlocks : WholeBlocks geometry.block_size_bytes after_window.state
after_window-WholeBlocks = record { desired = refl; floor = refl; history = ((refl, refl), tt) }

estimate-WholeBlocks_example :
    (ready_estimate.desired_bytes % geometry.block_size_bytes ≡ 0)
    × (ready_estimate.safe_floor_bytes % geometry.block_size_bytes ≡ 0)
    × WholeBlocks geometry.block_size_bytes after_reclaim.state
estimate-WholeBlocks_example =
    estimate-WholeBlocks after_window after_reclaim (sample_at 1020 idle_memory high) geometry
      ready_estimate ready after_window-WholeBlocks

-- A guest that wants 128 blocks at 10 ms, nothing at 510 ms, and nothing at the end of the window.
abbrev wanting_memory : MemoryTelemetrySnapshot
wanting_memory = record idle_memory {
  physical_available_bytes = 402653184;
  memory_load_percent = 95;
}

abbrev wanting : TargetEstimator
wanting = (estimate cold_estimator (sample_at 10 wanting_memory high) geometry).0

abbrev demanding : TargetEstimator
demanding = (estimate wanting (sample_at 510 idle_memory high) geometry).0

abbrev after_demanding : TargetEstimator
after_demanding = (estimate demanding (sample_at 1010 idle_memory high) geometry).0

abbrev wanting_estimate : TargetEstimate
wanting_estimate = record {
  desired_bytes = 536870912;
  safe_floor_bytes = 536870912;
  desired_now_bytes = 268435456;
  floor_now_bytes = 201326592;
  effective_maximum_bytes = 1073741824;
  history_ready = false;
  capacity_limited = false;
}

abbrev easing_estimate : TargetEstimate
easing_estimate = record wanting_estimate { desired_now_bytes = 0; floor_now_bytes = 0 }

abbrev demanding_estimate : TargetEstimate
demanding_estimate = record {
  desired_bytes = 268435456;
  safe_floor_bytes = 201326592;
  desired_now_bytes = 0;
  floor_now_bytes = 0;
  effective_maximum_bytes = 1073741824;
  history_ready = true;
  capacity_limited = false;
}

demanding-Session : Session demanding
unfolding new_estimator estimate calculate_instantaneous calculate_effective_maximum validate_config
    is_power_of_two maximum_target_bytes validate_memory candidate align_up prepare_sample trim
    text_eq apply_limits conclude history_is_ready remember raise
demanding-Session =
    estimated wanting demanding (sample_at 510 idle_memory high) geometry easing_estimate
      (estimated cold_estimator wanting (sample_at 10 wanting_memory high) geometry wanting_estimate
        (started config cold_estimator refl) refl)
      refl

Session-Regular_example : Regular demanding
Session-Regular_example = Session-Regular demanding demanding-Session

demanding_reclaims :
    estimate demanding (sample_at 1010 idle_memory high) geometry
    ≡ (after_demanding, ok demanding_estimate)
unfolding estimate calculate_instantaneous calculate_effective_maximum validate_config
    is_power_of_two maximum_target_bytes validate_memory candidate align_up prepare_sample trim
    text_eq apply_limits conclude history_is_ready remember raise
demanding_reclaims = refl

reclaim_above_window_example : 268435456 ≤ demanding_estimate.desired_bytes
unfolding estimate calculate_instantaneous calculate_effective_maximum validate_config
    is_power_of_two maximum_target_bytes validate_memory candidate align_up prepare_sample trim
    text_eq apply_limits conclude history_is_ready remember raise
reclaim_above_window_example =
    reclaim_above_window demanding after_demanding (sample_at 1010 idle_memory high) geometry
      demanding_estimate 10 268435456 demanding-Session demanding_reclaims refl refl
      (inl (omega arith, omega arith)) (omega arith) (omega arith) (omega arith)
