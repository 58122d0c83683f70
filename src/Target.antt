-- ===== src/Target.antt =====
-- crates/virtio-mem-core/src/target_controller.rs, the data: policy, geometry, samples and the
-- estimator's state, and the target that one sample gives.
pub mod History
pub mod Estimator
pub mod Limits
pub mod Instant
pub mod Retention
pub mod Bounds
pub mod Estimate
pub mod Promises
pub mod Capacity
pub mod Alignment
pub mod Covering
pub mod Remembering
pub mod Sessions
pub mod Window
use virtio_mem_windows_servi.Prelude.{
  ℕ, ◌+◌, ◌-◌, ◌*◌, ◌/◌, ◌%◌, Bool, true, false, not, ◌&&◌, ◌||◌, Option, none, some, List, [], ◌∷◌,
  Result, ok, err, ◌>>=◌, ◌>>◌, fail_if, ok_or, map_err, any, ltb, leb, ◌==◌, if◌then◌else◌, min,
  max, checked_add, checked_sub, is_multiple_of, is_power_of_two, Text,
}
use virtio_mem_windows_servi.VirtioMem.{maximum_target_bytes}
use virtio_mem_windows_servi.Telemetry.{
  MemoryTelemetrySnapshot, MemoryResourceNotificationState, DemandError, validate_memory,
}

pub record TargetPolicyConfig : Type 0 where
  pub configured_minimum_bytes : ℕ
  pub physical_reserve_bytes : ℕ
  pub commit_reserve_bytes : ℕ
  pub safe_floor_physical_reserve_bytes : ℕ
  pub safe_floor_commit_reserve_bytes : ℕ
  pub history_window_millis : ℕ
  pub maximum_gap_millis : ℕ
  pub downward_hysteresis_bytes : ℕ

pub record TargetGeometry : Type 0 where
  pub device_size_bytes : ℕ
  pub block_size_bytes : ℕ
  pub current_bytes : ℕ

pub record TargetSample : Type 0 where
  pub session_id : Text
  pub observed_unix_millis : ℕ
  pub monotonic_millis : ℕ
  pub sequence : ℕ
  pub memory : MemoryTelemetrySnapshot
  pub native_pressure : Option MemoryResourceNotificationState

pub record InstantaneousTarget : Type 0 where
  pub desired_now_bytes : ℕ
  pub floor_now_bytes : ℕ
  pub effective_maximum_bytes : ℕ
  pub capacity_limited : Bool

pub record TargetEstimate : Type 0 where
  pub desired_bytes : ℕ
  pub safe_floor_bytes : ℕ
  pub desired_now_bytes : ℕ
  pub floor_now_bytes : ℕ
  pub effective_maximum_bytes : ℕ
  pub history_ready : Bool
  pub capacity_limited : Bool

pub data PolicyFault : Type 0 where
  not_positive floor_exceeds_reserve : PolicyFault

pub data GeometryFault : Type 0 where
  no_device_size bad_block unaligned_current beyond_maximum unaligned_reserve : GeometryFault
  total_below_current limits_unmet : GeometryFault

pub data OrderingFault : Type 0 where
  empty_session not_advanced empty_history : OrderingFault

pub data TargetEstimatorError : Type 0 where
  invalid_policy : PolicyFault → TargetEstimatorError
  invalid_geometry : GeometryFault → TargetEstimatorError
  arithmetic_overflow : TargetEstimatorError
  invalid_ordering : OrderingFault → TargetEstimatorError
  invalid_telemetry : DemandError → TargetEstimatorError

-- `TargetPolicyConfig::validate`.
unfoldable pub validate_config : TargetPolicyConfig → Result TargetEstimatorError (Unit {0})
validate_config c = do
  fail_if
      (c.physical_reserve_bytes == 0
        || c.commit_reserve_bytes == 0
        || c.safe_floor_physical_reserve_bytes == 0
        || c.safe_floor_commit_reserve_bytes == 0
        || c.history_window_millis == 0
        || c.maximum_gap_millis == 0
        || c.downward_hysteresis_bytes == 0)
      (invalid_policy not_positive)
  fail_if
      (ltb c.physical_reserve_bytes c.safe_floor_physical_reserve_bytes
        || ltb c.commit_reserve_bytes c.safe_floor_commit_reserve_bytes)
      (invalid_policy floor_exceeds_reserve)

unfoldable pub align_up : ℕ → ℕ → Result TargetEstimatorError ℕ
align_up value alignment =
    let remainder = value % alignment in
    if remainder == 0
    then ok value
    else ok_or (checked_add value (alignment - remainder)) arithmetic_overflow

unfoldable pub calculate_effective_maximum :
    TargetPolicyConfig → TargetGeometry → Result TargetEstimatorError ℕ
calculate_effective_maximum c g = do
  validate_config c
  fail_if (g.device_size_bytes == 0) (invalid_geometry no_device_size)
  fail_if (g.block_size_bytes == 0 || not (is_power_of_two g.block_size_bytes))
      (invalid_geometry bad_block)
  fail_if (not (is_multiple_of g.current_bytes g.block_size_bytes))
      (invalid_geometry unaligned_current)
  let maximum = maximum_target_bytes g.device_size_bytes g.block_size_bytes
  fail_if
      (ltb maximum c.configured_minimum_bytes
        || not (is_multiple_of c.configured_minimum_bytes g.block_size_bytes)
        || ltb maximum g.current_bytes)
      (invalid_geometry beyond_maximum)
  fail_if
      (any (λ value. not (is_multiple_of value g.block_size_bytes))
        (c.physical_reserve_bytes ∷ c.commit_reserve_bytes ∷ c.safe_floor_physical_reserve_bytes
          ∷ c.safe_floor_commit_reserve_bytes ∷ c.downward_hysteresis_bytes ∷ []))
      (invalid_geometry unaligned_reserve)
  ok maximum

unfoldable pub candidate : MemoryTelemetrySnapshot → ℕ → ℕ → ℕ → ℕ → Result TargetEstimatorError ℕ
candidate m current_bytes fixed_visible_base_bytes physical_reserve_bytes commit_reserve_bytes = do
  physical_used ←
      ok_or (checked_sub m.physical_total_bytes m.physical_available_bytes) arithmetic_overflow
  physical_sum ← ok_or (checked_add physical_used physical_reserve_bytes) arithmetic_overflow
  commit_headroom ←
      ok_or (checked_sub m.commit_limit_bytes m.commit_total_bytes) arithmetic_overflow
  commit_sum ← ok_or (checked_add current_bytes commit_reserve_bytes) arithmetic_overflow
  ok (max (physical_sum - fixed_visible_base_bytes) (commit_sum - commit_headroom))

unfoldable pub calculate_instantaneous :
    TargetPolicyConfig
    → MemoryTelemetrySnapshot
    → TargetGeometry
    → Result TargetEstimatorError InstantaneousTarget
calculate_instantaneous c m g = do
  effective_maximum ← calculate_effective_maximum c g
  map_err invalid_telemetry (validate_memory m)
  visible_base ←
      ok_or (checked_sub m.physical_total_bytes g.current_bytes)
        (invalid_geometry total_below_current)
  desired_candidate ←
      candidate m g.current_bytes visible_base c.physical_reserve_bytes c.commit_reserve_bytes
  floor_candidate ←
      candidate m g.current_bytes visible_base c.safe_floor_physical_reserve_bytes
        c.safe_floor_commit_reserve_bytes
  let desired_raw = max desired_candidate c.configured_minimum_bytes
  let floor_raw = max floor_candidate c.configured_minimum_bytes
  desired_aligned ← align_up (min desired_raw effective_maximum) g.block_size_bytes
  let desired_now = min desired_aligned effective_maximum
  floor_aligned ← align_up (min floor_raw effective_maximum) g.block_size_bytes
  ok (record {
    desired_now_bytes = desired_now;
    floor_now_bytes = min floor_aligned desired_now;
    effective_maximum_bytes = effective_maximum;
    capacity_limited = ltb effective_maximum desired_raw;
  })
