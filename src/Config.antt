-- ===== src/Config.antt =====
-- host/src/config.rs: the resolved configuration of one VM. Durations are in milliseconds.
use virtio_mem_windows_servi.Prelude.{ℕ, Bool, Text}

-- The fields that the control loop, the checkpoint and the resize sink read.
pub record HostConfig : Type 0 where
  pub vm_name : Text
  pub alias : Text
  pub priority : ℕ
  pub poll_interval : ℕ
  pub convergence_timeout : ℕ
  pub raw_telemetry_service_name : Text
  pub raw_telemetry_future_tolerance : ℕ
  pub host_min_headroom_bytes : ℕ
  pub observe_only : Bool
  pub min_ram : ℕ
  pub max_ram : ℕ
