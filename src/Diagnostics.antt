-- ===== src/Diagnostics.antt =====
-- crates/virtio-mem-core/src/guest_policy.rs and demand.rs: the diagnostic records that the guest
-- publishes. They explain a decision and authorise nothing.
use virtio_mem_windows_servi.Prelude.{ℕ, Bool, false, Option, none, Text, Result}
use virtio_mem_windows_servi.MemoryRequest.{MemoryResult}

pub data GuestPolicyReason : Type 0 where
  waiting_for_status awaiting_result result_consumed waiting_for_history : GuestPolicyReason
  native_not_high no_change capacity_limit retry_backoff clock_watermark : GuestPolicyReason
  physical_reserve commit_reserve native_low reclaim_surplus : GuestPolicyReason

pub record GuestPolicyDiagnostics : Type 0 where
  pub reason : GuestPolicyReason
  pub desired_bytes : Option ℕ
  pub safe_floor_bytes : Option ℕ
  pub history_ready : Bool
  pub retry_remaining_millis : ℕ
  pub physical_deficit_bytes : ℕ
  pub commit_deficit_bytes : ℕ

-- `GuestPolicyDiagnostics::default`.
abbrev pub default_diagnostics : GuestPolicyDiagnostics
default_diagnostics = record {
  reason = waiting_for_status;
  desired_bytes = none;
  safe_floor_bytes = none;
  history_ready = false;
  retry_remaining_millis = 0;
  physical_deficit_bytes = 0;
  commit_deficit_bytes = 0;
}

pub record GuestDiagnostics : Type 0 where
  pub build_id : Text
  pub driver_file_version : Result Text Text
  pub boot_uptime_millis : Option ℕ
  pub policy : GuestPolicyDiagnostics
  pub last_consumed_result : Option MemoryResult
  pub result_consumed_unix_millis : Option ℕ
