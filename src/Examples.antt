-- ===== src/Examples.antt =====
-- Concrete data of the tests: a VM with a device of 1 GiB in blocks of 2 MiB, its requests and results.
mod Exchange
mod Pooling
mod Facts
mod Estimating
mod Polling
mod Encoding
mod Durability
mod Controlling
mod Commanding
mod Sharing
use virtio_mem_windows_servi.Prelude.{ℕ, Option, none, some, List, [], ◌∷◌, Text, codes}
use virtio_mem_windows_servi.VirtioMem.{VirtioMemState}
use virtio_mem_windows_servi.MemoryRequest.{
  MemoryOperation, add, remove, MemoryRequest, MemoryResult, completed, uncertain, HostMemoryStatus,
}
use virtio_mem_windows_servi.Journal.{MemoryRequestJournal}
use virtio_mem_windows_servi.Telemetry.{MemoryTelemetrySnapshot, MemoryResourceNotificationState}
use virtio_mem_windows_servi.Target.{TargetPolicyConfig, TargetGeometry, TargetSample}

abbrev pub block : ℕ
block = 2097152

abbrev pub device_bytes : ℕ
device_bytes = 1073741824

abbrev pub vm : Text
vm = codes "desktop"

abbrev pub service : Text
service = codes "virtio-mem"

abbrev pub session : Text
session = codes "session-1"

abbrev pub request_of : MemoryOperation → ℕ → ℕ → ℕ → MemoryRequest
request_of operation bytes sequence issued = record {
  version = 1;
  identity = record {
    vm_name = codes "desktop";
    service_name = codes "virtio-mem";
    session_id = codes "session-1";
    sequence = sequence;
  };
  operation = operation;
  bytes = bytes;
  issued_unix_millis = issued;
  expires_unix_millis = 61000;
}

abbrev pub growth : MemoryRequest
growth = request_of add 4194304 0 1000

abbrev pub reclaim : MemoryRequest
reclaim = request_of remove 2097152 1 2000

abbrev pub grown : MemoryResult
grown = record {
  request = growth;
  outcome = completed;
  actual_bytes = 4194304;
  observed_unix_millis = 1500;
  reason = none;
}

abbrev pub empty_journal : MemoryRequestJournal
empty_journal = record { request = none; result = none }

abbrev pub admitted_journal : MemoryRequestJournal
admitted_journal = record { request = some growth; result = none }

abbrev pub resolved_journal : MemoryRequestJournal
resolved_journal = record { request = some growth; result = some grown }

abbrev pub at_rest : VirtioMemState
at_rest = record {
  size_bytes = 1073741824;
  block_size_bytes = 2097152;
  requested_bytes = 536870912;
  current_bytes = 536870912;
}

abbrev pub status_at_rest : HostMemoryStatus
status_at_rest = record {
  version = 1;
  vm_name = codes "desktop";
  service_name = codes "virtio-mem";
  device_alias = codes "ua-vmem0";
  observed_unix_millis = 2900;
  device_size_bytes = 1073741824;
  block_size_bytes = 2097152;
  requested_bytes = 536870912;
  current_bytes = 536870912;
  result = none;
}

-- 8 GiB of RAM with half a GiB of it in the device, and plenty free.
abbrev pub idle_memory : MemoryTelemetrySnapshot
idle_memory = record {
  physical_total_bytes = 8589934592;
  physical_available_bytes = 6442450944;
  memory_load_percent = 25;
  commit_total_bytes = 2147483648;
  commit_limit_bytes = 12884901888;
  commit_peak_bytes = 6442450944;
  system_cache_bytes = 0;
  kernel_paged_bytes = 0;
  kernel_nonpaged_bytes = 0;
}

-- The same RAM with less free than the reserve.
abbrev pub busy_memory : MemoryTelemetrySnapshot
busy_memory = record idle_memory { physical_available_bytes = 67108864; memory_load_percent = 99 }

abbrev pub config : TargetPolicyConfig
config = record {
  configured_minimum_bytes = 0;
  physical_reserve_bytes = 134217728;
  commit_reserve_bytes = 134217728;
  safe_floor_physical_reserve_bytes = 67108864;
  safe_floor_commit_reserve_bytes = 67108864;
  history_window_millis = 1000;
  maximum_gap_millis = 5000;
  downward_hysteresis_bytes = 67108864;
}

abbrev pub geometry : TargetGeometry
geometry = record {
  device_size_bytes = 1073741824;
  block_size_bytes = 2097152;
  current_bytes = 536870912;
}

abbrev pub sample_at : ℕ → MemoryTelemetrySnapshot → MemoryResourceNotificationState → TargetSample
sample_at tick memory pressure = record {
  session_id = codes "session-1";
  observed_unix_millis = 3000;
  monotonic_millis = tick;
  sequence = tick;
  memory = memory;
  native_pressure = some pressure;
}
