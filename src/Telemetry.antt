-- ===== src/Telemetry.antt =====
-- crates/virtio-mem-core/src/demand.rs: the memory counters of the guest and the envelope in which
-- it publishes them.
pub mod Acceptance
use virtio_mem_windows_servi.Prelude.{
  ℕ, ◌-◌, Bool, true, false, not, ◌||◌, Option, none, some, Result, ok, err, ◌>>=◌, ◌>>◌, fail_if,
  map_err, ltb, leb, ◌==◌, if◌then◌else◌, saturating_add, Text, text_eq,
}
use virtio_mem_windows_servi.Diagnostics.{GuestDiagnostics}
use virtio_mem_windows_servi.MemoryRequest.{MemoryRequest, RequestError, valid_identity, is_foreign}
use virtio_mem_windows_servi.MemoryRequest

abbrev pub raw_telemetry_version : ℕ
raw_telemetry_version = 5

pub record MemoryTelemetrySnapshot : Type 0 where
  pub physical_total_bytes : ℕ
  pub physical_available_bytes : ℕ
  pub memory_load_percent : ℕ
  pub commit_total_bytes : ℕ
  pub commit_limit_bytes : ℕ
  pub commit_peak_bytes : ℕ
  pub system_cache_bytes : ℕ
  pub kernel_paged_bytes : ℕ
  pub kernel_nonpaged_bytes : ℕ

pub data Counter : Type 0 where
  physical_total commit_limit : Counter

pub data Inconsistency : Type 0 where
  available_exceeds_total commit_exceeds_limit peak_below_total : Inconsistency

pub data IdentityField : Type 0 where
  vm_name_field service_name_field session_id_field : IdentityField

-- The variants that the two modelled functions return. The strings of the source stand as the
-- constructors above, and a request's message as the request's error; `none` is the message that
-- `validate_for` gives itself.
pub data DemandError : Type 0 where
  invalid_memory_request : Option RequestError → DemandError
  zero_counter : Counter → DemandError
  inconsistent_counters : Inconsistency → DemandError
  invalid_memory_load : ℕ → DemandError
  unsupported_telemetry_version : ℕ → DemandError
  invalid_telemetry_identity : IdentityField → DemandError
  wrong_telemetry_vm wrong_telemetry_service : (expected actual : Text) → DemandError
  stale_telemetry future_telemetry : (observed now : ℕ) → DemandError
  replayed_telemetry_sequence : ℕ → DemandError
  non_increasing_telemetry_monotonic_clock : ℕ → DemandError
  telemetry_wall_clock_moved_backwards : DemandError

-- `MemoryTelemetrySnapshot::validate`.
unfoldable pub validate_memory : MemoryTelemetrySnapshot → Result DemandError (Unit {0})
validate_memory m = do
  fail_if (m.physical_total_bytes == 0) (zero_counter physical_total)
  fail_if (m.commit_limit_bytes == 0) (zero_counter commit_limit)
  fail_if (ltb m.physical_total_bytes m.physical_available_bytes)
      (inconsistent_counters available_exceeds_total)
  fail_if (ltb m.commit_limit_bytes m.commit_total_bytes)
      (inconsistent_counters commit_exceeds_limit)
  fail_if (ltb m.commit_peak_bytes m.commit_total_bytes) (inconsistent_counters peak_below_total)
  fail_if (ltb 100 m.memory_load_percent) (invalid_memory_load m.memory_load_percent)

pub data MemoryResourceNotificationState : Type 0 where
  low neutral high : MemoryResourceNotificationState

pub record RawTelemetryEnvelope : Type 0 where
  pub version : ℕ
  pub vm_name : Text
  pub service_name : Text
  pub session_id : Text
  pub observed_unix_millis : ℕ
  pub monotonic_millis : ℕ
  pub sequence : ℕ
  pub memory : MemoryTelemetrySnapshot
  pub native_pressure : Option MemoryResourceNotificationState
  pub request : Option MemoryRequest
  pub diagnostics : Option GuestDiagnostics

-- `RawTelemetryEnvelope::new`.
unfoldable pub new_envelope :
    Text → Text → Text → ℕ → ℕ → ℕ → MemoryTelemetrySnapshot → RawTelemetryEnvelope
new_envelope vm service session observed monotonic sequence memory = record {
  version = raw_telemetry_version;
  vm_name = vm;
  service_name = service;
  session_id = session;
  observed_unix_millis = observed;
  monotonic_millis = monotonic;
  sequence = sequence;
  memory = memory;
  native_pressure = none;
  request = none;
  diagnostics = none;
}

unfoldable pub validate_embedded :
    Text → Text → Option MemoryRequest → Result DemandError (Unit {0})
validate_embedded vm service none = ok tt
validate_embedded vm service (some request) = do
  map_err (λ e. invalid_memory_request (some e)) (MemoryRequest.validate request)
  fail_if (is_foreign request.identity vm service) (invalid_memory_request none)

-- `RawTelemetryEnvelope::validate_for`.
unfoldable pub validate_envelope :
    RawTelemetryEnvelope → Text → Text → ℕ → ℕ → ℕ → Result DemandError (Unit {0})
unfolding validate_memory validate_embedded
validate_envelope e vm service now max_age_millis future_tolerance_millis = do
  fail_if (not (e.version == 4 || e.version == raw_telemetry_version))
      (unsupported_telemetry_version e.version)
  fail_if (not (valid_identity e.vm_name)) (invalid_telemetry_identity vm_name_field)
  fail_if (not (valid_identity e.service_name)) (invalid_telemetry_identity service_name_field)
  fail_if (not (valid_identity e.session_id)) (invalid_telemetry_identity session_id_field)
  fail_if (not (text_eq e.vm_name vm)) (wrong_telemetry_vm vm e.vm_name)
  fail_if (not (text_eq e.service_name service)) (wrong_telemetry_service service e.service_name)
  fail_if (ltb (saturating_add now future_tolerance_millis) e.observed_unix_millis)
      (future_telemetry e.observed_unix_millis now)
  fail_if (ltb max_age_millis (now - e.observed_unix_millis))
      (stale_telemetry e.observed_unix_millis now)
  validate_embedded e.vm_name e.service_name e.request
  validate_memory e.memory

-- `RawTelemetryEnvelope::validate_successor`.
unfoldable pub validate_successor :
    RawTelemetryEnvelope → RawTelemetryEnvelope → Result DemandError (Unit {0})
validate_successor e previous = do
  if text_eq e.session_id previous.session_id
      then (do
        fail_if (leb e.sequence previous.sequence) (replayed_telemetry_sequence e.sequence)
        fail_if (leb e.monotonic_millis previous.monotonic_millis)
            (non_increasing_telemetry_monotonic_clock e.monotonic_millis))
      else ok tt
  fail_if (ltb e.observed_unix_millis previous.observed_unix_millis)
      telemetry_wall_clock_moved_backwards
