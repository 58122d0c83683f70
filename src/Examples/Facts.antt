-- ===== src/Examples/Facts.antt =====
-- Tests of devices, units, telemetry and compatibility evidence.
use virtio_mem_windows_servi.MemoryRequest.{valid_identity, is_foreign}
use virtio_mem_windows_servi.MemoryRequest
use virtio_mem_windows_servi.Prelude.{
  Text, codes, trim, text_eq, byte_len, ℕ, ℕ, ◌≡◌, refl, ◌↔◌, none, some, [], ◌∷◌, ok, ◌>>=◌,
  is_power_of_two, text_eq,
}
use virtio_mem_windows_servi.VirtioMem.{validate}
use virtio_mem_windows_servi.Telemetry.{
  MemoryTelemetrySnapshot, RawTelemetryEnvelope, high, validate_envelope, validate_successor,
}
use virtio_mem_windows_servi.Telemetry.Acceptance.{IsPublication, validate_envelope_iff, Chain}
use virtio_mem_windows_servi.Compatibility.{
  VirtioMemCompatibility, confirmed, unknown, merge, validate_for_resize,
}
use virtio_mem_windows_servi.Compatibility.Merge.{Backed, resize_iff}
use virtio_mem_windows_servi.Units.Sizes.{parse_byte_size}
use virtio_mem_windows_servi.Units.Exact.{IsSize, parse_byte_size_iff}
use virtio_mem_windows_servi.Examples.{vm, service, session, at_rest, growth}

at_rest_valid : validate at_rest ≡ ok tt
unfolding validate is_power_of_two
at_rest_valid = refl

abbrev memory : MemoryTelemetrySnapshot
memory = record {
  physical_total_bytes = 8589934592;
  physical_available_bytes = 4294967296;
  memory_load_percent = 50;
  commit_total_bytes = 4294967296;
  commit_limit_bytes = 12884901888;
  commit_peak_bytes = 6442450944;
  system_cache_bytes = 0;
  kernel_paged_bytes = 0;
  kernel_nonpaged_bytes = 0;
}

abbrev publication : ℕ → RawTelemetryEnvelope
publication sequence = record {
  version = 5;
  vm_name = vm;
  service_name = service;
  session_id = session;
  observed_unix_millis = 3000;
  monotonic_millis = sequence;
  sequence = sequence;
  memory = memory;
  native_pressure = some high;
  request = some growth;
  diagnostics = none;
}

publication_accepted : validate_envelope (publication 7) vm service 3500 1000 500 ≡ ok tt
unfolding validate_envelope valid_identity text_eq MemoryRequest.validate is_foreign
publication_accepted = refl

validate_envelope_iff_example :
    (validate_envelope (publication 7) vm service 3500 1000 500 ≡ ok tt)
    ↔ IsPublication (publication 7) vm service 3500 1000 500
validate_envelope_iff_example = validate_envelope_iff (publication 7) vm service 3500 1000 500

chained : Chain (publication 7) (publication 8 ∷ publication 9 ∷ [])
unfolding validate_successor text_eq
chained = (refl, (refl, tt))

abbrev from_xml : VirtioMemCompatibility
from_xml = record { memslots = confirmed; inaccessible = confirmed; review = unknown }

abbrev from_review : VirtioMemCompatibility
from_review = record { memslots = unknown; inaccessible = unknown; review = confirmed }

resize_iff_example :
    ((merge from_xml from_review >>= validate_for_resize) ≡ ok tt)
    ↔ (Backed confirmed unknown × Backed confirmed unknown × Backed unknown confirmed)
resize_iff_example = resize_iff from_xml from_review

abbrev eight_and_a_half : Text
eight_and_a_half = codes " 8.5 GiB"

parses_fraction : parse_byte_size eight_and_a_half ≡ ok 9126805504
unfolding parse_byte_size text_eq trim byte_len
parses_fraction = refl

parse_byte_size_iff_example :
    (parse_byte_size eight_and_a_half ≡ ok 9126805504) ↔ IsSize (trim eight_and_a_half) 9126805504
parse_byte_size_iff_example = parse_byte_size_iff eight_and_a_half 9126805504
