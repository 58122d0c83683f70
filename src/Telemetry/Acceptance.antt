-- ===== src/Telemetry/Acceptance.antt =====
-- demand.rs: which publications the host accepts, and in which order.
use virtio_mem_windows_servi.Prelude.{
  ℕ, ◌+◌, ◌≤◌, ◌<◌, ◌≡◌, ◌⊎◌, ◌↔◌, refl, true, Option, none, some, ok, arith, saturating_add, Text,
  subst, sym, text_eq_iff, List, [], ◌∷◌,
}
use virtio_mem_windows_servi.MemoryRequest.{MemoryRequest, valid_identity}
use virtio_mem_windows_servi.MemoryRequest.Checks.{
  IsRequest, validate_iff_IsRequest, is_foreign_iff,
}
use virtio_mem_windows_servi.Telemetry.{
  MemoryTelemetrySnapshot, RawTelemetryEnvelope, raw_telemetry_version, validate_memory,
  validate_embedded, validate_envelope, validate_successor,
}

pub record IsMemory (m : MemoryTelemetrySnapshot) : Type 0 where
  pub total : 0 < m.physical_total_bytes
  pub limit : 0 < m.commit_limit_bytes
  pub available_within : m.physical_available_bytes ≤ m.physical_total_bytes
  pub commit_within : m.commit_total_bytes ≤ m.commit_limit_bytes
  pub peak_above : m.commit_total_bytes ≤ m.commit_peak_bytes
  pub load_percent : m.memory_load_percent ≤ 100

pub validate_memory_iff : (m : MemoryTelemetrySnapshot) → (validate_memory m ≡ ok tt) ↔ IsMemory m
unfolding validate_memory
validate_memory_iff m = ground arith

-- The embedded request, if there is one, is well-formed and names the publication's VM and service.
abbrev pub Embeds : Text → Text → Option MemoryRequest → Type 0
Embeds vm service none = Unit
Embeds vm service (some r) =
    IsRequest r × (r.identity.vm_name ≡ vm) × (r.identity.service_name ≡ service)

validate_embedded_iff :
    (vm service : Text) (o : Option MemoryRequest)
    → (validate_embedded vm service o ≡ ok tt) ↔ Embeds vm service o
unfolding validate_embedded
validate_embedded_iff vm service none = ((λ h. tt), λ h. refl)
validate_embedded_iff vm service (some r) = (
  λ h. (
    (validate_iff_IsRequest r).0 (ground arith),
    ((is_foreign_iff r.identity vm service).0 (ground arith)).0,
    ((is_foreign_iff r.identity vm service).0 (ground arith)).1,
  ),
  λ h. ground (
    arith,
    (validate_iff_IsRequest r).1 h.0,
    (is_foreign_iff r.identity vm service).1 (h.1, h.2),
  ),
)

pub record IsPublication (e : RawTelemetryEnvelope) (vm service : Text) (now age tolerance : ℕ)
    : Type 0 where
  pub version : (e.version ≡ 4) ⊎ (e.version ≡ raw_telemetry_version)
  pub from_vm : e.vm_name ≡ vm
  pub from_service : e.service_name ≡ service
  pub vm_valid : valid_identity e.vm_name ≡ true
  pub service_valid : valid_identity e.service_name ≡ true
  pub session_valid : valid_identity e.session_id ≡ true
  pub not_future : e.observed_unix_millis ≤ saturating_add now tolerance
  pub not_stale : now ≤ e.observed_unix_millis + age
  pub embedded : Embeds e.vm_name e.service_name e.request
  pub memory : IsMemory e.memory

-- A publication is accepted exactly when it is of a known version, from this VM and service under
-- valid identities, neither from the future nor stale, with consistent counters, and embeds no
-- request or a well-formed one of its own VM and service.
pub validate_envelope_iff :
    (e : RawTelemetryEnvelope) (vm service : Text) (now age tolerance : ℕ)
    → (validate_envelope e vm service now age tolerance ≡ ok tt)
      ↔ IsPublication e vm service now age tolerance
unfolding validate_envelope
validate_envelope_iff e vm service now age tolerance = (
  λ h. record {
    version = ground arith;
    from_vm = ground (arith, text_eq_iff e.vm_name vm);
    from_service = ground (arith, text_eq_iff e.service_name service);
    vm_valid = ground arith;
    service_valid = ground arith;
    session_valid = ground arith;
    not_future = ground arith;
    not_stale = ground arith;
    embedded = (validate_embedded_iff e.vm_name e.service_name e.request).0 (ground arith);
    memory = (validate_memory_iff e.memory).0 (ground arith);
  },
  λ p. ground (
    arith,
    text_eq_iff e.vm_name vm,
    text_eq_iff e.service_name service,
    (validate_embedded_iff e.vm_name e.service_name e.request).1 p.embedded,
    (validate_memory_iff e.memory).1 p.memory,
  ),
)

-- Each publication was accepted as the successor of the one before it.
abbrev pub Chain : RawTelemetryEnvelope → List RawTelemetryEnvelope → Type 0
Chain e [] = Unit
Chain e (f ∷ fs) = (validate_successor f e ≡ ok tt) × Chain f fs

abbrev pub OneSession : Text → List RawTelemetryEnvelope → Type 0
OneSession s [] = Unit
OneSession s (f ∷ fs) = (f.session_id ≡ s) × OneSession s fs

-- Later in sequence and on the monotonic clock, and not earlier on the wall clock.
abbrev pub Later : RawTelemetryEnvelope → List RawTelemetryEnvelope → Type 0
Later e [] = Unit
Later e (f ∷ fs) =
    (e.sequence < f.sequence)
    × (e.monotonic_millis < f.monotonic_millis)
    × (e.observed_unix_millis ≤ f.observed_unix_millis)
    × Later e fs

successor_same_session :
    (f e : RawTelemetryEnvelope)
    → validate_successor f e ≡ ok tt
    → f.session_id ≡ e.session_id
    → (e.sequence < f.sequence)
      × (e.monotonic_millis < f.monotonic_millis)
      × (e.observed_unix_millis ≤ f.observed_unix_millis)
unfolding validate_successor
successor_same_session f e h s = ground (arith, (text_eq_iff f.session_id e.session_id).1 s)

Later-earlier :
    (d e : RawTelemetryEnvelope) (fs : List RawTelemetryEnvelope)
    → d.sequence < e.sequence
    → d.monotonic_millis < e.monotonic_millis
    → d.observed_unix_millis ≤ e.observed_unix_millis
    → Later e fs
    → Later d fs
Later-earlier d e [] p q r l = tt
Later-earlier d e (f ∷ fs) p q r l =
    (omega arith, omega arith, omega arith, Later-earlier d e fs p q r l.3)

-- In a chain of accepted publications of one producer session every later one is newer than the
-- first: none is accepted twice.
pub Chain-Later :
    (e : RawTelemetryEnvelope) (fs : List RawTelemetryEnvelope)
    → Chain e fs
    → OneSession e.session_id fs
    → Later e fs
Chain-Later e [] c o = tt
Chain-Later e (f ∷ fs) c o =
    let (p, q, r) = successor_same_session f e c.0 o.0 in
    (
      p,
      q,
      r,
      Later-earlier e f fs p q r
          (Chain-Later f fs c.1 (subst (λ s. OneSession s fs) (sym o.0) o.1)),
    )
