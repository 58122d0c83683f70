-- ===== src/Runtime/Refusals.antt =====
-- host/src/runtime.rs, the refusal of a latched controller, and the status contract that its guest checks.
use virtio_mem_windows_servi.Prelude.{
  ℕ, ◌+◌, ◌<◌, ◌≡◌, refl, true, false, not, ◌||◌, Option, some, ◌∷◌, ◌++◌, ok, arith, Text, codes,
  byte_len, is_ok, Result-cases, inl, inr, >>-eq-ok, fail_if, ◌==◌, text_eq, map_err, is_some_and,
}
use virtio_mem_windows_servi.MemoryRequest.{
  HostMemoryStatus, MemoryResult, memory_request_version, foreign_status, unobserved_status, device,
  device_state, rejection, bad_reason, validate_result, validate_status_result, validate_status,
}
use virtio_mem_windows_servi.VirtioMem.{VirtioMemState}
use virtio_mem_windows_servi.VirtioMem
use virtio_mem_windows_servi.MemoryRequest.Checks.{validate_result_iff}
use virtio_mem_windows_servi.Journal.{MemoryRequestJournal, new}
use virtio_mem_windows_servi.Checkpoint.{is_latched}
use virtio_mem_windows_servi.Runtime.{
  VmController, Ready, Environment, Session, read_unix_clock, published,
}
use virtio_mem_windows_servi.Runtime.Control.{or_else, status_of, publish_at, publish}
use virtio_mem_windows_servi.Runtime.Observe.{latch_text, refuse_observed, admitted}

abbrev prefix : Text
prefix = codes "automatic actuation is latched: "

prefix_len : (reason : Text) → byte_len (prefix ++ reason) ≡ 32 + byte_len reason
unfolding byte_len
prefix_len reason = omega arith

abbrev refused_status : Session → Ready → ℕ → ℕ → Text → HostMemoryStatus
refused_status s r at observed reason =
    status_of s.vm r.state (some (rejection r.request at (prefix ++ reason))) observed

refusal_too_long : (reason : Text) → 992 < byte_len reason → bad_reason (prefix ++ reason) ≡ true
unfolding bad_reason
refusal_too_long reason long = ground (arith, long, prefix_len reason)

-- A status that passes the guest's validation carries a refusal with a reason that does.
accepted_reason :
    (vm : VmController) (state : VirtioMemState) (result : MemoryResult) (observed : ℕ)
    (name service : Text)
    → validate_status (status_of vm state (some result) observed) name service ≡ ok tt
    → is_some_and result.reason bad_reason ≡ false
unfolding validate_status status_of or_else validate_status_result
accepted_reason vm state result observed name service h =
    let s = status_of vm state (some result) observed in
    let (_, h1) =
      >>-eq-ok
        (fail_if
          (not (s.version == memory_request_version)
            || not (text_eq s.vm_name name)
            || not (text_eq s.service_name service))
          foreign_status)
        _ h in
    let (_, h2) = >>-eq-ok (fail_if (s.observed_unix_millis == 0) unobserved_status) _ h1 in
    let (_, h3) = >>-eq-ok (map_err device (VirtioMem.validate (device_state s))) _ h2 in
    let (e, _) = >>-eq-ok (validate_result result result.request) _ h3 in
    ((validate_result_iff result result.request).0 e).reason

refusal_rejected :
    (vm : VmController) (r : Ready) (at observed : ℕ) (reason name service : Text)
    → bad_reason reason ≡ true
    → is_ok (
        validate_status
          (status_of vm r.state (some (rejection r.request at reason)) observed)
          name
          service)
      ≡ false
unfolding rejection
refusal_rejected vm r at observed reason name service bad =
    elim (Result-cases (
      validate_status (status_of vm r.state (some (rejection r.request at reason)) observed) name
        service)) [
          | inl (_, e) ↦ absurd (
              let good =
                accepted_reason vm r.state (rejection r.request at reason) observed name service
                  e in
              ground (arith, bad, good))
          | inr (x, e) ↦ rw e refl
        ]

-- A latched controller refuses a new request with its latch reason after a prefix. Where that reason is
-- longer than 992 bytes, though latches allow 1024, the status it publishes is one that the guest's
-- validation rejects, so the guest does not receive the refusal.
pub long_latch_refusal :
    (env : Environment) (r : Ready) (charge : Option (ℕ × ℕ)) (at observed : ℕ)
    (j : MemoryRequestJournal) (s : Session) (reason : Text)
    → s.vm.control.latch_reason ≡ some reason
    → 992 < byte_len reason
    → env.now_unix_millis s.trace ≡ ok observed
    → (status : HostMemoryStatus) × ((admitted env r charge at (ok (j, new)) s).1.trace
        ≡ published status ∷ read_unix_clock ∷ s.trace)
      × (is_ok (validate_status status s.vm.config.vm_name s.vm.config.raw_telemetry_service_name)
          ≡ false)
unfolding admitted refuse_observed publish publish_at is_latched latch_text
long_latch_refusal env r charge at observed j s reason l long clock = (
  refused_status s r at observed reason,
  rw (l, clock) refl,
  refusal_rejected s.vm r at observed (prefix ++ reason) s.vm.config.vm_name
      s.vm.config.raw_telemetry_service_name (refusal_too_long reason long),
)
