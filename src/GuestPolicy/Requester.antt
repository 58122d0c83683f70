-- ===== src/GuestPolicy/Requester.antt =====
-- guest_policy.rs, `GuestRequester`: its state, its construction, and the start of a poll up to the
-- estimate. A call returns the requester after it and its result, since a call that fails can change
-- the requester too.
use virtio_mem_windows_servi.Prelude.{
  ℕ, ◌-◌, Bool, true, false, not, ◌&&◌, ◌||◌, Option, none, some, [], ◌∷◌, Result, ok, err, ◌>>=◌,
  ◌>>◌, fail_if, map_err, is_none, filter_option, all, ltb, ◌==◌, if◌then◌else◌, Text,
}
use virtio_mem_windows_servi.Diagnostics.{
  GuestPolicyReason, GuestPolicyDiagnostics, default_diagnostics,
}
use virtio_mem_windows_servi.MemoryRequest.{
  MemoryOperation, MemoryRequest, HostMemoryStatus, valid_identity, is_foreign, validate,
}
use virtio_mem_windows_servi.Telemetry.{
  MemoryTelemetrySnapshot, MemoryResourceNotificationState, low, neutral, high,
}
use virtio_mem_windows_servi.Target.{TargetSample, TargetGeometry, TargetEstimate}
use virtio_mem_windows_servi.Target.Estimator.{
  TargetEstimator, new_estimator, set_ram_limits, invalidate_history, is_high, estimate,
}
use virtio_mem_windows_servi.GuestPolicy.{
  GuestMemoryPolicy, GuestError, estimator, invalid_identities, retained, retained_foreign,
  retained_beyond_watermark, validate_policy, GuestRequestState, GuestDecision,
}

-- `(MemoryOperation, u64, u64)`: the operation, since when, and for how long.
pub record Retry : Type 0 where
  pub operation : MemoryOperation
  pub since : ℕ
  pub delay : ℕ

pub record GuestRequester : Type 0 where
  pub policy : GuestMemoryPolicy
  pub estimator : TargetEstimator
  pub state : GuestRequestState
  pub vm_name : Text
  pub service_name : Text
  pub session_id : Text
  pub next_sequence : ℕ
  pub retry : Option Retry
  pub retry_delay_millis : ℕ
  pub native_low : Bool
  pub numeric_critical : Bool
  pub diagnostics : GuestPolicyDiagnostics

unfoldable pub check_retained :
    Text → Text → GuestRequestState → Option MemoryRequest → Result GuestError (Unit {0})
check_retained vm service s none = ok tt
check_retained vm service s (some pending) = do
  map_err retained (validate pending)
  fail_if (is_foreign pending.identity vm service) retained_foreign
  fail_if (ltb s.last_issued_unix_millis pending.issued_unix_millis) retained_beyond_watermark

-- `GuestRequester::new`.
unfoldable pub new_requester :
    GuestMemoryPolicy → Text → Text → Text → GuestRequestState → Result GuestError GuestRequester
unfolding check_retained
new_requester policy vm service session state = do
  validate_policy policy
  fail_if (not (all valid_identity (vm ∷ service ∷ session ∷ []))) invalid_identities
  check_retained vm service state state.pending
  cold ← map_err estimator (new_estimator policy.target)
  ok (record {
    policy = policy;
    estimator = cold;
    state = state;
    vm_name = vm;
    service_name = service;
    session_id = session;
    next_sequence = 0;
    retry = none;
    retry_delay_millis = 0;
    native_low = false;
    numeric_critical = false;
    diagnostics = default_diagnostics;
  })

abbrev pub is_low : Option MemoryResourceNotificationState → Bool
is_low none = false
is_low (some low) = true
is_low (some neutral) = false
is_low (some high) = false

unfoldable pub is_critical : GuestMemoryPolicy → MemoryTelemetrySnapshot → Bool
is_critical p m =
    ltb m.physical_available_bytes p.target.safe_floor_physical_reserve_bytes
    || ltb (m.commit_limit_bytes - m.commit_total_bytes) p.target.safe_floor_commit_reserve_bytes

abbrev retry_remaining : ℕ → Option Retry → ℕ
retry_remaining monotonic none = 0
retry_remaining monotonic (some r) = r.delay - (monotonic - r.since)

-- The opening assignments of `poll`.
unfoldable pub begin_poll : GuestRequester → TargetSample → GuestRequester
unfolding is_critical
begin_poll g sample = record g {
  native_low = is_low sample.native_pressure;
  numeric_critical = is_critical g.policy sample.memory;
  diagnostics = record default_diagnostics {
    physical_deficit_bytes =
        g.policy.target.physical_reserve_bytes - sample.memory.physical_available_bytes;
    commit_deficit_bytes =
        g.policy.target.commit_reserve_bytes
        - (sample.memory.commit_limit_bytes - sample.memory.commit_total_bytes);
    retry_remaining_millis = retry_remaining sample.monotonic_millis g.retry;
  };
}

abbrev converged_status : HostMemoryStatus → Bool
converged_status s = s.requested_bytes == s.current_bytes

abbrev geometry_of : HostMemoryStatus → TargetGeometry
geometry_of s = record {
  device_size_bytes = s.device_size_bytes;
  block_size_bytes = s.block_size_bytes;
  current_bytes = s.current_bytes;
}

-- The estimator's part of `poll`, over a fresh status.
unfoldable pub poll_estimate :
    GuestRequester
    → TargetSample
    → Option HostMemoryStatus
    → GuestRequester × Result GuestError (Option TargetEstimate)
poll_estimate g sample fresh =
    let converged = filter_option converged_status fresh in
    let prepared =
      if is_none fresh || (is_none converged && not (is_high sample.native_pressure))
      then invalidate_history g.estimator
      else g.estimator in
    elim converged [
      | none ↦ (record g { estimator = prepared }, ok none)
      | some s ↦
          let (after, result) = estimate prepared sample (geometry_of s) in
          elim result [
            | err e ↦ (record g { estimator = after }, err (estimator e))
            | ok est ↦ (
              record g {
                estimator = after;
                diagnostics = record (g.diagnostics) {
                  desired_bytes = some est.desired_bytes;
                  safe_floor_bytes = some est.safe_floor_bytes;
                  history_ready = est.history_ready;
                };
              },
              ok (some est),
            )
          ]
    ]

abbrev pub explain : GuestRequester → GuestPolicyReason → GuestRequester
explain g r = record g { diagnostics = record (g.diagnostics) { reason = r } }

abbrev pub hold : GuestDecision
hold = record { request = none; persist = false; resolved = none }

-- `GuestRequester::set_ram_limits` and `GuestRequester::invalidate_history`.
unfoldable pub requester_set_ram_limits : GuestRequester → ℕ → ℕ → Result (Unit {0}) GuestRequester
requester_set_ram_limits g minimum maximum = do
  t ← set_ram_limits g.estimator minimum maximum
  ok (record g { estimator = t })

unfoldable pub requester_invalidate_history : GuestRequester → GuestRequester
requester_invalidate_history g = record g { estimator = invalidate_history g.estimator }
