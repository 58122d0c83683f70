-- ===== src/GuestPolicy/Poll.antt =====
-- guest_policy.rs, `GuestRequester::poll` after its estimate: the pending request, the plan and the new
-- request.
use virtio_mem_windows_servi.Prelude.{
  ℕ, ◌-◌, Bool, true, false, not, ◌&&◌, ◌||◌, Option, none, some, Result, ok, err, is_ok,
  is_some_and, filter_option, ltb, leb, if◌then◌else◌, min, max, checked_add, saturating_add,
  saturating_mul,
}
use virtio_mem_windows_servi.Diagnostics.{
  GuestPolicyReason, awaiting_result, result_consumed, waiting_for_history, native_not_high,
  no_change, capacity_limit, retry_backoff, clock_watermark, physical_reserve, commit_reserve,
  native_low, reclaim_surplus,
}
use virtio_mem_windows_servi.MemoryRequest.{
  MemoryOperation, add, remove, MemoryRequest, completed, MemoryResult, HostMemoryStatus,
  memory_request_version, operation_eq, outcome_eq, request_eq, terminal, validate, validate_status,
  fresh_at, device_state,
}
use virtio_mem_windows_servi.Target.{TargetSample, TargetEstimate}
use virtio_mem_windows_servi.Target.Estimator.{clamp, is_high}
use virtio_mem_windows_servi.GuestPolicy.{
  GuestMemoryPolicy, GuestError, expiry_overflow, sequence_exhausted, request, plan_request,
  GuestDecision,
}
use virtio_mem_windows_servi.GuestPolicy.Requester.{
  GuestRequester, Retry, is_low, is_critical, begin_poll, poll_estimate, explain, hold,
}

-- `status.result`, where it resolves the pending request.
unfoldable pub resolution : MemoryRequest → Option HostMemoryStatus → Option MemoryResult
resolution pending none = none
resolution pending (some s) =
    filter_option (λ result. request_eq result.request pending && terminal result) s.result

-- The retry throttle after a resolved request.
unfoldable pub throttle : GuestRequester → MemoryResult → ℕ → GuestRequester
throttle g result monotonic =
    if not (outcome_eq result.outcome completed)
    then (let delay = clamp (saturating_mul g.retry_delay_millis 2) 1000 30000 in
        record g {
          retry_delay_millis = delay;
          retry =
              some
                (record { operation = result.request.operation; since = monotonic; delay = delay });
          diagnostics = record (g.diagnostics) {
            reason = result_consumed;
            retry_remaining_millis = delay;
          };
        })
    else record g {
      retry = none;
      retry_delay_millis = 0;
      diagnostics = record (g.diagnostics) { reason = result_consumed; retry_remaining_millis = 0 };
    }

-- The branch of `poll` with a pending request.
unfoldable pub poll_pending :
    GuestRequester
    → MemoryRequest
    → Option HostMemoryStatus
    → ℕ
    → GuestRequester × Result GuestError GuestDecision
unfolding resolution throttle
poll_pending g pending status monotonic = elim (resolution pending status) [
  | none ↦ (
    explain g awaiting_result,
    ok (record { request = some pending; persist = false; resolved = none }),
  )
  | some result ↦ (
    throttle (record g { state = record (g.state) { pending = none } }) result monotonic,
    ok (record { request = none; persist = true; resolved = some result }),
  )
]

-- Native Low pressure asks for at least the growth step.
unfoldable pub urgent :
    GuestMemoryPolicy → Bool → HostMemoryStatus → TargetEstimate → TargetEstimate
urgent p false s est = est
urgent p true s est = record est {
  desired_bytes =
      max est.desired_bytes
        (min (saturating_add s.current_bytes p.grow_step_bytes) est.effective_maximum_bytes);
}

-- Why nothing is planned.
unfoldable pub hold_reason : TargetSample → HostMemoryStatus → TargetEstimate → GuestPolicyReason
hold_reason sample s est =
    if est.capacity_limited
      || (is_low sample.native_pressure && leb est.effective_maximum_bytes s.current_bytes)
    then capacity_limit
    else if leb s.current_bytes est.desired_bytes
    then no_change
    else if not (is_high sample.native_pressure)
    then native_not_high
    else if not est.history_ready
    then waiting_for_history
    else no_change

-- `retry.is_some_and(..)`: the operation is still throttled.
unfoldable pub throttled : Option Retry → MemoryOperation → ℕ → Bool → Bool
throttled retry operation monotonic urgent = is_some_and retry λ r.
    operation_eq r.operation operation
    && leb r.since monotonic
    && ltb (monotonic - r.since) r.delay
    && not (operation_eq operation add && urgent)

unfoldable pub issue_reason : GuestRequester → MemoryOperation → GuestPolicyReason
issue_reason g operation =
    if operation_eq operation remove
    then reclaim_surplus
    else if g.native_low
    then native_low
    else if ltb 0 g.diagnostics.physical_deficit_bytes
    then physical_reserve
    else commit_reserve

unfoldable pub request_at : GuestRequester → MemoryOperation → ℕ → ℕ → ℕ → MemoryRequest
request_at g operation bytes now expires = record {
  version = memory_request_version;
  identity = record {
    vm_name = g.vm_name;
    service_name = g.service_name;
    session_id = g.session_id;
    sequence = g.next_sequence;
  };
  operation = operation;
  bytes = bytes;
  issued_unix_millis = now;
  expires_unix_millis = expires;
}

-- The end of `poll`: the new request, made durable state.
unfoldable pub issue :
    GuestRequester → MemoryOperation → ℕ → ℕ → GuestRequester × Result GuestError GuestDecision
unfolding issue_reason request_at
issue g operation bytes now =
    let g' = explain g (issue_reason g operation) in
    elim (checked_add now g.policy.request_lifetime_millis) [
      | none ↦ (g', err expiry_overflow)
      | some expires ↦
          let r = request_at g operation bytes now expires in
          elim (validate r) [
            | err e ↦ (g', err (request e))
            | ok _ ↦ elim (checked_add g.next_sequence 1) [
              | none ↦ (g', err sequence_exhausted)
              | some next ↦ (
                record g' {
                  next_sequence = next;
                  state = record { pending = some r; last_issued_unix_millis = now };
                },
                ok (record { request = some r; persist = true; resolved = none }),
              )
            ]
          ]
    ]

-- The watermark and the throttle in front of a new request.
unfoldable pub poll_issue :
    GuestRequester
    → TargetSample
    → Bool
    → MemoryOperation
    → ℕ
    → GuestRequester × Result GuestError GuestDecision
unfolding throttled issue
poll_issue g sample newly_urgent operation bytes =
    if leb sample.observed_unix_millis g.state.last_issued_unix_millis
    then (explain g clock_watermark, ok hold)
    else if throttled g.retry operation sample.monotonic_millis newly_urgent
    then (explain g retry_backoff, ok hold)
    else issue g operation bytes sample.observed_unix_millis

-- The branch of `poll` without a pending request, over a fresh status and an estimate.
unfoldable pub poll_decide :
    GuestRequester
    → TargetSample
    → Bool
    → HostMemoryStatus
    → TargetEstimate
    → GuestRequester × Result GuestError GuestDecision
unfolding urgent hold_reason poll_issue
poll_decide g sample newly_urgent s estimated =
    let est = urgent g.policy g.native_low s estimated in
    let g' = record g {
      diagnostics = record (g.diagnostics) { desired_bytes = some est.desired_bytes };
    } in
    elim (plan_request est (device_state s) g.policy) [
      | err e ↦ (g', err e)
      | ok none ↦ (explain g' (hold_reason sample s est), ok hold)
      | ok (some (operation, bytes)) ↦ poll_issue g' sample newly_urgent operation bytes
    ]

unfoldable pub poll_idle :
    GuestRequester
    → TargetSample
    → Bool
    → Option HostMemoryStatus
    → Option TargetEstimate
    → GuestRequester × Result GuestError GuestDecision
unfolding poll_decide
poll_idle g sample newly_urgent (some s) (some est) = poll_decide g sample newly_urgent s est
poll_idle g sample newly_urgent (some s) none = (g, ok hold)
poll_idle g sample newly_urgent none est = (g, ok hold)

-- `GuestRequester::poll`.
unfoldable pub poll :
    GuestRequester
    → TargetSample
    → Option HostMemoryStatus
    → GuestRequester × Result GuestError GuestDecision
unfolding begin_poll poll_estimate poll_pending poll_idle
poll g sample status =
    let newly_low = is_low sample.native_pressure && not g.native_low in
    let newly_critical = is_critical g.policy sample.memory && not g.numeric_critical in
    let valid = filter_option (λ s. is_ok (validate_status s g.vm_name g.service_name)) status in
    let fresh =
      filter_option
        (λ s. fresh_at s sample.observed_unix_millis g.policy.host_status_max_age_millis) valid in
    let (estimated, result) = poll_estimate (begin_poll g sample) sample fresh in
    elim result [
      | err e ↦ (estimated, err e)
      | ok est ↦ elim estimated.state.pending [
        | some pending ↦ poll_pending estimated pending valid sample.monotonic_millis
        | none ↦ poll_idle estimated sample (newly_low || newly_critical) fresh est
      ]
    ]
