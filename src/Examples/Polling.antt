-- ===== src/Examples/Polling.antt =====
-- Tests of the guest's polls, and of a request on its way to the host.
use virtio_mem_windows_servi.MemoryRequest.{valid_identity}
use virtio_mem_windows_servi.Prelude.{
  ℕ, ◌+◌, ◌-◌, ◌≤◌, ◌<◌, ◌≡◌, refl, inl, inr, true, false, some, none, ok, arith, codes,
  is_power_of_two,
}
use virtio_mem_windows_servi.VirtioMem.{validate}
use virtio_mem_windows_servi.Diagnostics.{default_diagnostics}
use virtio_mem_windows_servi.MemoryRequest.{
  add, remove, MemoryRequest, HostMemoryStatus, validate_status,
}
use virtio_mem_windows_servi.MemoryRequest.Checks.{validate_iff_IsRequest}
use virtio_mem_windows_servi.MemoryRequest
use virtio_mem_windows_servi.Telemetry.{high, low}
use virtio_mem_windows_servi.Target.{TargetSample, TargetEstimate}
use virtio_mem_windows_servi.Target.Estimator.{TargetEstimator, cold}
use virtio_mem_windows_servi.Journal.{new, admit, validate_journal}
use virtio_mem_windows_servi.GuestPolicy.{GuestMemoryPolicy, GuestDecision, plan_request}
use virtio_mem_windows_servi.GuestPolicy.Plan.{Sensible, plan_request-Sensible}
use virtio_mem_windows_servi.GuestPolicy.Requester.{GuestRequester}
use virtio_mem_windows_servi.GuestPolicy.Poll.{poll}
use virtio_mem_windows_servi.GuestPolicy.Retain.{Pending, fresh_status, pending_retained}
use virtio_mem_windows_servi.GuestPolicy.Issue.{Idle, Issued, poll_idle_issues}
use virtio_mem_windows_servi.GuestPolicy.Accepted.{admit-Issued}
use virtio_mem_windows_servi.Examples.{
  vm, service, session, growth, grown, at_rest, status_at_rest, empty_journal, config, busy_memory,
  sample_at,
}

abbrev policy : GuestMemoryPolicy
policy = record {
  target = config;
  grow_step_bytes = 67108864;
  shrink_step_bytes = 67108864;
  host_status_max_age_millis = 5000;
  request_lifetime_millis = 30000;
}

abbrev estimate : TargetEstimate
estimate = record {
  desired_bytes = 268435456;
  safe_floor_bytes = 0;
  desired_now_bytes = 0;
  floor_now_bytes = 0;
  effective_maximum_bytes = 1073741824;
  history_ready = true;
  capacity_limited = false;
}

shrink_planned : plan_request estimate at_rest policy ≡ ok (some (remove, 67108864))
unfolding plan_request validate is_power_of_two
shrink_planned = refl

plan_request-Sensible_example :
    (validate at_rest ≡ ok tt)
    × (at_rest.requested_bytes ≡ at_rest.current_bytes)
    × (0 < 67108864)
    × Sensible remove estimate policy at_rest.current_bytes 67108864
plan_request-Sensible_example =
    plan_request-Sensible estimate at_rest policy remove 67108864 shrink_planned

abbrev hungry : TargetEstimate
hungry = record estimate { desired_bytes = 603979776 }

at_rest_valid : validate at_rest ≡ ok tt
unfolding validate is_power_of_two
at_rest_valid = refl

abbrev requester : GuestRequester
requester = record {
  policy = policy;
  estimator = record { config = config; min_ram = 0; max_ram = 18446744073709551615; state = cold };
  state = record { pending = none; last_issued_unix_millis = 0 };
  vm_name = vm;
  service_name = service;
  session_id = session;
  next_sequence = 0;
  retry = none;
  retry_delay_millis = 0;
  native_low = false;
  numeric_critical = false;
  diagnostics = default_diagnostics;
}

abbrev sample : TargetSample
sample = sample_at 10 busy_memory low

abbrev asked : MemoryRequest
asked = record {
  version = 1;
  identity = record { vm_name = vm; service_name = service; session_id = session; sequence = 0 };
  operation = add;
  bytes = 67108864;
  issued_unix_millis = 3000;
  expires_unix_millis = 33000;
}

abbrev decision : GuestDecision
decision = record { request = some asked; persist = true; resolved = none }

abbrev after_poll : GuestRequester
after_poll = (poll requester sample (some status_at_rest)).0

polled : poll requester sample (some status_at_rest) ≡ (after_poll, ok decision)
unfolding poll validate_status virtio_mem_windows_servi.Prelude.text_eq validate is_power_of_two
    MemoryRequest.fresh_at virtio_mem_windows_servi.Target.Estimator.estimate
    virtio_mem_windows_servi.Target.calculate_instantaneous
    virtio_mem_windows_servi.Target.calculate_effective_maximum
    virtio_mem_windows_servi.Target.validate_config
    virtio_mem_windows_servi.VirtioMem.maximum_target_bytes
    virtio_mem_windows_servi.Telemetry.validate_memory virtio_mem_windows_servi.Target.candidate
    virtio_mem_windows_servi.Target.align_up
    virtio_mem_windows_servi.Target.Estimator.prepare_sample virtio_mem_windows_servi.Prelude.trim
    virtio_mem_windows_servi.Target.Estimator.apply_limits
    virtio_mem_windows_servi.Target.Estimator.conclude
    virtio_mem_windows_servi.Target.History.history_is_ready
    virtio_mem_windows_servi.Target.Estimator.remember plan_request
    virtio_mem_windows_servi.Target.Estimator.raise MemoryRequest.validate valid_identity
polled = refl

poll_idle_issues_example :
    Idle requester sample (fresh_status requester sample (some status_at_rest)) after_poll decision
poll_idle_issues_example =
    poll_idle_issues requester after_poll sample (some status_at_rest) decision refl polled

-- The growth is pending, and the host reports its result.
abbrev waiting : GuestRequester
waiting = record requester {
  state = record { pending = some growth; last_issued_unix_millis = 1000 };
}

abbrev answered : HostMemoryStatus
answered = record status_at_rest { result = some grown }

abbrev resolved : GuestDecision
resolved = record { request = none; persist = true; resolved = some grown }

abbrev after_answer : GuestRequester
after_answer = (poll waiting sample (some answered)).0

answer_polled : poll waiting sample (some answered) ≡ (after_answer, ok resolved)
unfolding poll validate_status virtio_mem_windows_servi.Prelude.text_eq validate is_power_of_two
    MemoryRequest.validate_result MemoryRequest.validate valid_identity MemoryRequest.request_eq
    MemoryRequest.fresh_at virtio_mem_windows_servi.Target.Estimator.estimate
    virtio_mem_windows_servi.Target.calculate_instantaneous
    virtio_mem_windows_servi.Target.calculate_effective_maximum
    virtio_mem_windows_servi.Target.validate_config
    virtio_mem_windows_servi.VirtioMem.maximum_target_bytes
    virtio_mem_windows_servi.Telemetry.validate_memory virtio_mem_windows_servi.Target.candidate
    virtio_mem_windows_servi.Target.align_up
    virtio_mem_windows_servi.Target.Estimator.prepare_sample
    virtio_mem_windows_servi.Target.Estimator.apply_limits
    virtio_mem_windows_servi.Target.Estimator.conclude
    virtio_mem_windows_servi.Target.History.history_is_ready
    virtio_mem_windows_servi.Target.Estimator.remember MemoryRequest.terminal
answer_polled = refl

pending_retained_example : Pending growth waiting after_answer resolved
pending_retained_example =
    pending_retained waiting after_answer sample (some answered) resolved growth refl answer_polled

asked_valid : MemoryRequest.validate asked ≡ ok tt
unfolding MemoryRequest.validate valid_identity
asked_valid = refl

abbrev issued_requester : GuestRequester
issued_requester = record requester {
  state = record { pending = some asked; last_issued_unix_millis = 3000 };
  next_sequence = 1;
}

asked-Issued : Issued requester add 67108864 3000 issued_requester decision asked
asked-Issued = record {
  published = refl;
  durable = refl;
  valid = (validate_iff_IsRequest asked).0 asked_valid;
  vm = refl;
  service = refl;
  session = refl;
  sequence = refl;
  next = refl;
  operation = refl;
  bytes = refl;
  issued = refl;
  expires = refl;
}

empty_journal_valid : validate_journal empty_journal ≡ ok tt
unfolding validate_journal
empty_journal_valid = refl

admit-Issued_example :
    admit vm service 3100 500 empty_journal asked
    ≡ ok (record { request = some asked; result = none }, new)
admit-Issued_example =
    admit-Issued empty_journal requester issued_requester add 67108864 3000 3100 500 decision asked
      asked-Issued (omega arith) empty_journal_valid (inl (refl, refl)) (omega arith) (omega arith)
