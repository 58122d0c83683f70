-- ===== src/GuestPolicy.antt =====
-- crates/virtio-mem-core/src/guest_policy.rs: the guest's memory policy and the delta that it plans.
pub mod Plan
pub mod Requester
pub mod Retain
pub mod Issue
pub mod Accepted
pub mod Poll
use virtio_mem_windows_servi.Prelude.{
  ℕ, ◌-◌, Bool, true, false, not, ◌&&◌, ◌||◌, Option, none, some, Result, ok, err, ◌>>=◌, ◌>>◌,
  fail_if, map_err, ltb, leb, ◌==◌, if◌then◌else◌, max, is_multiple_of, Text,
}
use virtio_mem_windows_servi.VirtioMem.{VirtioMemState, VirtioMemError}
use virtio_mem_windows_servi.VirtioMem
use virtio_mem_windows_servi.MemoryRequest.{
  MemoryOperation, add, remove, MemoryRequest, MemoryResult, RequestError,
  max_request_lifetime_millis,
}
use virtio_mem_windows_servi.Target.{
  TargetPolicyConfig, TargetEstimate, TargetEstimatorError, validate_config,
}

pub record GuestMemoryPolicy : Type 0 where
  pub target : TargetPolicyConfig
  pub grow_step_bytes : ℕ
  pub shrink_step_bytes : ℕ
  pub host_status_max_age_millis : ℕ
  pub request_lifetime_millis : ℕ

-- One constructor for each message of the file's `Err` strings, and for each error passed on.
pub data GuestError : Type 0 where
  estimator : TargetEstimatorError → GuestError
  invalid_steps invalid_lifetime invalid_identities : GuestError
  retained : RequestError → GuestError
  retained_foreign retained_beyond_watermark : GuestError
  device : VirtioMemError → GuestError
  unaligned_steps expiry_overflow sequence_exhausted : GuestError
  request : RequestError → GuestError

-- `GuestMemoryPolicy::validate`.
unfoldable pub validate_policy : GuestMemoryPolicy → Result GuestError (Unit {0})
validate_policy p = do
  map_err estimator (validate_config p.target)
  fail_if (p.grow_step_bytes == 0 || p.shrink_step_bytes == 0 || p.host_status_max_age_millis == 0)
      invalid_steps
  fail_if
      (p.request_lifetime_millis == 0 || ltb max_request_lifetime_millis p.request_lifetime_millis)
      invalid_lifetime

-- The part of `plan_request` behind its checks.
unfoldable pub plan_delta : TargetEstimate → ℕ → GuestMemoryPolicy → Option (MemoryOperation × ℕ)
plan_delta est current p =
    if ltb current est.desired_bytes
    then some (add, est.desired_bytes - current)
    else if ltb est.desired_bytes current && est.history_ready
    then (let target =
          max (max (current - p.shrink_step_bytes) est.desired_bytes) est.safe_floor_bytes in
        if ltb target current then some (remove, current - target) else none)
    else none

unfoldable pub plan_request :
    TargetEstimate
    → VirtioMemState
    → GuestMemoryPolicy
    → Result GuestError (Option (MemoryOperation × ℕ))
unfolding plan_delta
plan_request est state p = do
  map_err device (VirtioMem.validate state)
  fail_if
      (not (is_multiple_of p.grow_step_bytes state.block_size_bytes)
        || not (is_multiple_of p.shrink_step_bytes state.block_size_bytes))
      unaligned_steps
  ok (
      if not (state.requested_bytes == state.current_bytes)
      then none
      else plan_delta est state.current_bytes p)

pub record GuestRequestState : Type 0 where
  pub pending : Option MemoryRequest
  pub last_issued_unix_millis : ℕ

pub record GuestDecision : Type 0 where
  pub request : Option MemoryRequest
  pub persist : Bool
  pub resolved : Option MemoryResult
