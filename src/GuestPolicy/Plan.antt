-- ===== src/GuestPolicy/Plan.antt =====
-- guest_policy.rs, `plan_request`: what a planned delta does to the device.
use virtio_mem_windows_servi.Prelude.{ℕ, ◌+◌, ◌-◌, ◌≤◌, ◌<◌, ◌≡◌, true, some, ok, arith}
use virtio_mem_windows_servi.VirtioMem.{VirtioMemState}
use virtio_mem_windows_servi.VirtioMem
use virtio_mem_windows_servi.MemoryRequest.{MemoryOperation, add, remove}
use virtio_mem_windows_servi.Target.{TargetEstimate}
use virtio_mem_windows_servi.GuestPolicy.{GuestMemoryPolicy, plan_delta, plan_request}

-- The device size that a delta leads to.
abbrev pub target_of : MemoryOperation → ℕ → ℕ → ℕ
target_of add current bytes = current + bytes
target_of remove current bytes = current - bytes

-- Growth goes straight to the desired size; reclaim takes at most one step, on ready evidence, and
-- ends neither below the desired size nor below the safe floor.
abbrev pub Sensible : MemoryOperation → TargetEstimate → GuestMemoryPolicy → ℕ → ℕ → Type 0
Sensible add est p current bytes = current + bytes ≡ est.desired_bytes
Sensible remove est p current bytes =
    (est.history_ready ≡ true)
    × (bytes ≤ current)
    × (bytes ≤ p.shrink_step_bytes)
    × (est.desired_bytes ≤ current - bytes)
    × (est.safe_floor_bytes ≤ current - bytes)

plan_delta-Sensible :
    (est : TargetEstimate) (current : ℕ) (p : GuestMemoryPolicy) (op : MemoryOperation) (bytes : ℕ)
    → plan_delta est current p ≡ some (op, bytes)
    → (0 < bytes) × Sensible op est p current bytes
unfolding plan_delta
plan_delta-Sensible est current p add bytes h = ground arith
plan_delta-Sensible est current p remove bytes h = ground arith

-- A delta is planned only for a valid, converged device, is positive and sensible: growth goes to the
-- desired size, and reclaim needs ready evidence, takes at most the shrink step and ends neither
-- below the desired size nor below the safe floor.
pub plan_request-Sensible :
    (est : TargetEstimate) (state : VirtioMemState) (p : GuestMemoryPolicy) (op : MemoryOperation)
    (bytes : ℕ)
    → plan_request est state p ≡ ok (some (op, bytes))
    → (VirtioMem.validate state ≡ ok tt)
      × (state.requested_bytes ≡ state.current_bytes)
      × (0 < bytes)
      × Sensible op est p state.current_bytes bytes
plan_request-Sensible est state p op bytes h =
    let (v, c, d) = parts est state p op bytes h in
    let (pos, s) = plan_delta-Sensible est state.current_bytes p op bytes d in (v, c, pos, s)
  where
    parts :
        (est : TargetEstimate) (state : VirtioMemState) (p : GuestMemoryPolicy)
        (op : MemoryOperation) (bytes : ℕ)
        → plan_request est state p ≡ ok (some (op, bytes))
        → (VirtioMem.validate state ≡ ok tt)
          × (state.requested_bytes ≡ state.current_bytes)
          × (plan_delta est state.current_bytes p ≡ some (op, bytes))
    parts est state p op bytes h = unfold plan_request in ground arith
