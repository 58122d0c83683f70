-- ===== src/Runtime/Extension.antt =====
-- host/src/runtime.rs, the arithmetic of `extend_shrink`: how far a held shrink is widened.
use virtio_mem_windows_servi.Prelude.{
  ℕ, ◌-◌, ◌*◌, ◌/◌, ◌%◌, ◌^◌, ◌&&◌, Option, none, some, Text, text_eq, min, max, leb, ltb,
  if◌then◌else◌, saturating_mul, div_ceil,
}
use virtio_mem_windows_servi.MemoryRequest.{MemoryOperation, add, remove, MemoryRequest}
use virtio_mem_windows_servi.Config.{HostConfig}

abbrev pub max_extension_bytes : ℕ
max_extension_bytes = 2 ^ 28

-- The least target that leaves the guest its minimum.
unfoldable pub extension_floor : HostConfig → ℕ → ℕ → ℕ
extension_floor config base_ram block =
    saturating_mul (div_ceil (config.min_ram - base_ram) block) block

removal_bytes : MemoryOperation → MemoryRequest → ℕ
removal_bytes add request = 0
removal_bytes remove request = request.bytes

-- The bytes that the admitted request asks to remove.
unfoldable pub asked_bytes : Option MemoryRequest → ℕ
unfolding removal_bytes
asked_bytes none = 0
asked_bytes (some request) = removal_bytes request.operation request

unfoldable pub extension_goal : ℕ → ℕ → ℕ → ℕ → ℕ
extension_goal prior_current asked block floor = max (prior_current - (asked - asked % block)) floor

-- The step in blocks: twice the last one, if that was released in full.
unfoldable pub extension_step : Option (Text × ℕ × ℕ) → Text → ℕ → ℕ → ℕ
extension_step none operation_id current block = 1
extension_step (some (operation, from, step)) operation_id current block =
    if text_eq operation operation_id && leb (step * block) (from - current)
    then min (step * 2) (max (max_extension_bytes / block) 1)
    else 1

unfoldable pub step_bytes : ℕ → ℕ → ℕ → ℕ → ℕ
step_bytes step current goal block = min (step * block) (div_ceil (current - goal) block * block)

-- The lower target, if there is one.
unfoldable pub extension_target : ℕ → ℕ → ℕ → Option ℕ
extension_target requested bytes floor =
    if ltb requested bytes
    then none
    else (let target = max (requested - bytes) floor in
        if ltb target requested then some target else none)
