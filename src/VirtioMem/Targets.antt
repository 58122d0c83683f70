-- ===== src/VirtioMem/Targets.antt =====
-- virtio_mem.rs: which device states and targets are accepted, and what a refusal says.
use virtio_mem_windows_servi.Prelude.{ℕ, ◌%◌, ◌≤◌, ◌≡◌, ◌↔◌, true, ok, arith, is_power_of_two}
use virtio_mem_windows_servi.VirtioMem.{
  VirtioMemState, validate, validate_target, device_maximum_target, min_block_size_bytes,
}

-- A whole number of blocks that the device can hold.
pub record Fits (s : VirtioMemState) (value : ℕ) : Type 0 where
  pub within : value ≤ s.size_bytes
  pub aligned : value % s.block_size_bytes ≡ 0

pub record IsDevice (s : VirtioMemState) : Type 0 where
  pub block_large : min_block_size_bytes ≤ s.block_size_bytes
  pub block_power : is_power_of_two s.block_size_bytes ≡ true
  pub size_holds_block : s.block_size_bytes ≤ s.size_bytes
  pub size_aligned : s.size_bytes % s.block_size_bytes ≡ 0
  pub requested_fits : Fits s s.requested_bytes
  pub current_fits : Fits s s.current_bytes

-- `validate` accepts exactly the device states whose block size is a power of two of at least 1 MiB
-- and whose size, requested and current values are whole numbers of blocks within the size.
pub validate_iff_IsDevice : (s : VirtioMemState) → (validate s ≡ ok tt) ↔ IsDevice s
unfolding validate
validate_iff_IsDevice s = ground arith

-- For an accepted device, `validate_target` accepts exactly the multiples of the block size up to
-- `maximum_target_bytes`.
pub validate_target_iff :
    (s : VirtioMemState) (bytes : ℕ)
    → validate s ≡ ok tt
    → (validate_target s bytes ≡ ok tt)
      ↔ ((bytes ≤ device_maximum_target s) × (bytes % s.block_size_bytes ≡ 0))
unfolding validate_target device_maximum_target
validate_target_iff s bytes h = ground arith
