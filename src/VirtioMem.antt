-- ===== src/VirtioMem.antt =====
-- crates/virtio-mem-core/src/virtio_mem.rs and error.rs: the state of one virtio-mem device and its
-- validation. Sizes are `u64` byte counts.
pub mod Targets
use virtio_mem_windows_servi.Prelude.{
  ℕ, ◌-◌, ◌%◌, ◌^◌, Bool, not, ◌||◌, Result, ok, err, ◌>>=◌, ◌>>◌, fail_if, max, ltb, ◌==◌,
  is_multiple_of, is_power_of_two,
}

pub record VirtioMemState : Type 0 where
  pub size_bytes : ℕ
  pub block_size_bytes : ℕ
  pub requested_bytes : ℕ
  pub current_bytes : ℕ

-- The `name` that an error carries.
pub data ValueName : Type 0 where
  requested current target : ValueName

pub data VirtioMemError : Type 0 where
  zero_size : VirtioMemError
  block_size_too_small : (actual minimum : ℕ) → VirtioMemError
  block_size_not_power_of_two : ℕ → VirtioMemError
  size_not_aligned : (size block : ℕ) → VirtioMemError
  value_outside_size : ValueName → (value size : ℕ) → VirtioMemError
  value_not_aligned : ValueName → (value block : ℕ) → VirtioMemError

abbrev pub min_block_size_bytes : ℕ
min_block_size_bytes = 2 ^ 20

unfoldable pub validate_state_value :
    VirtioMemState → ℕ → ValueName → Result VirtioMemError (Unit {0})
validate_state_value s value_bytes name = do
  fail_if (ltb s.size_bytes value_bytes) (value_outside_size name value_bytes s.size_bytes)
  fail_if (not (is_multiple_of value_bytes s.block_size_bytes))
      (value_not_aligned name value_bytes s.block_size_bytes)

unfoldable pub validate : VirtioMemState → Result VirtioMemError (Unit {0})
unfolding validate_state_value
validate s = do
  fail_if (s.size_bytes == 0) zero_size
  fail_if (ltb s.block_size_bytes min_block_size_bytes)
      (block_size_too_small s.block_size_bytes min_block_size_bytes)
  fail_if (not (is_power_of_two s.block_size_bytes))
      (block_size_not_power_of_two s.block_size_bytes)
  fail_if
      (ltb s.size_bytes s.block_size_bytes || not (is_multiple_of s.size_bytes s.block_size_bytes))
      (size_not_aligned s.size_bytes s.block_size_bytes)
  validate_state_value s s.requested_bytes requested
  validate_state_value s s.current_bytes current

unfoldable pub validate_target : VirtioMemState → ℕ → Result VirtioMemError (Unit {0})
unfolding validate validate_state_value
validate_target s target_bytes = do validate s; validate_state_value s target_bytes target; ok tt

-- The free function `maximum_target_bytes`; the method of that name passes the device's fields.
unfoldable pub maximum_target_bytes : ℕ → ℕ → ℕ
maximum_target_bytes size_bytes block_size_bytes = size_bytes - size_bytes % max block_size_bytes 1

unfoldable pub device_maximum_target : VirtioMemState → ℕ
unfolding maximum_target_bytes
device_maximum_target s = maximum_target_bytes s.size_bytes s.block_size_bytes
