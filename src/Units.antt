-- ===== src/Units.antt =====
-- crates/virtio-mem-core/src/units.rs: checked conversions between bytes and KiB.
pub mod Sizes
pub mod Reading
pub mod Decimal
pub mod Splitting
pub mod Arithmetic
pub mod Exact
use virtio_mem_windows_servi.Prelude.{
  ℕ, ◌/◌, ◌<◌, ◌^◌, ◌≡◌, ◌↔◌, Option, none, some, arith, u64_mod, checked_mul, is_multiple_of,
  if◌then◌else◌,
}

abbrev pub bytes_per_kib : ℕ
bytes_per_kib = 2 ^ 10

unfoldable pub kibibytes_to_bytes : ℕ → Option ℕ
kibibytes_to_bytes value_kib = checked_mul value_kib bytes_per_kib

unfoldable pub bytes_to_kibibytes : ℕ → Option ℕ
bytes_to_kibibytes value_bytes =
    if is_multiple_of value_bytes bytes_per_kib then some (value_bytes / bytes_per_kib) else none

-- For every `u64` number of bytes, it has the KiB value `kib` exactly when `kib` converts to it.
pub kibibytes_round_trip :
    (bytes kib : ℕ)
    → bytes < u64_mod
    → (bytes_to_kibibytes bytes ≡ some kib) ↔ (kibibytes_to_bytes kib ≡ some bytes)
unfolding bytes_to_kibibytes kibibytes_to_bytes
kibibytes_round_trip bytes kib h = ground arith
