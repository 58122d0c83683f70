-- ===== src/Runtime/Extended.antt =====
-- host/src/runtime.rs, `extend_shrink`: bounds of the lower target.
use native.Mathlib.Nat.{mul-mod_left, div-add-mod, mul-le-mul_right, mod-lt, div-mul-le_self}
use virtio_mem_windows_servi.Prelude.{
  ℕ, ◌+◌, ◌-◌, ◌*◌, ◌/◌, ◌%◌, ◌≤◌, ◌<◌, ◌≡◌, ◌≢◌, ◌⊎◌, ◌&&◌, text_eq, ap, ◌∙◌, inl, inr, Option,
  none, some, ok, arith, min, max, Text, u64_mod, div_ceil, Bool-cases, leb, ltb, ◌==◌,
}
use virtio_mem_windows_servi.Config.{HostConfig}
use virtio_mem_windows_servi.VirtioMem.{VirtioMemState, validate, validate_target}
use virtio_mem_windows_servi.VirtioMem.Targets.{validate_iff_IsDevice, validate_target_iff}
use virtio_mem_windows_servi.Runtime.Extension.{
  max_extension_bytes, extension_floor, extension_step, step_bytes, extension_target,
}
use virtio_mem_windows_servi.Runtime.Granted.{device_maximum_lem, difference_aligned}
use virtio_mem_windows_servi.Target.Alignment.{max_aligned}

-- The least number of blocks that holds `a` bytes.
div_ceil_bounds : (a b : ℕ) → 0 < b → (a ≤ div_ceil a b * b) × (div_ceil a b * b < a + b)
div_ceil_bounds a b pos = elim (Bool-cases (a % b == 0)) [
  | inl z ↦ let e : a % b ≡ 0 = ground arith in rw z (omega (arith, div-add-mod a b, e))
  | inr n ↦
      let e : a % b ≢ 0 = ground arith in rw n (omega (arith, div-add-mod a b, e, mod-lt a pos))
]

block_cap :
    (k block : ℕ)
    → k ≤ max (max_extension_bytes / block) 1
    → k * block ≤ max max_extension_bytes block
block_cap k block h = elim (Bool-cases (leb k (max_extension_bytes / block))) [
  | inl y ↦
      let few : k ≤ max_extension_bytes / block = ground arith in
      omega (arith, mul-le-mul_right block few, div-mul-le_self max_extension_bytes block)
  | inr n ↦ let one : k ≤ 1 = ground arith in omega (arith, mul-le-mul_right block one)
]

step_size :
    (ext : Option (Text × ℕ × ℕ)) (id : Text) (current block : ℕ)
    → 0 < block
    → extension_step ext id current block * block ≤ max max_extension_bytes block
unfolding extension_step
step_size none id current block pos = omega arith
step_size (some (operation, from, step)) id current block pos =
    let k = min (step * 2) (max (max_extension_bytes / block) 1) in
    elim (Bool-cases (text_eq operation id && leb (step * block) (from - current))) [
      | inl y ↦ rw y (block_cap k block (omega arith))
      | inr n ↦ rw n (omega arith)
    ]

-- The requested bytes after a step, where the target is lower than before.
record Lowered (requested bytes floor t : ℕ) : Type 0 where
  fits : bytes ≤ requested
  value : t ≡ max (requested - bytes) floor
  lower : t < requested

extension_target-Lowered :
    (requested bytes floor t : ℕ)
    → extension_target requested bytes floor ≡ some t
    → Lowered requested bytes floor t
unfolding extension_target
extension_target-Lowered requested bytes floor t h = ground arith

-- The floor keeps the guest's minimum, in whole blocks, unless it is out of range.
floor_cases :
    (config : HostConfig) (base_ram block : ℕ)
    → 0 < block
    → ((config.min_ram ≤ base_ram + extension_floor config base_ram block)
        × (extension_floor config base_ram block % block ≡ 0))
      ⊎ (u64_mod ≤ extension_floor config base_ram block + 1)
unfolding extension_floor
floor_cases config base_ram block pos =
    let k = div_ceil (config.min_ram - base_ram) block in
    let c = div_ceil_bounds (config.min_ram - base_ram) block pos in
    elim (Bool-cases (ltb (k * block) u64_mod)) [
      | inl y ↦ rw y (inl (omega (arith, c.0), mul-mod_left k block))
      | inr n ↦ rw n (inr (omega arith))
    ]

min_multiple : (j k b : ℕ) → min (j * b) (k * b) % b ≡ 0
min_multiple j k b = elim (Bool-cases (leb (j * b) (k * b))) [
  | inl y ↦
      let e : min (j * b) (k * b) ≡ j * b = ground arith in ap (λ v. v % b) e ∙ mul-mod_left j b
  | inr n ↦
      let e : min (j * b) (k * b) ≡ k * b = ground arith in ap (λ v. v % b) e ∙ mul-mod_left k b
]

pub record Lower (config : HostConfig) (base_ram : ℕ) (state : VirtioMemState) (goal t : ℕ)
    : Type 0 where
  pub lower : t < state.requested_bytes
  pub keeps_minimum : config.min_ram ≤ base_ram + t
  pub accepted : validate_target state t ≡ ok tt
  pub bounded : state.requested_bytes ≤ t + max max_extension_bytes state.block_size_bytes
  pub towards_goal :
      state.requested_bytes < t + (state.current_bytes - goal) + state.block_size_bytes

-- The lower target of a held shrink is below the last one by at most 256 MiB or one block, and by less
-- than a block more than what the goal still lacks; it is a target that the device accepts, and leaves
-- the guest its minimum. The device's size is a `u64`.
pub extension_target-Lower :
    (config : HostConfig) (base_ram : ℕ) (state : VirtioMemState) (ext : Option (Text × ℕ × ℕ))
    (id : Text) (goal t : ℕ)
    → validate state ≡ ok tt
    → state.size_bytes < u64_mod
    → extension_target state.requested_bytes
        (step_bytes
          (extension_step ext id state.current_bytes state.block_size_bytes)
          state.current_bytes
          goal
          state.block_size_bytes)
        (extension_floor config base_ram state.block_size_bytes)
      ≡ some t
    → Lower config base_ram state goal t
unfolding step_bytes
extension_target-Lower config base_ram state ext id goal t v small h =
    let b = state.block_size_bytes in
    let d = (validate_iff_IsDevice state).0 v in
    let pos : 0 < state.block_size_bytes = omega (arith, d.block_large) in
    let step = extension_step ext id state.current_bytes state.block_size_bytes in
    let blocks = div_ceil (state.current_bytes - goal) state.block_size_bytes in
    let bytes = min (step * state.block_size_bytes) (blocks * state.block_size_bytes) in
    let floor = extension_floor config base_ram state.block_size_bytes in
    let l = extension_target-Lowered state.requested_bytes bytes floor t h in
    let size = step_size ext id state.current_bytes state.block_size_bytes pos in
    let near = div_ceil_bounds (state.current_bytes - goal) state.block_size_bytes pos in
    elim (floor_cases config base_ram state.block_size_bytes pos) [
      | inr out ↦ absurd (omega (arith, l.value, l.lower, d.requested_fits.within))
      | inl (minimum, aligned) ↦ record {
        lower = l.lower;
        keeps_minimum = omega (arith, l.value);
        accepted = (validate_target_iff state t v).1 (
          omega (arith, l.lower, d.requested_fits.within, device_maximum_lem state v),
          rw l.value (
              max_aligned (state.requested_bytes - bytes) floor b
                (difference_aligned state.requested_bytes bytes b d.requested_fits.aligned
                  (min_multiple step blocks b))
                aligned),
        );
        bounded = omega (arith, l.value, l.fits, size);
        towards_goal = omega (arith, l.value, l.fits, near);
      }
    ]
