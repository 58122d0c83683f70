-- ===== src/Runtime/Granted.antt =====
-- host/src/runtime.rs, the grant of `act`: its bounds and the target it leads to.
use native.Mathlib.Nat.{
  mul-mod_right, div-add-mod, mul-sub, mul-le-mul_left, le-div_iff_mul-le, zero-mod,
}
use virtio_mem_windows_servi.Prelude.{
  none, some, u64_mod, ℕ, ◌+◌, ◌-◌, ◌*◌, ◌/◌, ◌%◌, ◌≤◌, ◌<◌, ◌≡◌, ◌↔◌, ap, ◌∙◌, [], ◌∷◌, Option, ok,
  arith, min, max,
}
use virtio_mem_windows_servi.Config.{HostConfig}
use virtio_mem_windows_servi.VirtioMem.{
  VirtioMemState, validate, validate_target, maximum_target_bytes, device_maximum_target,
}
use virtio_mem_windows_servi.VirtioMem.Targets.{
  IsDevice, validate_iff_IsDevice, validate_target_iff,
}
use virtio_mem_windows_servi.Runtime.Grant.{
  whole_blocks, growth_caps, smallest, growth_grant, removal_grant, pool_cap, guest_room, host_room,
}

pub whole_blocks-multiple : (x b : ℕ) → whole_blocks x b ≡ b * (x / b)
whole_blocks-multiple x b = omega (arith, div-add-mod x b)

pub whole_blocks-aligned : (x b : ℕ) → whole_blocks x b % b ≡ 0
whole_blocks-aligned x b = ap (λ v. v % b) (whole_blocks-multiple x b) ∙ mul-mod_right b (x / b)

aligned_multiple : (a b : ℕ) → a % b ≡ 0 → a ≡ b * (a / b)
aligned_multiple a b h = omega (arith, div-add-mod a b)

pub sum_aligned : (a c b : ℕ) → a % b ≡ 0 → c % b ≡ 0 → (a + c) % b ≡ 0
sum_aligned a c b p q = ap (λ v. v % b) e ∙ mul-mod_right b (a / b + c / b)
  where
    e : a + c ≡ b * (a / b + c / b)
    e = omega (arith, aligned_multiple a b p, aligned_multiple c b q)

pub difference_aligned : (a c b : ℕ) → a % b ≡ 0 → c % b ≡ 0 → (a - c) % b ≡ 0
difference_aligned a c b p q = ap (λ v. v % b) e ∙ mul-mod_right b (a / b - c / b)
  where
    e : a - c ≡ b * (a / b - c / b)
    e = omega (arith, aligned_multiple a b p, aligned_multiple c b q, mul-sub b (a / b) (c / b))

-- The whole blocks of `x` are the greatest multiple that `x` allows.
pub whole_blocks-greatest : (x y b : ℕ) → 0 < b → y % b ≡ 0 → (y ≤ whole_blocks x b) ↔ (y ≤ x)
whole_blocks-greatest x y b pos h = (λ p. omega arith, λ p. within p)
  where
    within : y ≤ x → y ≤ whole_blocks x b
    within p =
        let shorter : y / b * b ≤ x = omega (arith, aligned_multiple y b h) in
        let fewer : y / b ≤ x / b = (le-div_iff_mul-le pos).1 shorter in
        omega (arith, aligned_multiple y b h, whole_blocks-multiple x b, mul-le-mul_left b fewer)

smallest_iff :
    (x a b c d e : ℕ)
    → (x ≤ smallest (a ∷ b ∷ c ∷ d ∷ e ∷ [])) ↔ ((x ≤ a) × (x ≤ b) × (x ≤ c) × (x ≤ d) × (x ≤ e))
unfolding smallest
smallest_iff x a b c d e = omega arith

-- The grant against the limits as the code computes them.
growth_grant_limits :
    (config : HostConfig) (base_ram : ℕ) (state : VirtioMemState) (bytes : ℕ) (ceiling : Option ℕ)
    (available committed x : ℕ)
    → 0 < state.block_size_bytes
    → x % state.block_size_bytes ≡ 0
    → (growth_grant config base_ram state bytes ceiling available committed % state.block_size_bytes
        ≡ 0)
      × ((x ≤ growth_grant config base_ram state bytes ceiling available committed) ↔ (
          (x ≤ bytes)
          × (x ≤ guest_room config base_ram state)
          × (x ≤ device_maximum_target state - state.current_bytes)
          × (x ≤ pool_cap ceiling state.current_bytes)
          × (x ≤ host_room config available committed)))
unfolding growth_grant growth_caps
growth_grant_limits config base_ram state bytes ceiling available committed x pos h =
    let limits =
      smallest_iff x bytes (guest_room config base_ram state)
        (device_maximum_target state - state.current_bytes) (pool_cap ceiling state.current_bytes)
        (host_room config available committed) in
    let whole =
      whole_blocks-greatest
        (smallest (growth_caps config base_ram state bytes ceiling available committed)) x
        state.block_size_bytes pos h in
    (
      whole_blocks-aligned
          (smallest (growth_caps config base_ram state bytes ceiling available committed))
          state.block_size_bytes,
      (λ p. limits.0 (whole.0 p), λ p. whole.1 (limits.1 p)),
    )

-- What the ceiling of the pool allows, if there is a pool.
abbrev pub WithinCeiling : Option ℕ → ℕ → Type 0
WithinCeiling none target = Unit
WithinCeiling (some ceiling) target = target ≤ ceiling

pool_cap_iff :
    (ceiling : Option ℕ) (current x : ℕ)
    → 0 < x
    → x < u64_mod
    → (x ≤ pool_cap ceiling current) ↔ WithinCeiling ceiling (current + x)
unfolding pool_cap
pool_cap_iff none current x pos small = (λ _. tt, λ _. omega arith)
pool_cap_iff (some c) current x pos small = (λ h. omega arith, λ h. omega arith)

-- The grant of a growth is the greatest number of whole blocks within all five limits. It is whole
-- blocks; and a positive `u64` of whole blocks is at most the grant exactly when it is at most the
-- request, and the device grown by it is, with the RAM beside it, within the guest's configured maximum,
-- within the largest target of the device, and within the ceiling of the pool, if there is one, and the
-- available memory of the host covers it beside the bytes already committed, the reserve and 256 MiB.
pub growth_grant-greatest :
    (config : HostConfig) (base_ram : ℕ) (state : VirtioMemState) (bytes : ℕ) (ceiling : Option ℕ)
    (available committed x : ℕ)
    → 0 < state.block_size_bytes
    → 0 < x
    → x < u64_mod
    → x % state.block_size_bytes ≡ 0
    → (growth_grant config base_ram state bytes ceiling available committed % state.block_size_bytes
        ≡ 0)
      × ((x ≤ growth_grant config base_ram state bytes ceiling available committed) ↔ (
          (x ≤ bytes)
          × (base_ram + state.current_bytes + x ≤ config.max_ram)
          × (state.current_bytes + x ≤ device_maximum_target state)
          × WithinCeiling ceiling (state.current_bytes + x)
          × (committed + x + config.host_min_headroom_bytes + 268435456 ≤ available)))
unfolding guest_room host_room
growth_grant-greatest config base_ram state bytes ceiling available committed x block pos small
      whole =
    let (aligned, limits) =
      growth_grant_limits config base_ram state bytes ceiling available committed x block whole in
    let pool = pool_cap_iff ceiling state.current_bytes x pos small in
    (
      aligned,
      (
        λ h.
            let (a, b, c, d, e) = limits.0 h in
            (a, omega (arith, b, pos), omega (arith, c, pos), pool.0 d, omega (arith, e, pos)),
        λ k. limits.1 (k.0, omega (arith, k.1), omega (arith, k.2), pool.1 k.3, omega (arith, k.4)),
      ),
    )

-- A whole number of blocks is all of the device.
pub device_maximum_lem :
    (state : VirtioMemState)
    → validate state ≡ ok tt
    → device_maximum_target state ≡ state.size_bytes
unfolding device_maximum_target maximum_target_bytes
device_maximum_lem state v = rw one_block (omega (arith, d.size_aligned))
  where
    d : IsDevice state
    d = (validate_iff_IsDevice state).0 v

    one_block : max state.block_size_bytes 1 ≡ state.block_size_bytes
    one_block = omega (arith, d.block_large)

-- A growth target is one that the device accepts.
pub growth_target_accepted :
    (config : HostConfig) (base_ram : ℕ) (state : VirtioMemState) (bytes : ℕ) (ceiling : Option ℕ)
    (available committed : ℕ)
    → validate state ≡ ok tt
    → validate_target state
        (state.current_bytes + growth_grant config base_ram state bytes ceiling available committed)
      ≡ ok tt
growth_target_accepted config base_ram state bytes ceiling available committed v =
    let d = (validate_iff_IsDevice state).0 v in
    let g =
      growth_grant_limits config base_ram state bytes ceiling available committed
        (growth_grant config base_ram state bytes ceiling available committed)
        (omega (arith, d.block_large)) in
    let aligned =
      (growth_grant_limits config base_ram state bytes ceiling available committed 0
        (omega (arith, d.block_large)) (zero-mod state.block_size_bytes)).0 in
    let within = (g aligned).1.0 (omega arith) in
    (validate_target_iff state _ v).1 (
      omega (arith, within.2, d.current_fits.within, device_maximum_lem state v),
      sum_aligned state.current_bytes _ state.block_size_bytes d.current_fits.aligned aligned,
    )

pub removal_target_accepted :
    (config : HostConfig) (base_ram : ℕ) (state : VirtioMemState) (bytes : ℕ)
    → validate state ≡ ok tt
    → validate_target state (state.current_bytes - removal_grant config base_ram state bytes)
      ≡ ok tt
unfolding removal_grant
removal_target_accepted config base_ram state bytes v =
    let d = (validate_iff_IsDevice state).0 v in
    (validate_target_iff state _ v).1 (
      omega (arith, d.current_fits.within, device_maximum_lem state v),
      difference_aligned state.current_bytes _ state.block_size_bytes d.current_fits.aligned (
          whole_blocks-aligned (min bytes (state.current_bytes - (config.min_ram - base_ram)))
            state.block_size_bytes),
    )
