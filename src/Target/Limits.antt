-- ===== src/Target/Limits.antt =====
-- target_controller.rs: rounding to blocks, and the effective maximum.
use virtio_mem_windows_servi.Prelude.{
  ℕ, ◌+◌, ◌-◌, ◌*◌, ◌/◌, ◌%◌, ◌≤◌, ◌<◌, ◌≡◌, sym, ap, ◌∙◌, inl, inr, Bool, false, not, ◌||◌, ok,
  arith, Bool-cases, max, ltb, ◌==◌, is_power_of_two, >>-eq-ok, guard-eq-ok, ok-injective,
  is_multiple_of,
}
use native.Mathlib.Nat.{mul-mod_right, div-add-mod}
use virtio_mem_windows_servi.VirtioMem.{maximum_target_bytes}
use virtio_mem_windows_servi.Target.{
  TargetPolicyConfig, TargetGeometry, validate_config, align_up, calculate_effective_maximum,
}

-- `k` whole blocks, and `b` more.
pub next_multiple : (v b : ℕ) → 0 < b → (v + (b - v % b)) % b ≡ 0
next_multiple v b h = ap (λ t. t % b) e ∙ mul-mod_right b (v / b + 1)
  where
    e : v + (b - v % b) ≡ b * (v / b + 1)
    e = omega (arith, div-add-mod v b)

pub whole_multiple : (v b : ℕ) → (v / b * b) % b ≡ 0
whole_multiple v b = ap (λ t. t % b) e ∙ mul-mod_right b (v / b)
  where
    e : v / b * b ≡ b * (v / b)
    e = omega arith

pub maximum_aligned : (size b : ℕ) → 0 < b → maximum_target_bytes size b % b ≡ 0
unfolding maximum_target_bytes
maximum_aligned size b h = ap (λ t. t % b) e ∙ mul-mod_right b (size / b)
  where
    e : size - size % max b 1 ≡ b * (size / b)
    e = rw (max_one) (omega (arith, div-add-mod size b))
      where
        max_one : max b 1 ≡ b
        max_one = omega arith

pub record Aligned (v b r : ℕ) : Type 0 where
  pub above : v ≤ r
  pub close : r < v + b
  pub multiple : r % b ≡ 0

-- `align_up` gives the least multiple that is not below its argument.
pub align_up-Aligned : (v b r : ℕ) → 0 < b → align_up v b ≡ ok r → Aligned v b r
unfolding align_up
align_up-Aligned v b r h e = elim (Bool-cases (v % b == 0)) [
  | inl z ↦
      let same : v ≡ r = ground arith in
      record { above = omega arith; close = omega arith; multiple = rw (← same) (ground arith) }
  | inr n ↦
      let same : v + (b - v % b) ≡ r = ground arith in
      record {
        above = omega arith;
        close = ground arith;
        multiple = rw (← same) (next_multiple v b h);
      }
]

-- What `calculate_effective_maximum` has checked.
pub record Usable (c : TargetPolicyConfig) (g : TargetGeometry) (maximum : ℕ) : Type 0 where
  pub maximum_eq : maximum ≡ maximum_target_bytes g.device_size_bytes g.block_size_bytes
  pub block_pos : 0 < g.block_size_bytes
  pub current_within : g.current_bytes ≤ maximum
  pub current_aligned : g.current_bytes % g.block_size_bytes ≡ 0
  pub minimum_within : c.configured_minimum_bytes ≤ maximum
  pub window_pos : 0 < c.history_window_millis

effective_maximum-parts :
    (c : TargetPolicyConfig) (g : TargetGeometry) (maximum : ℕ)
    → calculate_effective_maximum c g ≡ ok maximum
    → (validate_config c ≡ ok tt)
      × ((g.block_size_bytes == 0 || not (is_power_of_two g.block_size_bytes)) ≡ false)
      × (not (is_multiple_of g.current_bytes g.block_size_bytes) ≡ false)
      × ((ltb
              (maximum_target_bytes g.device_size_bytes g.block_size_bytes)
              c.configured_minimum_bytes
            || not (is_multiple_of c.configured_minimum_bytes g.block_size_bytes)
            || ltb (maximum_target_bytes g.device_size_bytes g.block_size_bytes) g.current_bytes)
          ≡ false)
      × (maximum_target_bytes g.device_size_bytes g.block_size_bytes ≡ maximum)
unfolding calculate_effective_maximum
effective_maximum-parts c g maximum h =
    let (config, h1) = >>-eq-ok (validate_config c) _ h in
    let (size, h2) = guard-eq-ok _ _ _ h1 in
    let (block, h3) = guard-eq-ok _ _ _ h2 in
    let (current, h4) = guard-eq-ok _ _ _ h3 in
    let (within, h5) = guard-eq-ok _ _ _ h4 in
    let (reserves, h6) = guard-eq-ok _ _ _ h5 in
    (config, block, current, within, ok-injective _ _ h6)

validate_config-window :
    (c : TargetPolicyConfig) → validate_config c ≡ ok tt → 0 < c.history_window_millis
unfolding validate_config
validate_config-window c h = ground arith

not_beyond : (a b m : ℕ) (t : Bool) → (ltb m a || t || ltb m b) ≡ false → (a ≤ m) × (b ≤ m)
not_beyond a b m t h = ground arith

pub effective_maximum-Usable :
    (c : TargetPolicyConfig) (g : TargetGeometry) (maximum : ℕ)
    → calculate_effective_maximum c g ≡ ok maximum
    → Usable c g maximum
effective_maximum-Usable c g maximum h =
    let (config, block, current, within, e) = effective_maximum-parts c g maximum h in
    let (low, up) =
      not_beyond c.configured_minimum_bytes g.current_bytes
        (maximum_target_bytes g.device_size_bytes g.block_size_bytes)
        (not (is_multiple_of c.configured_minimum_bytes g.block_size_bytes)) within in
    record {
      maximum_eq = sym e;
      block_pos = block_lem block;
      current_within = omega (arith, up, e);
      current_aligned = current_lem current;
      minimum_within = omega (arith, low, e);
      window_pos = validate_config-window c config;
    }
  where
    block_lem :
        (g.block_size_bytes == 0 || not (is_power_of_two g.block_size_bytes)) ≡ false
        → 0 < g.block_size_bytes
    block_lem k = ground arith

    current_lem :
        not (is_multiple_of g.current_bytes g.block_size_bytes) ≡ false
        → g.current_bytes % g.block_size_bytes ≡ 0
    current_lem k = ground arith
