-- ===== src/Target/Bounds.antt =====
-- target_controller.rs, `estimate`: the target within the RAM limits.
use virtio_mem_windows_servi.Prelude.{
  ℕ, ◌+◌, ◌-◌, ◌*◌, ◌/◌, ◌%◌, ◌≤◌, ◌≡◌, refl, subst, inl, inr, false, none, some, ok, arith,
  Bool-cases, min, ltb, if◌then◌else◌, ok-injective, >>=-eq-ok,
}
use native.Mathlib.Nat.{div-add-mod}
use mathlib.Core.Bool.{◌||◌}
use virtio_mem_windows_servi.Target.{
  TargetPolicyConfig, TargetGeometry, InstantaneousTarget, align_up,
}
use virtio_mem_windows_servi.Target.Estimator.{TargetEstimator, apply_limits, clamp}
use virtio_mem_windows_servi.Target.Limits.{
  Aligned, align_up-Aligned, whole_multiple, maximum_aligned,
}
use virtio_mem_windows_servi.Target.Instant.{min_aligned, InDevice}

-- The target within the RAM limits.
pub record Limited (t : TargetEstimator) (g : TargetGeometry) (base : ℕ)
    (instant now : InstantaneousTarget) : Type 0 where
  pub base_within : base ≤ t.max_ram
  pub floor_le_desired : now.floor_now_bytes ≤ now.desired_now_bytes
  pub desired_le_maximum : now.desired_now_bytes ≤ now.effective_maximum_bytes
  pub minimum_ram : t.min_ram ≤ base + now.desired_now_bytes
  pub maximum_ram : base + now.effective_maximum_bytes ≤ t.max_ram
  pub maximum_le : now.effective_maximum_bytes ≤ instant.effective_maximum_bytes
  pub maximum_aligned : now.effective_maximum_bytes % g.block_size_bytes ≡ 0
  pub floor_aligned : now.floor_now_bytes % g.block_size_bytes ≡ 0
  pub desired_aligned : now.desired_now_bytes % g.block_size_bytes ≡ 0
  pub limited_eq : now.capacity_limited ≡ instant.capacity_limited

clamp_aligned : (x lo hi b : ℕ) → x % b ≡ 0 → lo % b ≡ 0 → hi % b ≡ 0 → clamp x lo hi % b ≡ 0
clamp_aligned x lo hi b hx hlo hhi = elim (Bool-cases (ltb x lo)) [
  | inl l ↦ rw l hlo
  | inr l ↦ elim (Bool-cases (ltb hi x)) [ inl u ↦ rw (l, u) hhi | inr u ↦ rw (l, u) hx ]
]

product_le : (v b : ℕ) → v / b * b ≤ v
product_le v b = omega (arith, div-add-mod v b)

pub apply_limits-Limited :
    (t : TargetEstimator) (c : TargetPolicyConfig) (g : TargetGeometry) (base : ℕ)
    (instant now : InstantaneousTarget)
    → InDevice c g instant
    → apply_limits t g base instant ≡ ok (some now)
    → Limited t g base instant now
unfolding apply_limits
apply_limits-Limited t c g base instant now d h =
    let (minimum, up, rest) = >>=-eq-ok (align_up (t.min_ram - base) g.block_size_bytes) _ h in
    go minimum
      (align_up-Aligned (t.min_ram - base) g.block_size_bytes minimum d.usable.block_pos up)
      (ok-injective _ _ rest)
  where
    maximum : ℕ
    maximum =
        min ((t.max_ram - base) / g.block_size_bytes * g.block_size_bytes)
          instant.effective_maximum_bytes

    maximum_multiple : maximum % g.block_size_bytes ≡ 0
    maximum_multiple =
        min_aligned _ instant.effective_maximum_bytes g.block_size_bytes
          (whole_multiple (t.max_ram - base) g.block_size_bytes)
          (rw (d.usable.maximum_eq)
            (maximum_aligned g.device_size_bytes g.block_size_bytes d.usable.block_pos))

    chosen : ℕ → InstantaneousTarget
    chosen minimum = record instant {
      effective_maximum_bytes = maximum;
      desired_now_bytes = clamp instant.desired_now_bytes minimum maximum;
      floor_now_bytes = clamp instant.floor_now_bytes minimum maximum;
    }

    facts :
        (minimum : ℕ)
        → Aligned (t.min_ram - base) g.block_size_bytes minimum
        → (ltb maximum minimum || ltb t.max_ram base) ≡ false
        → Limited t g base instant (chosen minimum)
    facts minimum a fine = record {
      base_within = ground arith;
      floor_le_desired = ground (arith, d.floor_within);
      desired_le_maximum = ground arith;
      minimum_ram = ground (arith, a.above);
      maximum_ram = ground (arith, product_le (t.max_ram - base) g.block_size_bytes);
      maximum_le = omega arith;
      maximum_aligned = maximum_multiple;
      desired_aligned =
          clamp_aligned instant.desired_now_bytes minimum maximum g.block_size_bytes
            d.desired_aligned a.multiple maximum_multiple;
      floor_aligned =
          clamp_aligned instant.floor_now_bytes minimum maximum g.block_size_bytes d.floor_aligned
            a.multiple maximum_multiple;
      limited_eq = refl;
    }

    go :
        (minimum : ℕ)
        → Aligned (t.min_ram - base) g.block_size_bytes minimum
        → (if ltb maximum minimum || ltb t.max_ram base then none else some (chosen minimum))
          ≡ some now
        → Limited t g base instant now
    go minimum a e = elim (Bool-cases (ltb maximum minimum || ltb t.max_ram base)) [
      | inl bad ↦ absurd (ground arith)
      | inr fine ↦
          let same : chosen minimum ≡ now = ground arith in
          subst (Limited t g base instant) same (facts minimum a fine)
    ]
