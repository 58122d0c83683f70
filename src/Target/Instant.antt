-- ===== src/Target/Instant.antt =====
-- target_controller.rs: the target of one sample, against the device and the reserves.
use virtio_mem_windows_servi.Prelude.{
  ℕ, ◌+◌, ◌%◌, ◌≤◌, ◌≡◌, refl, inl, inr, false, Option, none, some, ok, err, Result, arith,
  Bool-cases, min, max, ltb, leb, >>=-eq-ok, >>-eq-ok, ok_or, ok-injective, map_err, subst,
  checked_sub,
}
use virtio_mem_windows_servi.Telemetry.{MemoryTelemetrySnapshot, validate_memory}
use virtio_mem_windows_servi.Target.{
  TargetPolicyConfig, TargetGeometry, InstantaneousTarget, align_up, calculate_effective_maximum,
  candidate, calculate_instantaneous, invalid_telemetry,
}
use virtio_mem_windows_servi.Target.Limits.{
  maximum_aligned, align_up-Aligned, Usable, effective_maximum-Usable,
}

-- What one sample's target promises: whole blocks within the device, the floor not above the
-- desired size, and the desired size not below the configured minimum.
pub record InDevice (c : TargetPolicyConfig) (g : TargetGeometry) (t : InstantaneousTarget)
    : Type 0 where
  pub usable : Usable c g t.effective_maximum_bytes
  pub floor_within : t.floor_now_bytes ≤ t.desired_now_bytes
  pub desired_within : t.desired_now_bytes ≤ t.effective_maximum_bytes
  pub desired_aligned : t.desired_now_bytes % g.block_size_bytes ≡ 0
  pub floor_aligned : t.floor_now_bytes % g.block_size_bytes ≡ 0
  pub minimum_kept : c.configured_minimum_bytes ≤ t.desired_now_bytes

pub min_aligned : (a m b : ℕ) → a % b ≡ 0 → m % b ≡ 0 → min a m % b ≡ 0
min_aligned a m b h k = elim (Bool-cases (leb a m)) [
  | inl l ↦ let e : min a m ≡ a = ground arith in rw e h
  | inr l ↦ let e : min a m ≡ m = ground arith in rw e k
]

-- The steps of `calculate_instantaneous` that succeeded.
record Steps (c : TargetPolicyConfig) (m : MemoryTelemetrySnapshot) (g : TargetGeometry)
    (t : InstantaneousTarget) : Type 0 where
  maximum : calculate_effective_maximum c g ≡ ok t.effective_maximum_bytes
  memory : validate_memory m ≡ ok tt
  base : ℕ
  base_eq : checked_sub m.physical_total_bytes g.current_bytes ≡ some base
  desired_candidate : ℕ
  desired_eq :
      candidate m g.current_bytes base c.physical_reserve_bytes c.commit_reserve_bytes
      ≡ ok desired_candidate
  floor_candidate : ℕ
  floor_eq :
      candidate m g.current_bytes base c.safe_floor_physical_reserve_bytes
        c.safe_floor_commit_reserve_bytes
      ≡ ok floor_candidate
  desired_up : ℕ
  desired_up_eq :
      align_up
        (min (max desired_candidate c.configured_minimum_bytes) t.effective_maximum_bytes)
        g.block_size_bytes
      ≡ ok desired_up
  floor_up : ℕ
  floor_up_eq :
      align_up
        (min (max floor_candidate c.configured_minimum_bytes) t.effective_maximum_bytes)
        g.block_size_bytes
      ≡ ok floor_up
  desired_now : t.desired_now_bytes ≡ min desired_up t.effective_maximum_bytes
  floor_now : t.floor_now_bytes ≡ min floor_up t.desired_now_bytes
  limited :
      t.capacity_limited
      ≡ ltb t.effective_maximum_bytes (max desired_candidate c.configured_minimum_bytes)

ok_or-eq-ok {ε ℓ} :
    {E : Type ε} {A : Type ℓ} (o : Option A) (e : E) (a : A) → ok_or o e ≡ ok a → o ≡ some a
ok_or-eq-ok none e a h = cc
ok_or-eq-ok (some b) e a h = cc

map_err-eq-ok {ε φ ℓ} :
    {E : Type ε} {F : Type φ} {A : Type ℓ} (f : E → F) (r : Result E A) (a : A)
    → map_err f r ≡ ok a
    → r ≡ ok a
map_err-eq-ok f (ok b) a h = cc
map_err-eq-ok f (err e) a h = cc

instantaneous-Steps :
    (c : TargetPolicyConfig) (m : MemoryTelemetrySnapshot) (g : TargetGeometry)
    (t : InstantaneousTarget)
    → calculate_instantaneous c m g ≡ ok t
    → Steps c m g t
unfolding calculate_instantaneous
instantaneous-Steps c m g t h =
    let (maximum, h0, h1) = >>=-eq-ok (calculate_effective_maximum c g) _ h in
    let (h2, h3) = >>-eq-ok (map_err invalid_telemetry (validate_memory m)) _ h1 in
    let (base, h4, h5) =
      >>=-eq-ok (ok_or (checked_sub m.physical_total_bytes g.current_bytes) _) _ h3 in
    let (d, h6, h7) = >>=-eq-ok (candidate m g.current_bytes base _ _) _ h5 in
    let (f, h8, h9) = >>=-eq-ok (candidate m g.current_bytes base _ _) _ h7 in
    let (du, h10, h11) = >>=-eq-ok (align_up _ g.block_size_bytes) _ h9 in
    let (fu, h12, h13) = >>=-eq-ok (align_up _ g.block_size_bytes) _ h11 in
    subst (Steps c m g) (ok-injective _ _ h13) (record {
      maximum = h0;
      memory = map_err-eq-ok _ _ _ h2;
      base = base;
      base_eq = ok_or-eq-ok _ _ _ h4;
      desired_candidate = d;
      desired_eq = h6;
      floor_candidate = f;
      floor_eq = h8;
      desired_up = du;
      desired_up_eq = h10;
      floor_up = fu;
      floor_up_eq = h12;
      desired_now = refl;
      floor_now = refl;
      limited = refl;
    })

-- A sample's target, where it has one, lies within the device: whole blocks, the floor not above
-- the desired size, the desired size at most the largest valid target and at least the configured
-- minimum.
pub instantaneous-InDevice :
    (c : TargetPolicyConfig) (m : MemoryTelemetrySnapshot) (g : TargetGeometry)
    (t : InstantaneousTarget)
    → calculate_instantaneous c m g ≡ ok t
    → InDevice c g t
instantaneous-InDevice c m g t h =
    let s = instantaneous-Steps c m g t h in
    let u = effective_maximum-Usable c g t.effective_maximum_bytes s.maximum in
    let d = align_up-Aligned _ g.block_size_bytes s.desired_up u.block_pos s.desired_up_eq in
    let f = align_up-Aligned _ g.block_size_bytes s.floor_up u.block_pos s.floor_up_eq in
    let da : t.desired_now_bytes % g.block_size_bytes ≡ 0 = rw (s.desired_now) (
      min_aligned s.desired_up t.effective_maximum_bytes g.block_size_bytes d.multiple
        (rw (u.maximum_eq) (maximum_aligned g.device_size_bytes g.block_size_bytes u.block_pos))) in
    record {
      usable = u;
      floor_within = omega (arith, s.floor_now);
      desired_within = omega (arith, s.desired_now);
      desired_aligned = da;
      floor_aligned =
          rw (s.floor_now)
            (min_aligned s.floor_up t.desired_now_bytes g.block_size_bytes f.multiple da);
      minimum_kept = omega (arith, s.desired_now, d.above, u.minimum_within);
    }

candidate_covers :
    (m : MemoryTelemetrySnapshot) (current base physical commit r : ℕ)
    → candidate m current base physical commit ≡ ok r
    → (m.physical_total_bytes + physical ≤ m.physical_available_bytes + base + r)
      × (m.commit_total_bytes + current + commit ≤ m.commit_limit_bytes + r)
unfolding candidate
candidate_covers m current base physical commit r h = ground arith

-- Unless the device's capacity limits it, a device of the desired size leaves the guest its
-- reserves: with the same memory in use, at least the physical reserve stays available, and the
-- commit limit, moved by the change of size, at least the commit reserve above the commit total.
pub desired_meets_reserves :
    (c : TargetPolicyConfig) (m : MemoryTelemetrySnapshot) (g : TargetGeometry)
    (t : InstantaneousTarget)
    → calculate_instantaneous c m g ≡ ok t
    → t.capacity_limited ≡ false
    → (c.physical_reserve_bytes + g.current_bytes
        ≤ m.physical_available_bytes + t.desired_now_bytes)
      × (m.commit_total_bytes + c.commit_reserve_bytes + g.current_bytes
          ≤ m.commit_limit_bytes + t.desired_now_bytes)
desired_meets_reserves c m g t h unlimited =
    let s = instantaneous-Steps c m g t h in
    let u = effective_maximum-Usable c g t.effective_maximum_bytes s.maximum in
    let d = align_up-Aligned _ g.block_size_bytes s.desired_up u.block_pos s.desired_up_eq in
    let (p, q) =
      candidate_covers m g.current_bytes s.base c.physical_reserve_bytes c.commit_reserve_bytes
        s.desired_candidate s.desired_eq in
    let fits : max s.desired_candidate c.configured_minimum_bytes ≤ t.effective_maximum_bytes =
      ground (arith, s.limited) in
    let base : m.physical_total_bytes ≡ s.base + g.current_bytes = ground (arith, s.base_eq) in
    (omega (arith, s.desired_now, d.above), omega (arith, s.desired_now, d.above))
