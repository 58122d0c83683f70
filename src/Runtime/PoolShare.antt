-- ===== src/Runtime/PoolShare.antt =====
-- host/src/runtime.rs, `allocate` and the grant of `act`, against pool.rs.
use virtio_mem_windows_servi.Prelude.{
  ℕ, zero, suc, ◌+◌, ◌-◌, ◌≤◌, ◌≡◌, ◌⊎◌, refl, ap, ◌∙◌, some, List, [], ◌∷◌, map, ok, arith, max,
  All, length, get_elem?, inl, inr, subst,
}
use virtio_mem_windows_servi.Pool.{PoolMember, PoolAllocation, allocate_pool}
use virtio_mem_windows_servi.Pool.Sums.{sum_by}
use virtio_mem_windows_servi.Pool.Totals.{
  IsMember, ceiling, charged, ceilings_within_pool, allocate_pool_outcome,
}
use virtio_mem_windows_servi.Pool.Priority.{allocate_pool-Keeps}
use virtio_mem_windows_servi.Config.{HostConfig}
use virtio_mem_windows_servi.VirtioMem.{VirtioMemState}
use virtio_mem_windows_servi.Runtime.{Ready, Observed, ready, VmController}
use virtio_mem_windows_servi.Runtime.Grant.{pool_cap, growth_caps, smallest, growth_grant}
use virtio_mem_windows_servi.Runtime.Observe.{pool_member}
use virtio_mem_windows_servi.Runtime.Sweep.{Member}
use virtio_mem_windows_servi.Runtime.Round.{pool_members, ceilings_of, allocate}

-- A growth that was granted under a ceiling.
pub record Grown (vm : VmController) (o : Observed) (ceiling bytes : ℕ) : Type 0 where
  pub r : Ready
  pub is_ready : o ≡ ready r
  pub available : ℕ
  pub committed : ℕ
  pub target :
      bytes
      ≡ r.state.current_bytes
        + growth_grant vm.config r.base_ram r.state r.request.bytes
            (some ceiling)
            available
            committed

-- What a VM may take after a round: no more than it is charged, or what it was granted.
abbrev pub Takes : ℕ → VmController → Observed → ℕ → ℕ → Type 0
Takes pool vm o ceiling bytes =
    (bytes ≤ (pool_member vm o pool).charged_bytes) ⊎ Grown vm o ceiling bytes

growth_grant-le-cap :
    (config : HostConfig) (base_ram : ℕ) (state : VirtioMemState) (bytes c available committed : ℕ)
    → growth_grant config base_ram state bytes (some c) available committed
      ≤ c - state.current_bytes
unfolding growth_grant growth_caps smallest pool_cap
growth_grant-le-cap config base_ram state bytes c available committed = omega arith

takes_le :
    (pool : ℕ) (vm : VmController) (o : Observed) (c bytes : ℕ)
    → (pool_member vm o pool).charged_bytes ≤ c
    → Takes pool vm o c bytes
    → bytes ≤ c
unfolding pool_member
takes_le pool vm o c bytes charge (inl h) = omega (arith, h, charge)
takes_le pool vm o c bytes charge (inr g) =
    let kept : g.r.state.current_bytes ≤ c =
      subst (λ q. (pool_member vm q pool).charged_bytes ≤ c) g.is_ready charge in
    omega (
      arith,
      g.target,
      growth_grant-le-cap vm.config g.r.base_ram g.r.state g.r.request.bytes c g.available
          g.committed,
      kept,
    )

sum_le :
    (f : PoolAllocation → ℕ) (xs : List ℕ) (ys : List PoolAllocation)
    → length xs ≡ length ys
    → ((k x : ℕ) (y : PoolAllocation) → get_elem? xs k ≡ some x → get_elem? ys k ≡ some y → x ≤ f y)
    → sum_by (λ x. x) xs ≤ sum_by f ys
sum_le f [] [] l h = omega arith
sum_le f [] (y ∷ ys) l h = omega arith
sum_le f (x ∷ xs) [] l h = absurd (ground (arith, l))
sum_le f (x ∷ xs) (y ∷ ys) l h =
    omega (arith, h 0 x y refl refl, sum_le f xs ys (ground (arith, l)) (λ k. h (suc k)))

-- A member of the pool is a VM and its observation.
pub record Comes (pool k : ℕ) (ms : List Member) (os : List Observed) (p : PoolMember)
    : Type 0 where
  pub m : Member
  pub o : Observed
  pub member : get_elem? ms k ≡ some m
  pub observed : get_elem? os k ≡ some o
  pub made : p ≡ pool_member m.session.vm o pool

Comes-from :
    (pool k : ℕ) (ms : List Member) (os : List Observed) (p : PoolMember)
    → get_elem? (pool_members ms os pool) k ≡ some p
    → Comes pool k ms os p
unfolding pool_members
Comes-from pool k [] os p h = cc
Comes-from pool k (m ∷ ms) [] p h = cc
Comes-from pool zero (m ∷ ms) (o ∷ os) p h = record {
  m = m;
  o = o;
  member = refl;
  observed = refl;
  made = cc;
}
Comes-from pool (suc k) (m ∷ ms) (o ∷ os) p h =
    let c = Comes-from pool k ms os p h in
    record { m = c.m; o = c.o; member = c.member; observed = c.observed; made = c.made }

elem_at {ℓ κ} :
    {A : Type ℓ} {B : Type κ} (xs : List A) (ys : List B) (k : ℕ) (y : B)
    → length ys ≡ length xs
    → get_elem? ys k ≡ some y
    → (x : A) × (get_elem? xs k ≡ some x)
elem_at [] [] k y l h = cc
elem_at [] (z ∷ ys) k y l h = absurd (ground (arith, l))
elem_at (x ∷ xs) [] k y l h = cc
elem_at (x ∷ xs) (z ∷ ys) zero y l h = (x, refl)
elem_at (x ∷ xs) (z ∷ ys) (suc k) y l h = elem_at xs ys k y (ground (arith, l)) h

get_elem?-map {ℓ κ} :
    {A : Type ℓ} {B : Type κ} (f : A → B) (xs : List A) (k : ℕ) (x : A)
    → get_elem? xs k ≡ some x
    → get_elem? (map f xs) k ≡ some (f x)
get_elem?-map f [] k x h = cc
get_elem?-map f (z ∷ xs) zero x h = cc
get_elem?-map f (z ∷ xs) (suc k) x h = get_elem?-map f xs k x h

length-map-ceiling : (bs : List PoolAllocation) → length (map ceiling bs) ≡ length bs
length-map-ceiling [] = refl
length-map-ceiling (b ∷ bs) = omega (arith, length-map-ceiling bs)

-- The allocations of a round, whose ceilings the loop uses.
pub record Allocated (pool : ℕ) (members : List PoolMember) (ceilings : List ℕ) : Type 0 where
  pub allocations : List PoolAllocation
  pub made : allocate_pool pool members ≡ some (ok allocations)
  pub lengths : length allocations ≡ length members
  pub ceilings_eq : ceilings ≡ map ceiling allocations

allocate-Allocated :
    (pool : ℕ) (ms : List Member) (os : List Observed) (ceilings : List ℕ)
    → allocate pool ms os ≡ some (ok ceilings)
    → Allocated pool (pool_members ms os pool) ceilings
unfolding allocate ceilings_of
allocate-Allocated pool ms os ceilings h =
    let members = pool_members ms os pool in
    elim (allocate_pool_outcome pool members) [
      | inl e ↦ absurd (ground (arith, e.1, h))
      | inr (inl e) ↦ absurd (ground (arith, e.2, h))
      | inr (inr (bs, made, lengths, _)) ↦ record {
        allocations = bs;
        made = made;
        lengths = lengths;
        ceilings_eq = ground (arith, made, h);
      }
    ]

-- With a pool, whatever each VM takes of a round, no more than it is charged or a growth granted under
-- its ceiling, all of them together take at most the pool, or the charges where these are already more.
pub takes_within_pool :
    (pool : ℕ) (ms : List Member) (os : List Observed) (ceilings takes : List ℕ)
    → All IsMember (pool_members ms os pool)
    → allocate pool ms os ≡ some (ok ceilings)
    → length takes ≡ length ceilings
    → ((k : ℕ) (m : Member) (o : Observed) (c bytes : ℕ)
        → get_elem? ms k ≡ some m
        → get_elem? os k ≡ some o
        → get_elem? ceilings k ≡ some c
        → get_elem? takes k ≡ some bytes
        → Takes pool m.session.vm o c bytes)
    → sum_by (λ x. x) takes ≤ max pool (sum_by charged (pool_members ms os pool))
takes_within_pool pool ms os ceilings takes us h len taken =
    let members = pool_members ms os pool in
    let a = allocate-Allocated pool ms os ceilings h in
    let bs = a.allocations in
    let same : length takes ≡ length bs = len ∙ ap length a.ceilings_eq ∙ length-map-ceiling bs in
    omega (
      arith,
      ceilings_within_pool pool members bs us a.made,
      sum_le ceiling takes bs same (λ k x y hx hy.
          let (p, hp) = elem_at members bs k y a.lengths hy in
          let c = Comes-from pool k ms os p hp in
          let keeps = allocate_pool-Keeps pool members bs k p y us a.made hp hy in
          takes_le pool c.m.session.vm c.o y.ceiling_bytes x
            (subst (λ q. q.charged_bytes ≤ y.ceiling_bytes) c.made keeps.never_taken)
            (taken k c.m c.o y.ceiling_bytes x c.member c.observed
              (ap (λ l. get_elem? l k) a.ceilings_eq ∙ get_elem?-map ceiling bs k y hy) hx)),
    )
