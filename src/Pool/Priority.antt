-- ===== src/Pool/Priority.antt =====
-- pool.rs: what one member gets in a round, and who goes first.
use virtio_mem_windows_servi.Prelude.{
  ℕ, suc, ◌*◌, ◌/◌, ◌+◌, ◌-◌, ◌%◌, ◌≤◌, ◌<◌, ◌≡◌, sym, ap, ◌∙◌, some, List, [], ◌∷◌, arith, ◌==◌,
  zero, max, All, length, get_elem?, get_elem?-lt, All-get_elem?, false, any, Bool-cases, inl, inr,
  ok,
}
use native.Mathlib.Nat.{mul-mod_right, div-add-mod}
use virtio_mem_windows_servi.Pool.{
  PoolMember, PoolAllocation, invalid_member, granted_to, allocation, align_down, allocate_pool,
}
use virtio_mem_windows_servi.Pool.Order.{
  count, Before, Ranked, IsOrder, IsOrder-tail, head_in_range, service_order, service_order-IsOrder,
  service_order-Ranked, count-service_order,
}
use virtio_mem_windows_servi.Pool.Serve.{
  granted-le-free, granted-le-wanted, short_exhausts, free_at, free_at_hit, free_at_miss,
  free_at-le, serve_at,
}
use virtio_mem_windows_servi.Pool.Totals.{
  IsMember, allocate_pool-Round, ceiling-allocation, blank, length-blank, charged,
}
use virtio_mem_windows_servi.Prelude.{get_elem?_in_range}
use virtio_mem_windows_servi.Pool.Sums.{sum_by}

align_down-aligned : (value alignment : ℕ) → align_down value alignment % alignment ≡ 0
unfolding align_down
align_down-aligned value alignment =
    ap (λ v. v % alignment) e ∙ mul-mod_right alignment (value / alignment)
  where
    e : value - value % alignment ≡ alignment * (value / alignment)
    e = omega (arith, div-add-mod value alignment)

granted-aligned : (m : PoolMember) (free : ℕ) → granted_to m free % m.block_bytes ≡ 0
unfolding granted_to
granted-aligned m free = align_down-aligned _ m.block_bytes

-- The share of one member, out of the bytes that were free when it was served.
record Share (m : PoolMember) (a : PoolAllocation) (free : ℕ) : Type 0 where
  ceiling_eq : a.ceiling_bytes ≡ m.charged_bytes + granted_to m free
  unmet_eq : a.unmet_bytes ≡ m.desired_bytes - m.charged_bytes - granted_to m free

allocate_pool-Share :
    (pool_bytes : ℕ) (ms : List PoolMember) (bs : List PoolAllocation) (k : ℕ) (m : PoolMember)
    (a : PoolAllocation)
    → All IsMember ms
    → allocate_pool pool_bytes ms ≡ some (ok bs)
    → get_elem? ms k ≡ some m
    → get_elem? bs k ≡ some a
    → Share m a (free_at ms (service_order ms) (pool_bytes - sum_by charged ms) k)
unfolding allocation
allocate_pool-Share pool_bytes ms bs k m a us h hm ha =
    let free = free_at ms (service_order ms) (pool_bytes - sum_by charged ms) k in
    let found =
      serve_at ms (service_order ms) (pool_bytes - sum_by charged ms) (blank ms) k
        (service_order-IsOrder ms) (length-blank ms)
        (count-service_order ms k (get_elem?-lt ms k hm)) m hm
        (allocate_pool-Round pool_bytes ms bs h).served in
    let same : allocation m (granted_to m free) ≡ a = cc in
    record {
      ceiling_eq =
          sym (ap (λ (x : PoolAllocation). x.ceiling_bytes) same)
          ∙ ceiling-allocation m free (All-get_elem? IsMember ms k us hm);
      unmet_eq = sym (ap (λ (x : PoolAllocation). x.unmet_bytes) same);
    }

-- What the pool promises a member: its ceiling keeps what it holds and grows by whole blocks, and
-- ceiling and unmet growth together make up what it asked for.
pub record Keeps (m : PoolMember) (a : PoolAllocation) : Type 0 where
  pub never_taken : m.charged_bytes ≤ a.ceiling_bytes
  pub accounted : a.ceiling_bytes + a.unmet_bytes ≡ max m.desired_bytes m.charged_bytes
  pub whole_blocks : (a.ceiling_bytes - m.charged_bytes) % m.block_bytes ≡ 0

-- Every member of a round that succeeds has the allocation promised to it: the ceiling is never
-- below its charge, grows by whole blocks of its own size, and the ceiling and the unmet bytes add
-- up to the larger of desired size and charge.
pub allocate_pool-Keeps :
    (pool_bytes : ℕ) (ms : List PoolMember) (bs : List PoolAllocation) (k : ℕ) (m : PoolMember)
    (a : PoolAllocation)
    → All IsMember ms
    → allocate_pool pool_bytes ms ≡ some (ok bs)
    → get_elem? ms k ≡ some m
    → get_elem? bs k ≡ some a
    → Keeps m a
allocate_pool-Keeps pool_bytes ms bs k m a us h hm ha =
    let free = free_at ms (service_order ms) (pool_bytes - sum_by charged ms) k in
    let s = allocate_pool-Share pool_bytes ms bs k m a us h hm ha in
    record {
      never_taken = omega (arith, s.ceiling_eq);
      accounted = omega (arith, s.ceiling_eq, s.unmet_eq, granted-le-wanted m free);
      whole_blocks =
          let grown : a.ceiling_bytes - m.charged_bytes ≡ granted_to m free =
            omega (arith, s.ceiling_eq) in
          rw grown (granted-aligned m free);
    }

-- Behind a member in the order, only what that member left is free.
free_at-after :
    (ms : List PoolMember) (order : List ℕ) (free i j : ℕ) (m : PoolMember)
    → IsOrder (length ms) order
    → Ranked ms order
    → count i order ≡ 1
    → count j order ≡ 1
    → get_elem? ms i ≡ some m
    → Before ms i j
    → free_at ms order free j ≤ free_at ms order free i - granted_to m (free_at ms order free i)
free_at-after ms [] free i j m o r hi hj e b = absurd (omega arith)
free_at-after ms (h ∷ order) free i j m o r hi hj e b =
    let (n, en) = get_elem?_in_range ms h (head_in_range o) in
    elim (Bool-cases (h == i)) [
      | inl is_i ↦
          let other : (h == j) ≡ false = ground arith in
          let hi_eq : h ≡ i = ground arith in
          let nm : n ≡ m = ground arith in
          rw (free_at_hit ms h order free i is_i, free_at_miss ms h order free j en other, nm)
            (free_at-le ms order (free - granted_to m free) j (IsOrder-tail o))
      | inr not_i ↦ elim (Bool-cases (h == j)) [
        | inl is_j ↦ absurd (ground (arith, r.0 i))
        | inr not_j ↦
            rw (free_at_miss ms h order free i en not_i, free_at_miss ms h order free j en not_j)
              (free_at-after ms order (free - granted_to n free) i j m (IsOrder-tail o) r.1
                (ground arith) (ground arith) e b)
      ]
    ]

valid_block :
    (ms : List PoolMember) (i : ℕ) (m : PoolMember)
    → any invalid_member ms ≡ false
    → get_elem? ms i ≡ some m
    → 0 < m.block_bytes
unfolding invalid_member
valid_block [] i m h e = cc
valid_block (x ∷ ms) zero m h e = ground arith
valid_block (x ∷ ms) (suc i) m h e = valid_block ms i m (ground arith) e

-- While a member goes short by one of its blocks or more, nobody behind it (of smaller priority, or
-- of the same and later in the slice) is given as much as such a block.
pub priority_respected :
    (pool_bytes : ℕ) (ms : List PoolMember) (bs : List PoolAllocation) (i j : ℕ) (m n : PoolMember)
    (a b : PoolAllocation)
    → All IsMember ms
    → allocate_pool pool_bytes ms ≡ some (ok bs)
    → get_elem? ms i ≡ some m
    → get_elem? ms j ≡ some n
    → get_elem? bs i ≡ some a
    → get_elem? bs j ≡ some b
    → Before ms i j
    → m.block_bytes ≤ a.unmet_bytes
    → b.ceiling_bytes < n.charged_bytes + m.block_bytes
priority_respected pool_bytes ms bs i j m n a b us h hm hn ha hb before short =
    let order = service_order ms in
    let free = pool_bytes - sum_by charged ms in
    let si = allocate_pool-Share pool_bytes ms bs i m a us h hm ha in
    let sj = allocate_pool-Share pool_bytes ms bs j n b us h hn hb in
    let block = valid_block ms i m (allocate_pool-Round pool_bytes ms bs h).valid hm in
    omega (
      arith,
      si.unmet_eq,
      sj.ceiling_eq,
      granted-le-free n (free_at ms order free j),
      granted-le-wanted m (free_at ms order free i),
      short_exhausts m (free_at ms order free i) block (omega (arith, si.unmet_eq)),
      free_at-after ms order free i j m (service_order-IsOrder ms) (service_order-Ranked ms)
          (count-service_order ms i (get_elem?-lt ms i hm))
          (count-service_order ms j (get_elem?-lt ms j hn)) hm before,
    )
