-- ===== src/Pool/Totals.antt =====
-- pool.rs: the outcome of `allocate_pool`, and the bytes that a round hands out in all.
use virtio_mem_windows_servi.Prelude.{
  ℕ, ◌+◌, ◌-◌, ◌≤◌, ◌<◌, ◌≡◌, sym, ap, ◌∙◌, subst, none, some, List, [], ◌∷◌, arith, if◌then◌else◌,
  ltb, max, length, get_elem?, set, replicate, any, All, map_option, length-set, length-replicate,
  get_elem?-set_self, get_elem?-set_ne, get_elem?_in_range, All-get_elem?, u64_mod, true, false, ok,
  err, ◌⊎◌, inl, inr, Option-cases, Bool-cases,
}
use virtio_mem_windows_servi.Pool.{
  PoolMember, PoolAllocation, invalid_block, overflow, charged_from, granted_to, allocation, serve,
  invalid_member, allocate_pool, no_allocation,
}
use virtio_mem_windows_servi.Pool.Order.{
  count, IsOrder, IsOrder-tail, head_once, head_in_range, service_order, service_order-IsOrder,
  count-service_order,
}
use virtio_mem_windows_servi.Pool.Sums.{
  sum_by, at, sum_below, sum_below-at, sum_below-congr, sum_below-change,
}
use virtio_mem_windows_servi.Pool.Serve.{
  granted-le-free, granted-le-wanted, serve_step, serve_done, serve_total,
}

-- The byte counts of a member are `u64`.
pub record IsMember (m : PoolMember) : Type 0 where
  pub charged : m.charged_bytes < u64_mod
  pub desired : m.desired_bytes < u64_mod

abbrev pub charged : PoolMember → ℕ
charged m = m.charged_bytes

abbrev pub ceiling : PoolAllocation → ℕ
ceiling a = a.ceiling_bytes

pub ceiling-allocation :
    (m : PoolMember) (free : ℕ)
    → IsMember m
    → (allocation m (granted_to m free)).ceiling_bytes ≡ m.charged_bytes + granted_to m free
unfolding allocation
ceiling-allocation m free h = ground (arith, granted-le-wanted m free)

-- Index by index: the charge while the index waits to be served, and its ceiling afterwards.
held : List PoolMember → List ℕ → List PoolAllocation → ℕ → ℕ
held ms order out k = if ltb 0 (count k order) then at charged ms k else at ceiling out k

held_step :
    (ms : List PoolMember) (i : ℕ) (order : List ℕ) (out : List PoolAllocation) (m : PoolMember)
    (free : ℕ)
    → IsOrder (length ms) (i ∷ order)
    → length out ≡ length ms
    → get_elem? ms i ≡ some m
    → IsMember m
    → sum_below (length ms) (held ms (i ∷ order) out) + granted_to m free
      ≡ sum_below (length ms) (held ms order (set out i (allocation m (granted_to m free))))
unfolding held
held_step ms i order out m free o len e u =
    sum_below-change (length ms) (held ms (i ∷ order) out)
      (held ms order (set out i (allocation m (granted_to m free)))) i (granted_to m free)
      (head_in_range o)
      (λ k other. ground (arith, get_elem?-set_ne out i k (allocation m (granted_to m free))))
      (ground (
        arith,
        head_once o,
        get_elem?-set_self out i (allocation m (granted_to m free))
            (omega (arith, head_in_range o)),
        ceiling-allocation m free u,
      ))

serve-sum :
    (ms : List PoolMember) (order : List ℕ) (free : ℕ) (out : List PoolAllocation)
    → IsOrder (length ms) order
    → length out ≡ length ms
    → All IsMember ms
    → {bs : List PoolAllocation} → serve ms order free out ≡ some bs
    → sum_below (length ms) (at ceiling bs) ≤ sum_below (length ms) (held ms order out) + free
serve-sum ms [] free out o len us {bs} run =
    let e = sym (serve_done ms free out) ∙ run in
    let same : out ≡ bs = cc in
    omega (
      arith,
      sum_below-congr (length ms) (at ceiling bs) (held ms [] out)
          (λ k h. unfold held in ap (λ l. at ceiling l k) (sym same)),
    )
serve-sum ms (i ∷ order) free out o len us run =
    let (m, e) = get_elem?_in_range ms i (head_in_range o) in
    omega (
      arith,
      held_step ms i order out m free o len e (All-get_elem? IsMember ms i us e),
      granted-le-free m free,
      serve-sum ms order (free - granted_to m free) (set out i (allocation m (granted_to m free)))
          (IsOrder-tail o) (length-set out i _ ∙ len) us
          (sym (serve_step ms i order free out e) ∙ run),
    )

pub charged_from-sum :
    (t : ℕ) (ms : List PoolMember) (c : ℕ) → charged_from t ms ≡ some c → c ≡ t + sum_by charged ms
unfolding charged_from
charged_from-sum t [] c h = ground arith
charged_from-sum t (m ∷ ms) c h = ground (arith, charged_from-sum (t + m.charged_bytes) ms c)

charged_from-overflow :
    (t : ℕ) (ms : List PoolMember) → charged_from t ms ≡ none → u64_mod ≤ t + sum_by charged ms
unfolding charged_from
charged_from-overflow t [] h = cc
charged_from-overflow t (m ∷ ms) h = ground (arith, charged_from-overflow (t + m.charged_bytes) ms)

-- The starting allocations of the loop.
pub blank : List PoolMember → List PoolAllocation
blank ms = replicate (length ms) no_allocation

pub length-blank : (ms : List PoolMember) → length (blank ms) ≡ length ms
unfolding blank
length-blank ms = length-replicate (length ms) no_allocation

-- What a round that succeeds has computed.
pub record Round (pool_bytes : ℕ) (ms : List PoolMember) (bs : List PoolAllocation) : Type 0 where
  pub valid : any invalid_member ms ≡ false
  pub counted : sum_by charged ms < u64_mod
  pub served : serve ms (service_order ms) (pool_bytes - sum_by charged ms) (blank ms) ≡ some bs

allocate_pool-invalid :
    (pool_bytes : ℕ) (ms : List PoolMember)
    → any invalid_member ms ≡ true
    → allocate_pool pool_bytes ms ≡ some (err invalid_block)
unfolding allocate_pool
allocate_pool-invalid pool_bytes ms h = rw h

allocate_pool-uncounted :
    (pool_bytes : ℕ) (ms : List PoolMember)
    → any invalid_member ms ≡ false
    → charged_from 0 ms ≡ none
    → allocate_pool pool_bytes ms ≡ some (err overflow)
unfolding allocate_pool
allocate_pool-uncounted pool_bytes ms h e = rw (h, e)

allocate_pool-counted :
    (pool_bytes : ℕ) (ms : List PoolMember) (c : ℕ)
    → any invalid_member ms ≡ false
    → charged_from 0 ms ≡ some c
    → allocate_pool pool_bytes ms
      ≡ map_option ok (serve ms (service_order ms) (pool_bytes - c) (blank ms))
unfolding allocate_pool service_order blank
allocate_pool-counted pool_bytes ms c h e = rw (h, e)

charged_from-lt :
    (t : ℕ) (ms : List PoolMember) (c : ℕ) → t < u64_mod → charged_from t ms ≡ some c → c < u64_mod
unfolding charged_from
charged_from-lt t [] c h e = ground arith
charged_from-lt t (m ∷ ms) c h e = ground (arith, charged_from-lt (t + m.charged_bytes) ms c)

-- Every call returns: `InvalidBlock` if a block size is no power of two, else `Overflow` if the
-- charges do not add up within a `u64`, and else one allocation for each member.
pub allocate_pool_outcome :
    (pool_bytes : ℕ) (ms : List PoolMember)
    → ((any invalid_member ms ≡ true) × (allocate_pool pool_bytes ms ≡ some (err invalid_block)))
      ⊎ (((any invalid_member ms ≡ false)
            × (u64_mod ≤ sum_by charged ms)
            × (allocate_pool pool_bytes ms ≡ some (err overflow)))
          ⊎ ((bs : List PoolAllocation) × (allocate_pool pool_bytes ms ≡ some (ok bs))
              × (length bs ≡ length ms)
              × Round pool_bytes ms bs))
allocate_pool_outcome pool_bytes ms = elim (Bool-cases (any invalid_member ms)) [
  | inl bad ↦ inl (bad, allocate_pool-invalid pool_bytes ms bad)
  | inr fine ↦ elim (Option-cases (charged_from 0 ms)) [
    | inl e ↦ inr (
        inl (
          fine,
          omega (arith, charged_from-overflow 0 ms e),
          allocate_pool-uncounted pool_bytes ms fine e,
        ))
    | inr (c, e) ↦
        let c_sum : c ≡ sum_by charged ms = omega (arith, charged_from-sum 0 ms c e) in
        let (bs, run, len) =
          serve_total ms (service_order ms) (pool_bytes - c) (blank ms)
            (service_order-IsOrder ms) in
        inr (
          inr (
            bs,
            allocate_pool-counted pool_bytes ms c fine e ∙ ap (map_option ok) run,
            len ∙ length-blank ms,
            record {
              valid = fine;
              counted = omega (arith, charged_from-lt 0 ms c (omega arith) e, c_sum);
              served = rw (← c_sum) run;
            },
          ))
  ]
]

pub allocate_pool-Round :
    (pool_bytes : ℕ) (ms : List PoolMember) (bs : List PoolAllocation)
    → allocate_pool pool_bytes ms ≡ some (ok bs)
    → Round pool_bytes ms bs
allocate_pool-Round pool_bytes ms bs h = elim (allocate_pool_outcome pool_bytes ms) [
  | inl (_, e) ↦ absurd (cc)
  | inr (inl (_, _, e)) ↦ absurd (cc)
  | inr (inr (cs, e, _, r)) ↦ let same : cs ≡ bs = cc in subst (Round pool_bytes ms) same r
]

held_blank :
    (ms : List PoolMember) (k : ℕ)
    → k < length ms
    → held ms (service_order ms) (blank ms) k ≡ at charged ms k
unfolding held
held_blank ms k h = ground (arith, count-service_order ms k h)

-- The ceilings of a round add up to at most the pool, or to the members' charges where these are
-- already more than the pool.
pub ceilings_within_pool :
    (pool_bytes : ℕ) (ms : List PoolMember) (bs : List PoolAllocation)
    → All IsMember ms
    → allocate_pool pool_bytes ms ≡ some (ok bs)
    → sum_by ceiling bs ≤ max pool_bytes (sum_by charged ms)
ceilings_within_pool pool_bytes ms bs us h =
    let r = allocate_pool-Round pool_bytes ms bs h in
    let (cs, run, len) =
      serve_total ms (service_order ms) (pool_bytes - sum_by charged ms) (blank ms)
        (service_order-IsOrder ms) in
    let same : cs ≡ bs = cc (r.served) in
    omega (
      arith,
      len,
      length-blank ms,
      ap length same,
      serve-sum ms (service_order ms) (pool_bytes - sum_by charged ms) (blank ms)
          (service_order-IsOrder ms) (length-blank ms) us r.served,
      sum_below-congr (length ms) (held ms (service_order ms) (blank ms)) (at charged ms)
          (held_blank ms),
      sum_below-at charged ms,
      sum_below-at ceiling bs,
      ap (λ n. sum_below n (at ceiling bs)) (ap length (sym same) ∙ len ∙ length-blank ms),
    )
