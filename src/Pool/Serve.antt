-- ===== src/Pool/Serve.antt =====
-- pool.rs: what the serving loop of `allocate_pool` writes at each index.
use virtio_mem_windows_servi.Prelude.{
  ℕ, ◌+◌, ◌-◌, ◌≤◌, ◌<◌, ◌≡◌, refl, sym, ◌∙◌, none, some, List, [], ◌∷◌, arith, ◌==◌, if◌then◌else◌,
  length, get_elem?, set, length-set, get_elem?-set_self, get_elem?-set_ne, get_elem?_in_range, inl,
  inr, Bool-cases, true, false,
}
use virtio_mem_windows_servi.Pool.{PoolMember, PoolAllocation, granted_to, allocation, serve}
use virtio_mem_windows_servi.Pool.Order.{count, IsOrder, IsOrder-tail, head_in_range}

pub granted-le-free : (m : PoolMember) (free : ℕ) → granted_to m free ≤ free
unfolding granted_to
granted-le-free m free = omega arith

pub granted-le-wanted :
    (m : PoolMember) (free : ℕ) → granted_to m free ≤ m.desired_bytes - m.charged_bytes
unfolding granted_to
granted-le-wanted m free = omega arith

-- A member left a block short has used up the free bytes to less than a block.
pub short_exhausts :
    (m : PoolMember) (free : ℕ)
    → 0 < m.block_bytes
    → granted_to m free + m.block_bytes ≤ m.desired_bytes - m.charged_bytes
    → free - granted_to m free < m.block_bytes
unfolding granted_to
short_exhausts m free h k = grind arith

pub serve_step :
    (ms : List PoolMember) (i : ℕ) (order : List ℕ) (free : ℕ) (out : List PoolAllocation)
    {m : PoolMember}
    → get_elem? ms i ≡ some m
    → serve ms (i ∷ order) free out
      ≡ serve ms order (free - granted_to m free) (set out i (allocation m (granted_to m free)))
unfolding serve
serve_step ms i order free out e = rw (e, serve)

pub serve_done :
    (ms : List PoolMember) (free : ℕ) (out : List PoolAllocation) → serve ms [] free out ≡ some out
unfolding serve
serve_done ms free out = refl

-- The free bytes at the moment when index `k` is served.
pub free_at : List PoolMember → List ℕ → ℕ → ℕ → ℕ
free_at ms [] free k = free
free_at ms (i ∷ order) free k =
    if i == k
    then free
    else free_at ms order
        (elim (get_elem? ms i) [ none ↦ free | some m ↦ free - granted_to m free ]) k

pub free_at_hit :
    (ms : List PoolMember) (i : ℕ) (order : List ℕ) (free k : ℕ)
    → (i == k) ≡ true
    → free_at ms (i ∷ order) free k ≡ free
unfolding free_at
free_at_hit ms i order free k h = rw h

pub free_at_miss :
    (ms : List PoolMember) (i : ℕ) (order : List ℕ) (free k : ℕ) {m : PoolMember}
    → get_elem? ms i ≡ some m
    → (i == k) ≡ false
    → free_at ms (i ∷ order) free k ≡ free_at ms order (free - granted_to m free) k
unfolding free_at
free_at_miss ms i order free k e h = rw (h, e)

pub free_at-le :
    (ms : List PoolMember) (order : List ℕ) (free k : ℕ)
    → IsOrder (length ms) order
    → free_at ms order free k ≤ free
free_at-le ms [] free k o = unfold free_at in omega arith
free_at-le ms (i ∷ order) free k o =
    let (m, e) = get_elem?_in_range ms i (head_in_range o) in
    elim (Bool-cases (i == k)) [
      | inl same ↦ rw (free_at_hit ms i order free k same) (omega arith)
      | inr other ↦
          rw (free_at_miss ms i order free k e other)
            (omega (arith, free_at-le ms order (free - granted_to m free) k (IsOrder-tail o)))
    ]

-- The loop does not panic, and writes as many allocations as there are.
pub serve_total :
    (ms : List PoolMember) (order : List ℕ) (free : ℕ) (out : List PoolAllocation)
    → IsOrder (length ms) order
    → (bs : List PoolAllocation) × (serve ms order free out ≡ some bs) × (length bs ≡ length out)
serve_total ms [] free out o = (out, serve_done ms free out, refl)
serve_total ms (i ∷ order) free out o =
    let (m, e) = get_elem?_in_range ms i (head_in_range o) in
    let next : List PoolAllocation = set out i (allocation m (granted_to m free)) in
    let (bs, run, len) = serve_total ms order (free - granted_to m free) next (IsOrder-tail o) in
    (bs, serve_step ms i order free out e ∙ run, len ∙ length-set out i _)

-- An index that the order does not hold is left alone.
pub serve_other :
    (ms : List PoolMember) (order : List ℕ) (free : ℕ) (out : List PoolAllocation) (k : ℕ)
    → IsOrder (length ms) order
    → count k order ≡ 0
    → {bs : List PoolAllocation} → serve ms order free out ≡ some bs
    → get_elem? bs k ≡ get_elem? out k
serve_other ms [] free out k o absent run =
    let e = sym (serve_done ms free out) ∙ run in ground (arith, e)
serve_other ms (i ∷ order) free out k o absent run =
    let (m, e) = get_elem?_in_range ms i (head_in_range o) in
    serve_other ms order (free - granted_to m free) (set out i (allocation m (granted_to m free))) k
      (IsOrder-tail o) (omega arith) (sym (serve_step ms i order free out e) ∙ run)
    ∙ get_elem?-set_ne out i k (allocation m (granted_to m free)) (λ same. ground arith)

-- An index of the order gets its member's allocation out of the bytes free at that moment.
pub serve_at :
    (ms : List PoolMember) (order : List ℕ) (free : ℕ) (out : List PoolAllocation) (k : ℕ)
    → IsOrder (length ms) order
    → length out ≡ length ms
    → count k order ≡ 1
    → (m : PoolMember) → get_elem? ms k ≡ some m
    → {bs : List PoolAllocation} → serve ms order free out ≡ some bs
    → get_elem? bs k ≡ some (allocation m (granted_to m (free_at ms order free k)))
serve_at ms [] free out k o len here m found run = absurd (omega arith)
serve_at ms (i ∷ order) free out k o len here n found run =
    let (m, e) = get_elem?_in_range ms i (head_in_range o) in
    let next : List PoolAllocation = set out i (allocation m (granted_to m free)) in
    let rest = sym (serve_step ms i order free out e) ∙ run in
    elim (Bool-cases (i == k)) [
      | inl same ↦
          let ik : i ≡ k = ground arith in
          let mn : m ≡ n = ground arith in
          rw (free_at_hit ms i order free k same) (
            serve_other ms order (free - granted_to m free) next k (IsOrder-tail o) (ground arith)
              rest
            ∙ ground (
              arith,
              get_elem?-set_self out i (allocation m (granted_to m free))
                  (omega (arith, head_in_range o)),
            ))
      | inr other ↦ rw (free_at_miss ms i order free k e other) (
          serve_at ms order (free - granted_to m free) next k (IsOrder-tail o)
            (length-set out i _ ∙ len) (ground arith) n found rest)
    ]
