-- ===== src/Pool/Order.antt =====
-- pool.rs: the order in which `allocate_pool` serves the members.
use virtio_mem_windows_servi.Prelude.{
  ℕ, zero, suc, ◌+◌, ◌≤◌, ◌<◌, ◌≡◌, ◌⊎◌, inl, inr, refl, List, [], ◌∷◌, arith, ◌==◌, if◌then◌else◌,
  ltb, length, Bool-cases,
}
use virtio_mem_windows_servi.Pool.{
  PoolMember, range_from, priority_at, insert_by_priority, sort_by_priority,
}

-- How often an index stands in an order.
abbrev pub count : ℕ → List ℕ → ℕ
count k [] = 0
count k (i ∷ is) = (if i == k then 1 else 0) + count k is

pub count-insert :
    (ms : List PoolMember) (k i : ℕ) (js : List ℕ)
    → count k (insert_by_priority ms i js) ≡ count k (i ∷ js)
unfolding insert_by_priority
count-insert ms k i [] = refl
count-insert ms k i (j ∷ js) = ground (arith, count-insert ms k i js)

pub count-sort :
    (ms : List PoolMember) (k : ℕ) (is : List ℕ) → count k (sort_by_priority ms is) ≡ count k is
unfolding sort_by_priority
count-sort ms k [] = refl
count-sort ms k (i ∷ is) =
    ground (arith, count-insert ms k i (sort_by_priority ms is), count-sort ms k is)

pub count-range_from :
    (k start n : ℕ)
    → count k (range_from start n) ≡ (if ltb k start then 0 else if ltb k (start + n) then 1 else 0)
unfolding range_from
count-range_from k start zero = ground arith
count-range_from k start (suc n) = ground (arith, count-range_from k (suc start) n)

-- Each index below `n` once, and no other.
pub record IsOrder (n : ℕ) (is : List ℕ) : Type 0 where
  pub once : (k : ℕ) → count k is ≤ 1
  pub in_range : (k : ℕ) → 0 < count k is → k < n

pub IsOrder-tail : {n i : ℕ} {is : List ℕ} → IsOrder n (i ∷ is) → IsOrder n is
IsOrder-tail o = record {
  once = λ k. omega (arith, o.once k);
  in_range = λ k h. o.in_range k (omega arith);
}

pub head_once : {n i : ℕ} {is : List ℕ} → IsOrder n (i ∷ is) → count i is ≡ 0
head_once {n} {i} {is} o = ground (arith, o.once i)

pub head_in_range : {n i : ℕ} {is : List ℕ} → IsOrder n (i ∷ is) → i < n
head_in_range {n} {i} {is} o = ground (arith, o.in_range i)

unfoldable pub service_order : List PoolMember → List ℕ
service_order ms = sort_by_priority ms (range_from 0 (length ms))

pub count-service_order :
    (ms : List PoolMember) (k : ℕ) → k < length ms → count k (service_order ms) ≡ 1
unfolding service_order
count-service_order ms k h =
    ground (arith, count-sort ms k (range_from 0 (length ms)), count-range_from k 0 (length ms))

pub service_order-IsOrder : (ms : List PoolMember) → IsOrder (length ms) (service_order ms)
unfolding service_order
service_order-IsOrder ms = record {
  once = λ k.
      ground (arith, count-sort ms k (range_from 0 (length ms)), count-range_from k 0 (length ms));
  in_range = λ k h.
      ground (arith, count-sort ms k (range_from 0 (length ms)), count-range_from k 0 (length ms));
}

-- Member `i` is served before member `k`: its priority is larger, or the same and it stands first.
abbrev pub Before : List PoolMember → ℕ → ℕ → Type 0
Before ms i k =
    (priority_at ms k < priority_at ms i) ⊎ ((priority_at ms k ≡ priority_at ms i) × (i < k))

Before-trans : (ms : List PoolMember) (i j k : ℕ) → Before ms i j → Before ms j k → Before ms i k
Before-trans ms i j k p q = ground arith

abbrev pub Ranked : List PoolMember → List ℕ → Type 0
Ranked ms [] = Unit
Ranked ms (i ∷ is) = ((k : ℕ) → 0 < count k is → Before ms i k) × Ranked ms is

insert-Ranked :
    (ms : List PoolMember) (i : ℕ) (js : List ℕ)
    → ((k : ℕ) → 0 < count k js → i < k)
    → Ranked ms js
    → Ranked ms (insert_by_priority ms i js)
unfolding insert_by_priority
insert-Ranked ms i [] below r = (λ k h. absurd (omega arith), tt)
insert-Ranked ms i (j ∷ js) below r =
    elim (Bool-cases (ltb (priority_at ms i) (priority_at ms j))) [
      | inl larger ↦ rw larger (
        λ k h. elim (Bool-cases (i == k)) [
          | inl same ↦ inl (ground arith)
          | inr other ↦ r.0 k (ground (arith, count-insert ms k i js))
        ],
        insert-Ranked ms i js (λ k h. below k (omega arith)) r.1,
      )
      | inr smaller ↦ rw smaller (
        λ k h. elim (Bool-cases (j == k)) [
          | inl same ↦ ground (arith, below k h)
          | inr other ↦ Before-trans ms i j k (ground (arith, below j)) (r.0 k (ground arith))
        ],
        r,
      )
    ]

sort-Ranked :
    (ms : List PoolMember) (start n : ℕ) → Ranked ms (sort_by_priority ms (range_from start n))
unfolding sort_by_priority range_from
sort-Ranked ms start zero = tt
sort-Ranked ms start (suc n) =
    insert-Ranked ms start (sort_by_priority ms (range_from (suc start) n))
      (λ k h.
        ground
          (arith, count-sort ms k (range_from (suc start) n), count-range_from k (suc start) n))
      (sort-Ranked ms (suc start) n)

pub service_order-Ranked : (ms : List PoolMember) → Ranked ms (service_order ms)
unfolding service_order
service_order-Ranked ms = sort-Ranked ms 0 (length ms)
