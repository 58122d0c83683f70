-- ===== src/Pool.antt =====
-- crates/virtio-mem-core/src/pool.rs: one round of the pool that several VMs share.
pub mod Order
pub mod Sums
pub mod Serve
pub mod Totals
pub mod Priority
use virtio_mem_windows_servi.Prelude.{
  ℕ, zero, suc, ◌+◌, ◌-◌, ◌%◌, Bool, not, ◌||◌, Option, none, some, List, [], ◌∷◌, Result, ok, err,
  ltb, ◌==◌, if◌then◌else◌, min, any, length, get_elem?, set, replicate, is_power_of_two,
  checked_add, u64_mod, map_option,
}

pub record PoolMember : Type 0 where
  pub priority : ℕ
  pub charged_bytes : ℕ
  pub desired_bytes : ℕ
  pub block_bytes : ℕ

pub record PoolAllocation : Type 0 where
  pub ceiling_bytes : ℕ
  pub unmet_bytes : ℕ

pub data PoolError : Type 0 where
  invalid_block overflow : PoolError

-- The `try_fold` over `checked_add`.
unfoldable pub charged_from : ℕ → List PoolMember → Option ℕ
charged_from total [] = some total
charged_from total (m ∷ ms) = elim (checked_add total m.charged_bytes) [
  | none ↦ none
  | some t ↦ charged_from t ms
]

-- The `n` indices from `start`; `0..n` is `range_from 0 n`.
unfoldable pub range_from : ℕ → ℕ → List ℕ
range_from start zero = []
range_from start (suc n) = start ∷ range_from (suc start) n

-- `members[i].priority`; the indices are all in range.
unfoldable pub priority_at : List PoolMember → ℕ → ℕ
priority_at ms i = elim (get_elem? ms i) [ none ↦ 0 | some m ↦ m.priority ]

-- The stable `sort_by` on descending priority: an index goes in front of those after it in the
-- slice, behind the strictly larger priorities.
unfoldable pub insert_by_priority : List PoolMember → ℕ → List ℕ → List ℕ
unfolding priority_at
insert_by_priority ms i [] = i ∷ []
insert_by_priority ms i (j ∷ js) =
    if ltb (priority_at ms i) (priority_at ms j) then j ∷ insert_by_priority ms i js else i ∷ j ∷ js

unfoldable pub sort_by_priority : List PoolMember → List ℕ → List ℕ
unfolding insert_by_priority
sort_by_priority ms [] = []
sort_by_priority ms (i ∷ is) = insert_by_priority ms i (sort_by_priority ms is)

unfoldable pub align_down : ℕ → ℕ → ℕ
align_down value alignment = value - value % alignment

-- What one member gets of the free bytes.
unfoldable pub granted_to : PoolMember → ℕ → ℕ
unfolding align_down
granted_to m free = align_down (min (m.desired_bytes - m.charged_bytes) free) m.block_bytes

unfoldable pub allocation : PoolMember → ℕ → PoolAllocation
allocation m granted = record {
  ceiling_bytes = (m.charged_bytes + granted) % u64_mod;
  unmet_bytes = m.desired_bytes - m.charged_bytes - granted;
}

-- The `for index in order` loop; `none` is the panic of an index out of range.
unfoldable pub serve :
    List PoolMember → List ℕ → ℕ → List PoolAllocation → Option (List PoolAllocation)
unfolding granted_to allocation
serve ms [] free allocations = some allocations
serve ms (i ∷ order) free allocations = elim (get_elem? ms i) [
  | none ↦ none
  | some m ↦
      serve ms order (free - granted_to m free)
        (set allocations i (allocation m (granted_to m free)))
]

abbrev pub no_allocation : PoolAllocation
no_allocation = record { ceiling_bytes = 0; unmet_bytes = 0 }

unfoldable pub invalid_member : PoolMember → Bool
invalid_member m = m.block_bytes == 0 || not (is_power_of_two m.block_bytes)

-- `none` is a panic.
unfoldable pub allocate_pool : ℕ → List PoolMember → Option (Result PoolError (List PoolAllocation))
unfolding charged_from range_from sort_by_priority serve invalid_member
allocate_pool pool_bytes ms =
    if any invalid_member ms then some (err invalid_block) else elim (charged_from 0 ms) [
      | none ↦ some (err overflow)
      | some charged_total ↦ map_option ok (
          serve ms (sort_by_priority ms (range_from 0 (length ms))) (pool_bytes - charged_total)
            (replicate (length ms) no_allocation))
    ]
