-- ===== src/Examples/Pooling.antt =====
-- Tests of a pool of eleven blocks that two VMs share, of which the first has the higher priority.
use virtio_mem_windows_servi.Prelude.{
  ◌≤◌, ◌<◌, ◌+◌, ◌≡◌, refl, inl, ◌⊎◌, true, false, some, List, [], ◌∷◌, ok, err, arith, any, max,
  length, All, u64_mod, is_power_of_two,
}
use virtio_mem_windows_servi.Pool.{
  PoolMember, PoolAllocation, invalid_block, overflow, invalid_member, allocate_pool, priority_at,
}
use virtio_mem_windows_servi.Pool.Sums.{sum_by}
use virtio_mem_windows_servi.Pool.Totals.{
  IsMember, charged, ceiling, Round, ceilings_within_pool, allocate_pool_outcome,
}
use virtio_mem_windows_servi.Pool.Priority.{Keeps, allocate_pool-Keeps, priority_respected}

abbrev first : PoolMember
first = record {
  priority = 5;
  charged_bytes = 8388608;
  desired_bytes = 16777216;
  block_bytes = 2097152;
}

abbrev second : PoolMember
second = record {
  priority = 1;
  charged_bytes = 8388608;
  desired_bytes = 16777216;
  block_bytes = 2097152;
}

abbrev members : List PoolMember
members = second ∷ first ∷ []

abbrev first_share : PoolAllocation
first_share = record { ceiling_bytes = 14680064; unmet_bytes = 2097152 }

abbrev second_share : PoolAllocation
second_share = record { ceiling_bytes = 8388608; unmet_bytes = 8388608 }

abbrev shares : List PoolAllocation
shares = second_share ∷ first_share ∷ []

shared : allocate_pool 23068672 members ≡ some (ok shares)
unfolding allocate_pool is_power_of_two
shared = refl

members-IsMember : All IsMember members
members-IsMember = (
  record { charged = omega arith; desired = omega arith },
  (record { charged = omega arith; desired = omega arith }, tt),
)

ceilings_within_pool_example : sum_by ceiling shares ≤ max 23068672 (sum_by charged members)
ceilings_within_pool_example = ceilings_within_pool 23068672 members shares members-IsMember shared

allocate_pool-Keeps_example : Keeps first first_share
allocate_pool-Keeps_example =
    allocate_pool-Keeps 23068672 members shares 1 first first_share members-IsMember shared refl
      refl

priority_respected_example : second_share.ceiling_bytes < second.charged_bytes + first.block_bytes
unfolding priority_at
priority_respected_example =
    priority_respected 23068672 members shares 1 0 first second first_share second_share
      members-IsMember shared refl refl refl refl (inl (omega arith)) (omega arith)

allocate_pool_outcome_example :
    ((any invalid_member members ≡ true)
      × (allocate_pool 23068672 members ≡ some (err invalid_block)))
    ⊎ (((any invalid_member members ≡ false)
          × (u64_mod ≤ sum_by charged members)
          × (allocate_pool 23068672 members ≡ some (err overflow)))
        ⊎ ((bs : List PoolAllocation) × (allocate_pool 23068672 members ≡ some (ok bs))
            × (length bs ≡ length members)
            × Round 23068672 members bs))
allocate_pool_outcome_example = allocate_pool_outcome 23068672 members
