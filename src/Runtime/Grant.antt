-- ===== src/Runtime/Grant.antt =====
-- host/src/runtime.rs, the grant of `act`: what a request gets of what is free.
use virtio_mem_windows_servi.Prelude.{ℕ, ◌-◌, ◌%◌, Option, none, some, List, [], ◌∷◌, min, u64_max}
use virtio_mem_windows_servi.Config.{HostConfig}
use virtio_mem_windows_servi.VirtioMem.{VirtioMemState, device_maximum_target}
use virtio_mem_windows_servi.HostMemory.{grow_admission_margin_bytes}

-- What the ceiling of the pool leaves; without a pool nothing is bounded.
unfoldable pub pool_cap : Option ℕ → ℕ → ℕ
pool_cap none current = u64_max
pool_cap (some ceiling) current = ceiling - current

-- What the guest may still grow by.
unfoldable pub guest_room : HostConfig → ℕ → VirtioMemState → ℕ
guest_room config base_ram state = config.max_ram - base_ram - state.current_bytes

unfoldable pub host_room : HostConfig → ℕ → ℕ → ℕ
host_room config available committed =
    available - committed - config.host_min_headroom_bytes - grow_admission_margin_bytes

unfoldable pub growth_caps : HostConfig → ℕ → VirtioMemState → ℕ → Option ℕ → ℕ → ℕ → List ℕ
unfolding pool_cap guest_room host_room
growth_caps config base_ram state bytes ceiling available committed =
    bytes
    ∷ guest_room config base_ram state
    ∷ (device_maximum_target state - state.current_bytes)
    ∷ pool_cap ceiling state.current_bytes
    ∷ host_room config available committed
    ∷ []

least_from : ℕ → List ℕ → ℕ
least_from least [] = least
least_from least (x ∷ xs) = least_from (min least x) xs

-- `iter().min().unwrap_or(0)`.
unfoldable pub smallest : List ℕ → ℕ
unfolding least_from
smallest [] = 0
smallest (x ∷ xs) = least_from x xs

-- The whole blocks in a number of bytes.
abbrev pub whole_blocks : ℕ → ℕ → ℕ
whole_blocks bytes block = bytes - bytes % block

unfoldable pub growth_grant : HostConfig → ℕ → VirtioMemState → ℕ → Option ℕ → ℕ → ℕ → ℕ
unfolding growth_caps smallest
growth_grant config base_ram state bytes ceiling available committed =
    whole_blocks (smallest (growth_caps config base_ram state bytes ceiling available committed))
      state.block_size_bytes

unfoldable pub removal_grant : HostConfig → ℕ → VirtioMemState → ℕ → ℕ
removal_grant config base_ram state bytes =
    whole_blocks (min bytes (state.current_bytes - (config.min_ram - base_ram)))
      state.block_size_bytes
