-- ===== src/HostMemory.antt =====
-- host/src/host_memory.rs: the check of the host's available memory before a growth.
use virtio_mem_windows_servi.Prelude.{
  ℕ, ◌+◌, ◌-◌, ◌^◌, ◌≤◌, ◌≡◌, ◌↔◌, ◌⊎◌, ◌||◌, Result, ok, err, ltb, leb, if◌then◌else◌, arith, Text,
  codes, ◌++◌, decimal,
}

abbrev pub grow_admission_margin_bytes : ℕ
grow_admission_margin_bytes = 2 ^ 28

abbrev pub insufficient_headroom : ℕ → ℕ → ℕ → Text
insufficient_headroom available grow headroom =
    codes "host headroom is insufficient: available="
    ++ (decimal available
        ++ (codes " grow=" ++ (decimal grow ++ (codes " minimum_headroom=" ++ decimal headroom))))

unfoldable pub validate_grow_headroom : ℕ → ℕ → ℕ → ℕ → Result Text (Unit {0})
validate_grow_headroom current_bytes target_bytes available_bytes minimum_headroom_bytes =
    if leb target_bytes current_bytes
    then ok tt
    else (let grow_bytes = target_bytes - current_bytes in
        if ltb available_bytes grow_bytes
          || ltb (available_bytes - grow_bytes) minimum_headroom_bytes
        then err (insufficient_headroom available_bytes grow_bytes minimum_headroom_bytes)
        else ok tt)

-- The check passes exactly when the target is no growth, or the growth and the reserve together fit
-- into the available memory.
pub validate_grow_headroom_iff :
    (current target available headroom : ℕ)
    → (validate_grow_headroom current target available headroom ≡ ok tt)
      ↔ ((target ≤ current) ⊎ ((target - current) + headroom ≤ available))
unfolding validate_grow_headroom
validate_grow_headroom_iff current target available headroom = ground arith
