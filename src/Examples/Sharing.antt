-- ===== src/Examples/Sharing.antt =====
-- Tests of a pool of 1 GiB with one VM that grows by two blocks.
use virtio_mem_windows_servi.Prelude.{
  ℕ, zero, suc, ◌^◌, ◌≤◌, ◌≡◌, refl, some, List, [], ◌∷◌, ok, arith, max, All, get_elem?, inr,
  subst, is_power_of_two,
}
use virtio_mem_windows_servi.Pool.{allocate_pool}
use virtio_mem_windows_servi.Pool.Sums.{sum_by}
use virtio_mem_windows_servi.Pool.Totals.{IsMember, charged}
use virtio_mem_windows_servi.VirtioMem.{device_maximum_target}
use virtio_mem_windows_servi.Runtime.{Observed, ready}
use virtio_mem_windows_servi.Runtime.Grant.{guest_room, growth_grant}
use virtio_mem_windows_servi.Runtime.Observe.{pool_member, wanted_bytes}
use virtio_mem_windows_servi.Runtime.Sweep.{Member}
use virtio_mem_windows_servi.Runtime.Round.{pool_members, allocate}
use virtio_mem_windows_servi.Runtime.PoolShare.{Takes, takes_within_pool}
use virtio_mem_windows_servi.Examples.Controlling.{daemon, desktop, ready_growth}

abbrev members : List Member
members = desktop ∷ []

abbrev observed : List Observed
observed = ready ready_growth ∷ []

abbrev grown_bytes : List ℕ
grown_bytes = 541065216 ∷ []

members-IsMember : All IsMember (pool_members members observed (2 ^ 30))
unfolding pool_members pool_member wanted_bytes guest_room
members-IsMember = (record { charged = omega arith; desired = omega arith }, tt)

allocated : allocate (2 ^ 30) members observed ≡ some (ok grown_bytes)
unfolding allocate pool_members pool_member wanted_bytes allocate_pool is_power_of_two guest_room
allocated = refl

granted :
    growth_grant daemon 8053063680 ready_growth.state 4194304 (some 541065216) (2 ^ 34) 0 ≡ 4194304
unfolding growth_grant device_maximum_target
granted = refl

same_elem : {A : Type 0} (a b : A) → some a ≡ some b → a ≡ b
same_elem a b h = cc

takes_grant : Takes (2 ^ 30) desktop.session.vm (ready ready_growth) 541065216 541065216
takes_grant = inr (record {
  r = ready_growth;
  is_ready = refl;
  available = 2 ^ 34;
  committed = 0;
  target = omega (arith, granted);
})

takes :
    (k : ℕ) (m : Member) (o : Observed) (c bytes : ℕ)
    → get_elem? members k ≡ some m
    → get_elem? observed k ≡ some o
    → get_elem? grown_bytes k ≡ some c
    → get_elem? grown_bytes k ≡ some bytes
    → Takes (2 ^ 30) m.session.vm o c bytes
takes zero m o c bytes hm ho hc hb =
    subst (λ q. Takes (2 ^ 30) q.session.vm o c bytes) (same_elem desktop m hm)
      (subst (λ q. Takes (2 ^ 30) desktop.session.vm q c bytes)
        (same_elem (ready ready_growth) o ho)
        (subst (λ q. Takes (2 ^ 30) desktop.session.vm (ready ready_growth) q bytes)
          (same_elem 541065216 c hc)
          (subst (Takes (2 ^ 30) desktop.session.vm (ready ready_growth) 541065216)
            (same_elem 541065216 bytes hb) takes_grant)))
takes (suc k) m o c bytes hm ho hc hb = cc

takes_within_pool_example :
    sum_by (λ x. x) grown_bytes
    ≤ max (2 ^ 30) (sum_by charged (pool_members members observed (2 ^ 30)))
takes_within_pool_example =
    takes_within_pool (2 ^ 30) members observed grown_bytes grown_bytes members-IsMember allocated
      refl takes
