-- ===== src/Runtime/HostShare.antt =====
-- host/src/runtime.rs, the second loop of `round`: the host memory that its VMs take together.
use virtio_mem_windows_servi.Prelude.{
  ℕ, zero, suc, ◌+◌, ◌<◌, u64_mod, ap, ◌-◌, ◌≤◌, ◌≡◌, refl, Bool, true, false, Option, none, some,
  List, [], ◌∷◌, Result, ok, err, arith, max, get_elem?, set, subst,
}
use virtio_mem_windows_servi.HostMemory.{grow_admission_margin_bytes}
use virtio_mem_windows_servi.Runtime.{HostRuntimeError, Observed, Session, Trace, stop_requested}
use virtio_mem_windows_servi.Runtime.Sweep.{Member, with_session}
use virtio_mem_windows_servi.Runtime.Round.{
  Progress, ceiling_at, act_member, acted, Turn, over, failed, onward, turn_unless, turn,
  after_turn, act_all,
}
use virtio_mem_windows_servi.Runtime.Holds.{stop_requested-Same}
use virtio_mem_windows_servi.Runtime.Growth.{growth_of}
use virtio_mem_windows_servi.Runtime.Budget.{Costs, Spends, act_member-Accounts}

-- The growth that the histories of all VMs have commanded.
abbrev pub total_growth : List Member → ℕ
total_growth [] = 0
total_growth (m ∷ ms) = growth_of m.session.trace + total_growth ms

total_growth-set :
    (ms : List Member) (i : ℕ) (m n : Member)
    → get_elem? ms i ≡ some m
    → total_growth (set ms i n) + growth_of m.session.trace
      ≡ total_growth ms + growth_of n.session.trace
total_growth-set [] i m n h = cc
total_growth-set (x ∷ ms) zero m n h =
    let there : x ≡ m = cc in
    let same : growth_of x.session.trace ≡ growth_of m.session.trace =
      ap (λ y. growth_of y.session.trace) there in
    omega (arith, same)
total_growth-set (x ∷ ms) (suc i) m n h = omega (arith, total_growth-set ms i m n h)

-- A VM that has not acted yet reads the same available memory and keeps the same reserve.
pub record Budgeted (available headroom : ℕ) (m : Member) : Type 0 where
  pub steady : (t : Trace) → m.env.available_bytes t ≡ ok available
  pub reserve : m.session.vm.config.host_min_headroom_bytes ≡ headroom

module _ (available headroom : ℕ) (small : available < u64_mod) where
  abbrev Pending : List (Option Observed) → List Member → Type 0
  Pending [] ms = Unit {0}
  Pending (o ∷ os) [] = Unit {0}
  Pending (none ∷ os) (m ∷ ms) = Pending os ms
  Pending (some o ∷ os) (m ∷ ms) = Budgeted available headroom m × Pending os ms

  pending_get :
      (os : List (Option Observed)) (ms : List Member) (i : ℕ) (o : Observed) (m : Member)
      → Pending os ms
      → get_elem? os i ≡ some (some o)
      → get_elem? ms i ≡ some m
      → Budgeted available headroom m
  pending_get [] ms i o m p x y = cc
  pending_get (q ∷ os) [] i o m p x y = cc
  pending_get (none ∷ os) (n ∷ ms) zero o m p x y = cc
  pending_get (some q ∷ os) (n ∷ ms) zero o m p x y =
      let there : n ≡ m = cc in subst (Budgeted available headroom) there p.0
  pending_get (none ∷ os) (n ∷ ms) (suc i) o m p x y = pending_get os ms i o m p x y
  pending_get (some q ∷ os) (n ∷ ms) (suc i) o m p x y = pending_get os ms i o m p.1 x y

  pending_set :
      (os : List (Option Observed)) (ms : List Member) (i : ℕ) (m : Member)
      → Pending os ms
      → Pending (set os i none) (set ms i m)
  pending_set [] ms i m p = tt
  pending_set (o ∷ os) [] zero m p = tt
  pending_set (o ∷ os) [] (suc i) m p = tt
  pending_set (none ∷ os) (n ∷ ms) zero m p = p
  pending_set (some o ∷ os) (n ∷ ms) zero m p = p.1
  pending_set (none ∷ os) (n ∷ ms) (suc i) m p = pending_set os ms i m p
  pending_set (some o ∷ os) (n ∷ ms) (suc i) m p = (p.0, pending_set os ms i m p.1)

  abbrev room : ℕ
  room = available - headroom - grow_admission_margin_bytes

  -- After one iteration: the growth that it has commanded is accounted for, and the VM cannot act again.
  abbrev TurnAccounts : List (Option Observed) → ℕ → Progress → Turn → Type 0
  TurnAccounts os i p (over q) = total_growth q.members ≡ total_growth p.members
  TurnAccounts os i p (failed e q) =
      p.committed + total_growth q.members ≤ total_growth p.members + max p.committed room
  TurnAccounts os i p (onward q) =
      Costs room p.committed q.committed (total_growth p.members) (total_growth q.members)
      × Pending (set os i none) q.members

  acted-Accounts :
      (os : List (Option Observed)) (i : ℕ) (m : Member) (p : Progress)
      (r : Result HostRuntimeError (ℕ × Option HostRuntimeError) × Session)
      → Pending os p.members
      → get_elem? p.members i ≡ some m
      → Spends (λ q. q.0) room p.committed (growth_of m.session.trace) r
      → TurnAccounts os i p (acted i m p r)
  unfolding acted
  acted-Accounts os i m p (err e, s) q x k =
      omega (arith, k, total_growth-set p.members i m (with_session m s) x)
  acted-Accounts os i m p (ok (c, failure), s) q x k = (
    omega (arith, k, total_growth-set p.members i m (with_session m s) x),
    pending_set os p.members i (with_session m s) q,
  )

  turn_unless-Accounts :
      (os : List (Option Observed)) (i : ℕ) (m : Member) (seen : Option Observed)
      (ceiling : Option ℕ) (p : Progress) (s : Session) (halted : Bool)
      → Pending os p.members
      → get_elem? p.members i ≡ some m
      → growth_of s.trace ≡ growth_of m.session.trace
      → Spends
          (λ q. q.0)
          room
          p.committed
          (growth_of s.trace)
          (act_member m.env seen ceiling p.committed s)
      → TurnAccounts os i p (turn_unless halted i m seen ceiling p s)
  unfolding turn_unless
  turn_unless-Accounts os i m seen ceiling p s true q x same k =
      omega (arith, same, total_growth-set p.members i m (with_session m s) x)
  turn_unless-Accounts os i m seen ceiling p s false q x same k = acted-Accounts os i m p _ q x (
      subst
        (λ g. Spends (λ q. q.0) room p.committed g (act_member m.env seen ceiling p.committed s))
        same k)

  turn-Accounts :
      (os : List (Option Observed)) (i : ℕ) (m : Option Member) (seen : Option (Option Observed))
      (ceiling : Option ℕ) (p : Progress)
      → Pending os p.members
      → get_elem? p.members i ≡ m
      → get_elem? os i ≡ seen
      → TurnAccounts os i p (turn i m seen ceiling p)
  unfolding turn
  turn-Accounts os i none seen ceiling p q x y = refl
  turn-Accounts os i (some m) none ceiling p q x y = refl
  turn-Accounts os i (some m) (some none) ceiling p q x y =
      let s = (stop_requested m.env m.session).1 in
      turn_unless-Accounts os i m none ceiling p s (m.env.stop_requested m.session.trace) q x
        (unfold stop_requested growth_of in refl) (unfold act_member in omega arith)
  turn-Accounts os i (some m) (some (some o)) ceiling p q x y =
      let s = (stop_requested m.env m.session).1 in
      let b = pending_get os p.members i o m q y x in
      turn_unless-Accounts os i m (some o) ceiling p s (m.env.stop_requested m.session.trace) q x
        (unfold stop_requested growth_of in refl)
        (act_member-Accounts m.env available headroom small b.steady (some o) ceiling p.committed s
          (rw (stop_requested-Same m.env m.session).vm b.reserve))

  after_turn-Accounts :
      (os : List (Option Observed)) (i : ℕ) (p : Progress) (t : Turn)
      (next : Progress → Result HostRuntimeError (Unit {0}) × Progress)
      → TurnAccounts os i p t
      → ((q : Progress)
          → Pending (set os i none) q.members
          → q.committed + total_growth (next q).1.members
            ≤ total_growth q.members + max q.committed room)
      → p.committed + total_growth (after_turn t next).1.members
        ≤ total_growth p.members + max p.committed room
  unfolding after_turn
  after_turn-Accounts os i p (over q) next k f = omega (arith, k)
  after_turn-Accounts os i p (failed e q) next k f = k
  after_turn-Accounts os i p (onward q) next k f = omega (arith, f q k.1, k.0)

  -- Where all VMs that act read the same available memory, a `u64`, and keep the same reserve, the growth
  -- that the resize commands of a round's second loop ask for, also of one that ends with an error, fits
  -- with the bytes committed before it into what is available above the reserve and the admission margin;
  -- and where these are already more, no growth is commanded.
  pub act_all_within_host :
      (order : List ℕ) (os : List (Option Observed)) (ceilings : Option (List ℕ)) (p : Progress)
      → Pending os p.members
      → p.committed + total_growth (act_all order os ceilings p).1.members
        ≤ total_growth p.members
          + max p.committed (available - headroom - grow_admission_margin_bytes)
  unfolding act_all
  act_all_within_host [] os ceilings p q = omega arith
  act_all_within_host (i ∷ order) os ceilings p q =
      after_turn-Accounts os i p
        (turn i (get_elem? p.members i) (get_elem? os i) (ceiling_at ceilings i) p)
        (act_all order (set os i none) ceilings)
        (turn-Accounts os i (get_elem? p.members i) (get_elem? os i) (ceiling_at ceilings i) p q
          refl refl)
        (λ p' q'. act_all_within_host order (set os i none) ceilings p' q')
