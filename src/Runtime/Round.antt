-- ===== src/Runtime/Round.antt =====
-- host/src/runtime.rs, `HostRuntime::round` and `allocate`: one pass over all VMs.
use virtio_mem_windows_servi.Prelude.{
  ℕ, Bool, true, false, Option, none, some, List, [], ◌∷◌, map, Result, ok, err, Text, codes,
  if◌then◌else◌, length, get_elem?, set, all, saturating_add, u64_max,
}
use virtio_mem_windows_servi.Pool.{
  PoolMember, PoolAllocation, PoolError, invalid_block, overflow, range_from, sort_by_priority,
  allocate_pool,
}
use virtio_mem_windows_servi.Runtime.{
  HostRuntimeError, controller, Step, wait, stop, Observed, held, ready, stopping, Environment,
  Session, Action, pure, change, ◌>>=◌, ◌>>◌, stop_requested,
}
use virtio_mem_windows_servi.Runtime.Observe.{mark_stopped, pool_member, member_of}
use virtio_mem_windows_servi.Runtime.Act.{act}
use virtio_mem_windows_servi.Runtime.Sweep.{
  Member, with_session, Sweep, halted, swept, latest, observe_all,
}

unfoldable pub pool_message : PoolError → Text
pool_message invalid_block = codes "pool member block size must be a non-zero power of two"
pool_message overflow = codes "pool accounting overflowed"

-- The `zip` of VMs and readings.
unfoldable pub pool_members : List Member → List Observed → ℕ → List PoolMember
pool_members [] observed pool_bytes = []
pool_members (m ∷ ms) [] pool_bytes = []
pool_members (m ∷ ms) (o ∷ os) pool_bytes =
    pool_member m.session.vm o pool_bytes ∷ pool_members ms os pool_bytes

unfoldable pub ceilings_of :
    Option (Result PoolError (List PoolAllocation)) → Option (Result HostRuntimeError (List ℕ))
unfolding pool_message
ceilings_of none = none
ceilings_of (some (err e)) = some (err (controller (pool_message e)))
ceilings_of (some (ok allocations)) = some (ok (map (λ a. a.ceiling_bytes) allocations))

-- `allocate` with a pool; `none` is a panic of the allocation.
unfoldable pub allocate :
    ℕ → List Member → List Observed → Option (Result HostRuntimeError (List ℕ))
unfolding pool_members ceilings_of
allocate pool_bytes ms observed =
    ceilings_of (allocate_pool pool_bytes (pool_members ms observed pool_bytes))

unfoldable pub growth_or_all : Option ℕ → ℕ
growth_or_all none = u64_max
growth_or_all (some growth) = growth

-- The bytes that commands of earlier rounds may still take from the host.
unfoldable pub committed_growth : ℕ → List Member → ℕ
unfolding growth_or_all
committed_growth total [] = total
committed_growth total (m ∷ ms) =
    committed_growth (saturating_add total (growth_or_all m.session.vm.outstanding_growth)) ms

-- `order`: the indices by descending priority; the sort reads nothing but the priorities.
unfoldable pub action_order : List Member → List ℕ
action_order ms =
    sort_by_priority (map (λ m. member_of m.session.vm.config.priority 0 0 0) ms)
      (range_from 0 (length ms))

-- `ceilings[index]`; there is one for each VM.
unfoldable pub ceiling_at : Option (List ℕ) → ℕ → Option ℕ
ceiling_at none index = none
ceiling_at (some ceilings) index = elim (get_elem? ceilings index) [
  | none ↦ some 0
  | some ceiling ↦ some ceiling
]

-- What the second loop carries.
pub record Progress : Type 0 where
  pub members : List Member
  pub committed : ℕ
  pub last : Option HostRuntimeError

unfoldable pub after_step : Step × ℕ → Action (ℕ × Option HostRuntimeError)
after_step (wait, committed) = pure (committed, none)
after_step (stop e, committed) = do change mark_stopped; pure (committed, some e)

-- The body of the second loop; what was observed is taken, and only a ready VM acts: the bytes committed after it, and its failure.
unfoldable pub act_member :
    Environment → Option Observed → Option ℕ → ℕ → Action (ℕ × Option HostRuntimeError)
unfolding after_step
act_member env none ceiling committed = pure (committed, none)
act_member env (some (held _)) ceiling committed = pure (committed, none)
act_member env (some (stopping _)) ceiling committed = pure (committed, none)
act_member env (some (ready r)) ceiling committed = do
  acted ← act env r ceiling committed
  after_step acted

-- How one iteration of the second loop ends: the loop breaks, the method fails, or it goes on.
pub data Turn : Type 0 where
  over : Progress → Turn
  failed : HostRuntimeError → Progress → Turn
  onward : Progress → Turn

abbrev pub replaced : Progress → ℕ → Member → Session → Progress
replaced p i m s = record p { members = set p.members i (with_session m s) }

unfoldable pub acted :
    ℕ → Member → Progress → Result HostRuntimeError (ℕ × Option HostRuntimeError) × Session → Turn
unfolding latest
acted i m p (err e, s) = failed e (replaced p i m s)
acted i m p (ok (committed, failure), s) =
    onward (record (replaced p i m s) { committed = committed; last = latest p.last failure })

-- The iteration for one VM, after the read of the stop flag.
unfoldable pub turn_unless :
    Bool → ℕ → Member → Option Observed → Option ℕ → Progress → Session → Turn
unfolding acted
turn_unless true i m seen ceiling p s = over (replaced p i m s)
turn_unless false i m seen ceiling p s = acted i m p (act_member m.env seen ceiling p.committed s)

-- An index out of range does not occur.
unfoldable pub turn : ℕ → Option Member → Option (Option Observed) → Option ℕ → Progress → Turn
unfolding turn_unless
turn i none seen ceiling p = over p
turn i (some m) none ceiling p = over p
turn i (some m) (some seen) ceiling p =
    turn_unless (m.env.stop_requested m.session.trace) i m seen ceiling p
      (stop_requested m.env m.session).1

unfoldable pub after_turn :
    Turn
    → (Progress → Result HostRuntimeError (Unit {0}) × Progress)
    → Result HostRuntimeError (Unit {0}) × Progress
after_turn (over p) next = (ok tt, p)
after_turn (failed e p) next = (err e, p)
after_turn (onward p) next = next p

-- The second loop.
unfoldable pub act_all :
    List ℕ
    → List (Option Observed)
    → Option (List ℕ)
    → Progress
    → Result HostRuntimeError (Unit {0}) × Progress
unfolding turn after_turn
act_all [] observed ceilings p = (ok tt, p)
act_all (i ∷ order) observed ceilings p =
    after_turn (turn i (get_elem? p.members i) (get_elem? observed i) (ceiling_at ceilings i) p)
      (act_all order (set observed i none) ceilings)

unfoldable pub round_end : List Member → Option HostRuntimeError → Step
round_end ms none = wait
round_end ms (some e) = if all (λ m. m.session.vm.stopped) ms then stop e else wait

abbrev pub Outcome : Type 0
Outcome = Option (Result HostRuntimeError Step) × List Member

unfoldable pub finish : Result HostRuntimeError (Unit {0}) × Progress → Outcome
unfolding round_end
finish (err e, p) = (some (err e), p.members)
finish (ok _, p) = (some (ok (round_end p.members p.last)), p.members)

unfoldable pub act_allocated :
    List Member
    → List Observed
    → Option HostRuntimeError
    → Option (Result HostRuntimeError (Option (List ℕ)))
    → Outcome
unfolding finish
act_allocated ms observed last none = (none, ms)
act_allocated ms observed last (some (err e)) = (some (err e), ms)
act_allocated ms observed last (some (ok ceilings)) = finish (
    act_all (action_order ms) (map some observed) ceilings
      (record { members = ms; committed = committed_growth 0 ms; last = last }))

unfoldable pub some_ceilings :
    Option (Result HostRuntimeError (List ℕ)) → Option (Result HostRuntimeError (Option (List ℕ)))
some_ceilings none = none
some_ceilings (some (err e)) = some (err e)
some_ceilings (some (ok ceilings)) = some (ok (some ceilings))

unfoldable pub after_sweep : Option ℕ → Bool → Result HostRuntimeError Sweep × List Member → Outcome
unfolding act_allocated some_ceilings
after_sweep pool stopping_now (err e, ms) = (some (err e), ms)
after_sweep pool stopping_now (ok halted, ms) = (some (ok wait), ms)
after_sweep pool true (ok (swept observed last), ms) = (some (ok wait), ms)
after_sweep none false (ok (swept observed last), ms) =
    act_allocated ms observed last (some (ok none))
after_sweep (some pool_bytes) false (ok (swept observed last), ms) =
    act_allocated ms observed last (some_ceilings (allocate pool_bytes ms observed))

-- `round`, with the stop flag as it is read between its loops; no result is a panic of the allocation.
unfoldable pub round : Option ℕ → Bool → List Member → Outcome
unfolding after_sweep
round pool stopping_now ms = after_sweep pool stopping_now (observe_all none ms)

unfoldable pub after_round : Outcome → (List Member → Outcome) → Outcome
after_round (none, ms) next = (none, ms)
after_round (some (err e), ms) next = (some (err e), ms)
after_round (some (ok (stop e)), ms) next = (some (err e), ms)
after_round (some (ok wait), ms) next = next ms

-- `run`: before each round the stop flag is read. An input is that flag and the one between the loops of
-- the round; the loop ends with an error, or when it is told to stop.
unfoldable pub run : Option ℕ → List (Bool × Bool) → List Member → Outcome
unfolding after_round
run pool [] ms = (some (ok wait), ms)
run pool ((true, between) ∷ inputs) ms = (some (ok wait), ms)
run pool ((false, between) ∷ inputs) ms = after_round (round pool between ms) (run pool inputs)
