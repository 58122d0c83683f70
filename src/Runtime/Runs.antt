-- ===== src/Runtime/Runs.antt =====
-- host/src/runtime.rs, `round` and `run`: every history is disciplined.
use virtio_mem_windows_servi.Prelude.{
  ℕ, zero, suc, ◌≡◌, refl, Bool, true, false, Option, none, some, List, [], ◌∷◌, map, Result, ok,
  err, arith, All, get_elem?, set,
}
use virtio_mem_windows_servi.Config.{HostConfig}
use virtio_mem_windows_servi.Checkpoint.{DurableControlState}
use virtio_mem_windows_servi.Runtime.{
  HostRuntimeError, wait, stop, Observed, Session, new_controller, stop_requested,
}
use virtio_mem_windows_servi.Runtime.Sweep.{Member, with_session, Sweep, halted, swept}
use virtio_mem_windows_servi.Runtime.Round.{
  allocate, action_order, committed_growth, ceiling_at, Progress, Turn, over, failed, onward, acted,
  turn_unless, turn, after_turn, act_all, Outcome, finish, act_allocated, some_ceilings,
  after_sweep, round, after_round, run,
}
use virtio_mem_windows_servi.Runtime.Discipline.{never_latched, disciplined, answered}
use virtio_mem_windows_servi.Runtime.Holds.{Kept, Holds, Ensures, stop_requested-Same}
use virtio_mem_windows_servi.Runtime.Readiness.{Sized}
use virtio_mem_windows_servi.Runtime.Rounds.{
  Good, IsDisciplined, Still, Still-Holds, Still-Same, Paired, Paired-Good, Paired-get, Paired-set,
  All-kept, SweepPost, observe_all-Post, act_member-Holds,
}

Paired-kept :
    (os : List (Option Observed)) (ms : List Member) (i : ℕ) (m : Member) (s : Session)
    → Paired os ms
    → Kept s
    → All IsDisciplined (set ms i (with_session m s))
Paired-kept [] [] i m s p h = tt
Paired-kept [] (n ∷ ms) i m s p h = absurd p
Paired-kept (q ∷ os) [] i m s p h = absurd p
Paired-kept (q ∷ os) (n ∷ ms) zero m s p h = (h, All-kept ms (Paired-Good os ms p.2))
Paired-kept (q ∷ os) (n ∷ ms) (suc i) m s p h =
    ((Still-Holds q n.session p.1).commands, Paired-kept os ms i m s p.2 h)

-- After the second loop.
abbrev ActPost : Result HostRuntimeError (Unit {0}) × Progress → Type 0
ActPost (err e, p) = All IsDisciplined p.members
ActPost (ok _, p) = All Good p.members

-- After one iteration of the second loop, for index `i`.
abbrev TurnPost : List (Option Observed) → ℕ → Turn → Type 0
TurnPost os i (over p) = All Good p.members
TurnPost os i (failed e p) = All IsDisciplined p.members
TurnPost os i (onward p) = Paired (set os i none) p.members

acted-Post :
    (os : List (Option Observed)) (i : ℕ) (m : Member) (p : Progress)
    (r : Result HostRuntimeError (ℕ × Option HostRuntimeError) × Session)
    → Paired os p.members
    → get_elem? p.members i ≡ some m
    → Ensures (λ _ t. Holds t) r
    → TurnPost os i (acted i m p r)
unfolding acted
acted-Post os i m p (err e, s) q x k = Paired-kept os p.members i m s q k
acted-Post os i m p (ok (committed, failure), s) q x k = Paired-set os p.members i m s q x k

turn_unless-Post :
    (os : List (Option Observed)) (i : ℕ) (m : Member) (seen : Option Observed) (ceiling : Option ℕ)
    (p : Progress) (s : Session) (halted : Bool)
    → Paired os p.members
    → get_elem? p.members i ≡ some m
    → Still seen s
    → TurnPost os i (turn_unless halted i m seen ceiling p s)
unfolding turn_unless
turn_unless-Post os i m seen ceiling p s true q x k =
    Paired-Good (set os i none) (set p.members i (with_session m s))
      (Paired-set os p.members i m s q x (Still-Holds seen s k))
turn_unless-Post os i m seen ceiling p s false q x k =
    acted-Post os i m p _ q x (act_member-Holds m.env seen ceiling p.committed s k)

turn-Post :
    (os : List (Option Observed)) (i : ℕ) (m : Option Member) (seen : Option (Option Observed))
    (ceiling : Option ℕ) (p : Progress)
    → Paired os p.members
    → get_elem? p.members i ≡ m
    → get_elem? os i ≡ seen
    → TurnPost os i (turn i m seen ceiling p)
unfolding turn
turn-Post os i none seen ceiling p q x y = Paired-Good os p.members q
turn-Post os i (some m) none ceiling p q x y = Paired-Good os p.members q
turn-Post os i (some m) (some seen) ceiling p q x y =
    let there = Paired-get os p.members i seen m q y x in
    let s = (stop_requested m.env m.session).1 in
    turn_unless-Post os i m seen ceiling p s (m.env.stop_requested m.session.trace) q x
      (Still-Same seen m.session s (stop_requested-Same m.env m.session) there.1)

after_turn-Post :
    (os : List (Option Observed)) (i : ℕ) (t : Turn)
    (next : Progress → Result HostRuntimeError (Unit {0}) × Progress)
    → TurnPost os i t
    → ((p : Progress) → Paired (set os i none) p.members → ActPost (next p))
    → ActPost (after_turn t next)
unfolding after_turn
after_turn-Post os i (over p) next k f = k
after_turn-Post os i (failed e p) next k f = k
after_turn-Post os i (onward p) next k f = f p k

act_all-Post :
    (order : List ℕ) (os : List (Option Observed)) (ceilings : Option (List ℕ)) (p : Progress)
    → Paired os p.members
    → ActPost (act_all order os ceilings p)
unfolding act_all
act_all-Post [] os ceilings p q = Paired-Good os p.members q
act_all-Post (i ∷ order) os ceilings p q =
    after_turn-Post os i (turn i (get_elem? p.members i) (get_elem? os i) (ceiling_at ceilings i) p)
      (act_all order (set os i none) ceilings)
      (turn-Post os i (get_elem? p.members i) (get_elem? os i) (ceiling_at ceilings i) p q refl
        refl)
      (λ p' q'. act_all-Post order (set os i none) ceilings p' q')

-- After a round or a run: its histories are disciplined, and the invariant holds unless it failed.
abbrev OutcomePost : Outcome → Type 0
OutcomePost (none, ms) = All Good ms
OutcomePost (some (err e), ms) = All IsDisciplined ms
OutcomePost (some (ok st), ms) = All Good ms

finish-Post :
    (r : Result HostRuntimeError (Unit {0}) × Progress) → ActPost r → OutcomePost (finish r)
unfolding finish
finish-Post (err e, p) k = k
finish-Post (ok _, p) k = k

act_allocated-Post :
    (ms : List Member) (observed : List Observed) (last : Option HostRuntimeError)
    (ceilings : Option (Result HostRuntimeError (Option (List ℕ))))
    → Paired (map some observed) ms
    → OutcomePost (act_allocated ms observed last ceilings)
unfolding act_allocated
act_allocated-Post ms observed last none q = Paired-Good (map some observed) ms q
act_allocated-Post ms observed last (some (err e)) q =
    All-kept ms (Paired-Good (map some observed) ms q)
act_allocated-Post ms observed last (some (ok ceilings)) q =
    let start : Progress = record {
      members = ms;
      committed = committed_growth 0 ms;
      last = last;
    } in
    finish-Post (act_all (action_order ms) (map some observed) ceilings start)
      (act_all-Post (action_order ms) (map some observed) ceilings start q)

after_sweep-Post :
    (pool : Option ℕ) (between : Bool) (r : Result HostRuntimeError Sweep × List Member)
    → SweepPost r
    → OutcomePost (after_sweep pool between r)
unfolding after_sweep
after_sweep-Post pool between (err e, ms) k = k
after_sweep-Post pool between (ok halted, ms) k = k
after_sweep-Post pool true (ok (swept os last), ms) k = Paired-Good (map some os) ms k
after_sweep-Post none false (ok (swept os last), ms) k =
    act_allocated-Post ms os last (some (ok none)) k
after_sweep-Post (some bytes) false (ok (swept os last), ms) k =
    act_allocated-Post ms os last (some_ceilings (allocate bytes ms os)) k

round-Post :
    (pool : Option ℕ) (between : Bool) (ms : List Member)
    → All Good ms
    → OutcomePost (round pool between ms)
unfolding round
round-Post pool between ms g = after_sweep-Post pool between _ (observe_all-Post none ms g)

after_round-Post :
    (r : Outcome) (next : List Member → Outcome)
    → OutcomePost r
    → ((ms : List Member) → All Good ms → OutcomePost (next ms))
    → OutcomePost (after_round r next)
unfolding after_round
after_round-Post (none, ms) next k f = k
after_round-Post (some (err e), ms) next k f = k
after_round-Post (some (ok (stop e)), ms) next k f = All-kept ms k
after_round-Post (some (ok wait), ms) next k f = f ms k

run-Post :
    (pool : Option ℕ) (inputs : List (Bool × Bool)) (ms : List Member)
    → All Good ms
    → OutcomePost (run pool inputs ms)
unfolding run
run-Post pool [] ms g = g
run-Post pool ((true, between) ∷ inputs) ms g = g
run-Post pool ((false, between) ∷ inputs) ms g =
    after_round-Post (round pool between ms) (run pool inputs) (round-Post pool between ms g)
      (λ ms' g'. run-Post pool inputs ms' g')

outcome_kept : (r : Outcome) → OutcomePost r → All IsDisciplined r.1
outcome_kept (none, ms) k = All-kept ms k
outcome_kept (some (err e), ms) k = k
outcome_kept (some (ok st), ms) k = All-kept ms k

-- A VM as the daemon starts it: a fresh controller without history, whose checkpoint owes no result where
-- it is latched, and a device whose sizes are `u64`.
pub record Started (m : Member) : Type 0 where
  pub config : HostConfig
  pub control : DurableControlState
  pub session : m.session ≡ record { vm = new_controller config control; trace = [] }
  pub answers : answered control ≡ true
  pub sized : Sized m.env

Started-Good : (ms : List Member) → All Started ms → All Good ms
unfolding disciplined never_latched
Started-Good [] a = tt
Started-Good (m ∷ ms) a = (
  record {
    sized = a.0.sized;
    holds =
        rw a.0.session (record { commands = refl; quiet = ground arith; answers = a.0.answers });
  },
  Started-Good ms a.1,
)

-- However the adapters answer, and in every run of the loop, also one that ends with an error, each
-- device command of each VM was permitted when it was given. It was not given in observe-only mode, nor
-- after a latch was saved. A resize was given on a converged device, to a target the device accepts, and
-- the control state saved last before it records that target and an admitted request without a result; a
-- retarget to an accepted target that the control state saved last records; a widening on a converged
-- device. The VMs start with fresh controllers whose checkpoints owe no result where they are latched.
pub run-IsDisciplined :
    (pool : Option ℕ) (inputs : List (Bool × Bool)) (ms : List Member)
    → All Started ms
    → All IsDisciplined (run pool inputs ms).1
run-IsDisciplined pool inputs ms a =
    outcome_kept (run pool inputs ms) (run-Post pool inputs ms (Started-Good ms a))
