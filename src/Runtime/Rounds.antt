-- ===== src/Runtime/Rounds.antt =====
-- host/src/runtime.rs, `round` and `run`: the invariant of all VMs.
use virtio_mem_windows_servi.Prelude.{
  ℕ, zero, suc, ◌≡◌, refl, Option, none, some, List, [], ◌∷◌, map, Result, ok, err, All, get_elem?,
  set, Result-cases, Bool-cases, inl, inr, subst, if◌then◌else◌,
}
use virtio_mem_windows_servi.Runtime.{
  HostRuntimeError, Step, wait, stop, Observed, held, ready, stopping, Environment, Session,
  stop_requested,
}
use virtio_mem_windows_servi.Runtime.Observe.{observe, observe_stopped, mark_stopped}
use virtio_mem_windows_servi.Runtime.Act.{act}
use virtio_mem_windows_servi.Runtime.Sweep.{
  Member, with_session, settle_observed, observe_member, Sweep, halted, swept, latest, add_observed,
  observe_all,
}
use virtio_mem_windows_servi.Runtime.Round.{after_step, act_member}
use virtio_mem_windows_servi.Runtime.Holds.{
  Kept, Holds, Ensures, Same, Same-Frame, change-Frame, step, branch, stop_requested-Same,
}
use virtio_mem_windows_servi.Runtime.Readiness.{Seen, Sized}
use virtio_mem_windows_servi.Runtime.Observing.{observe-Seen, observe_stopped-Seen}
use virtio_mem_windows_servi.Runtime.Acting.{Frame-Actable, act-Holds}

mark_stopped-Holds : (s : Session) → Holds s → Holds (record s { vm = mark_stopped s.vm })
mark_stopped-Holds s h = (change-Frame s (mark_stopped s.vm) refl refl).holds h

settle_observed-Seen :
    (env : Environment) (o : Observed) (s : Session)
    → Seen o s
    → Ensures (λ q t. Seen q.0 t) (settle_observed env o s)
unfolding settle_observed
settle_observed-Seen env (held charge) s k = k
settle_observed-Seen env (ready r) s k = k
settle_observed-Seen env (stopping e) s k =
    let s' : Session = record s { vm = mark_stopped s.vm } in
    step Seen (λ q t. Seen q.0 t) (observe_stopped env s') _
      (observe_stopped-Seen env s' (mark_stopped-Holds s k)) (λ _ t k'. k')

observe_member-Seen :
    (env : Environment) (s : Session)
    → Sized env
    → Holds s
    → Ensures (λ q t. Seen q.0 t) (observe_member env s)
unfolding observe_member
observe_member-Seen env s sized h =
    step Seen (λ q t. Seen q.0 t) ((if s.vm.stopped then observe_stopped env else observe env) s) _
      (branch Seen (observe_stopped env) (observe env) s (observe_stopped-Seen env s h)
        (observe-Seen env sized s h) s.vm.stopped)
      (λ o t k. settle_observed-Seen env o t k)

-- One VM whose invariant holds, and one whose history is disciplined.
pub record Good (m : Member) : Type 0 where
  pub sized : Sized m.env
  pub holds : Holds m.session

abbrev pub IsDisciplined : Member → Type 0
IsDisciplined m = Kept m.session

pub All-kept : (ms : List Member) → All Good ms → All IsDisciplined ms
All-kept [] a = tt
All-kept (m ∷ ms) a = (a.0.holds.commands, All-kept ms a.1)

-- What was observed of a VM and is not taken yet still holds of it.
abbrev pub Still : Option Observed → Session → Type 0
Still none s = Holds s
Still (some o) s = Seen o s

Seen-Holds : (o : Observed) (s : Session) → Seen o s → Holds s
Seen-Holds (held charge) s k = k
Seen-Holds (ready r) s k = k.0
Seen-Holds (stopping e) s k = k

pub Still-Holds : (o : Option Observed) (s : Session) → Still o s → Holds s
Still-Holds none s k = k
Still-Holds (some o) s k = Seen-Holds o s k

Seen-Same : (o : Observed) (s t : Session) → Same s t → Seen o s → Seen o t
Seen-Same (held charge) s t same k = same.holds k
Seen-Same (stopping e) s t same k = same.holds k
Seen-Same (ready r) s t same k = (same.holds k.0, Frame-Actable r s t (Same-Frame s t same) k.1)

pub Still-Same : (o : Option Observed) (s t : Session) → Same s t → Still o s → Still o t
Still-Same none s t same k = same.holds k
Still-Same (some o) s t same k = Seen-Same o s t same k

abbrev pub Paired : List (Option Observed) → List Member → Type 0
Paired [] [] = Unit {0}
Paired [] (m ∷ ms) = ⊥
Paired (o ∷ os) [] = ⊥
Paired (o ∷ os) (m ∷ ms) = Sized m.env × Still o m.session × Paired os ms

pub Paired-Good : (os : List (Option Observed)) (ms : List Member) → Paired os ms → All Good ms
Paired-Good [] [] p = tt
Paired-Good [] (m ∷ ms) p = absurd p
Paired-Good (o ∷ os) [] p = absurd p
Paired-Good (o ∷ os) (m ∷ ms) p =
    (record { sized = p.0; holds = Still-Holds o m.session p.1 }, Paired-Good os ms p.2)

pub Paired-get :
    (os : List (Option Observed)) (ms : List Member) (i : ℕ) (o : Option Observed) (m : Member)
    → Paired os ms
    → get_elem? os i ≡ some o
    → get_elem? ms i ≡ some m
    → Sized m.env × Still o m.session
Paired-get [] [] i o m p x y = cc
Paired-get [] (n ∷ ms) i o m p x y = absurd p
Paired-get (q ∷ os) [] i o m p x y = absurd p
Paired-get (q ∷ os) (n ∷ ms) zero o m p x y =
    let same : q ≡ o = cc in
    let there : n ≡ m = cc in
    (
      subst (λ k. Sized k.env) there p.0,
      subst (λ k. Still o k.session) there (subst (λ e. Still e n.session) same p.1),
    )
Paired-get (q ∷ os) (n ∷ ms) (suc i) o m p x y = Paired-get os ms i o m p.2 x y

pub Paired-set :
    (os : List (Option Observed)) (ms : List Member) (i : ℕ) (m : Member) (s : Session)
    → Paired os ms
    → get_elem? ms i ≡ some m
    → Holds s
    → Paired (set os i none) (set ms i (with_session m s))
Paired-set [] [] i m s p y h = tt
Paired-set [] (n ∷ ms) i m s p y h = absurd p
Paired-set (q ∷ os) [] i m s p y h = absurd p
Paired-set (q ∷ os) (n ∷ ms) zero m s p y h =
    let there : n ≡ m = cc in (subst (λ k. Sized k.env) there p.0, h, p.2)
Paired-set (q ∷ os) (n ∷ ms) (suc i) m s p y h = (p.0, p.1, Paired-set os ms i m s p.2 y h)

pub ensured_ok :
    {A : Type 0} (Q : A → Session → Type 0) (r : Result HostRuntimeError A × Session) (a : A)
    → r.0 ≡ ok a
    → Ensures Q r
    → Q a r.1
ensured_ok Q (ok b, s) a e k = let same : b ≡ a = cc in subst (λ x. Q x s) same k
ensured_ok Q (err m, s) a e k = cc

pub ensured_err :
    {A : Type 0} (Q : A → Session → Type 0) (r : Result HostRuntimeError A × Session)
    (m : HostRuntimeError)
    → r.0 ≡ err m
    → Ensures Q r
    → Kept r.1
ensured_err Q (ok b, s) m e k = cc
ensured_err Q (err n, s) m e k = k

-- After the first loop.
abbrev pub SweepPost : Result HostRuntimeError Sweep × List Member → Type 0
SweepPost (err e, ms) = All IsDisciplined ms
SweepPost (ok halted, ms) = All Good ms
SweepPost (ok (swept os last), ms) = Paired (map some os) ms

add_observed-Post :
    (o : Observed) (m : Member) (rest : Result HostRuntimeError Sweep × List Member)
    → Sized m.env
    → Seen o m.session
    → SweepPost rest
    → SweepPost (add_observed o rest.0, m ∷ rest.1)
add_observed-Post o m (err e, ms) sized k p = ((Seen-Holds o m.session k).commands, p)
add_observed-Post o m (ok halted, ms) sized k p =
    (record { sized = sized; holds = Seen-Holds o m.session k }, p)
add_observed-Post o m (ok (swept os last), ms) sized k p = (sized, k, p)

pub observe_all-Post :
    (last : Option HostRuntimeError) (ms : List Member)
    → All Good ms
    → SweepPost (observe_all last ms)
unfolding observe_all
observe_all-Post last [] g = tt
observe_all-Post last (m ∷ ms) g =
    let s = (stop_requested m.env m.session).1 in
    let h = (stop_requested-Same m.env m.session).holds g.0.holds in
    let r = observe_member m.env s in
    let k = observe_member-Seen m.env s g.0.sized h in
    elim (Bool-cases (m.env.stop_requested m.session.trace)) [
      | inl y ↦ rw y (record { sized = g.0.sized; holds = h }, g.1)
      | inr n ↦ elim (Result-cases r.0) [
        | inr (e, x) ↦ rw (n, x) (ensured_err (λ q t. Seen q.0 t) r e x k, All-kept ms g.1)
        | inl (q, x) ↦
            rw (n, x)
              (add_observed-Post q.0 (with_session m r.1) (observe_all (latest last q.1) ms)
                g.0.sized (ensured_ok (λ q' t. Seen q'.0 t) r q x k)
                (observe_all-Post (latest last q.1) ms g.1))
      ]
    ]

after_step-Holds :
    (st : Step × ℕ) (s : Session) → Holds s → Ensures (λ _ t. Holds t) (after_step st s)
unfolding after_step
after_step-Holds (wait, committed) s h = h
after_step-Holds (stop e, committed) s h = mark_stopped-Holds s h

pub act_member-Holds :
    (env : Environment) (o : Option Observed) (ceiling : Option ℕ) (committed : ℕ) (s : Session)
    → Still o s
    → Ensures (λ _ t. Holds t) (act_member env o ceiling committed s)
unfolding act_member
act_member-Holds env none ceiling committed s k = k
act_member-Holds env (some (held charge)) ceiling committed s k = k
act_member-Holds env (some (stopping e)) ceiling committed s k = k
act_member-Holds env (some (ready r)) ceiling committed s k =
    step (λ _ t. Holds t) (λ _ t. Holds t) (act env r ceiling committed s) _
      (act-Holds env r ceiling committed s k.0 k.1) (λ st t h. after_step-Holds st t h)
