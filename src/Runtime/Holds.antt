-- ===== src/Runtime/Holds.antt =====
-- host/src/runtime.rs: the invariant of a controller and its history, and the rule for a chain of actions.
use virtio_mem_windows_servi.Prelude.{
  ◌≡◌, refl, ap, Bool, true, false, ◌||◌, Option, ◌∷◌, Result, ok, err, Result-cases, inl, inr, ◌∙◌,
  if◌then◌else◌,
}
use virtio_mem_windows_servi.VirtioMem.{VirtioMemState}
use virtio_mem_windows_servi.MemoryRequest.{MemoryResult}
use virtio_mem_windows_servi.Checkpoint.{is_latched}
use virtio_mem_windows_servi.Runtime.{
  HostRuntimeError, VmController, Effect, Trace, read_instant, read_guest, read_host_memory,
  read_stop, saved, save_failed, commanded, published, Environment, Session, Action, note, continue,
  read_state, read_unix_clock, now, instant_now, stop_requested,
}
use virtio_mem_windows_servi.Runtime.Control.{publish, status_of}
use virtio_mem_windows_servi.Runtime.Discipline.{last_saved, never_latched, disciplined, answered}

-- The history is disciplined.
abbrev pub Kept : Session → Type 0
Kept s = disciplined s.vm.config.observe_only s.trace ≡ true

pub record Holds (s : Session) : Type 0 where
  pub commands : Kept s
  pub quiet : is_latched s.vm.control || never_latched s.trace ≡ true
  pub answers : answered s.vm.control ≡ true

-- A property of the value and the state after an action; after an error the history is disciplined.
abbrev pub Ensures :
    {A : Type 0} → (A → Session → Type 0) → Result HostRuntimeError A × Session → Type 0
Ensures Q (ok a, s) = Q a s
Ensures Q (err e, s) = Kept s

pub step :
    {A B : Type 0} (Q : A → Session → Type 0) (R : B → Session → Type 0)
    (r : Result HostRuntimeError A × Session) (k : A → Action B)
    → Ensures Q r
    → ((a : A) (s : Session) → Q a s → Ensures R (k a s))
    → Ensures R (continue r.0 k r.1)
step Q R (ok a, s) k h f = f a s h
step Q R (err e, s) k h f = h

pub weaken :
    {A : Type 0} (Q R : A → Session → Type 0) (r : Result HostRuntimeError A × Session)
    → Ensures Q r
    → ((a : A) (s : Session) → Q a s → R a s)
    → Ensures R r
weaken Q R (ok a, s) h f = f a s h
weaken Q R (err e, s) h f = h

-- A choice between two actions.
pub branch :
    {A : Type 0} (Q : A → Session → Type 0) (m k : Action A) (s : Session)
    → Ensures Q (m s)
    → Ensures Q (k s)
    → (b : Bool) → Ensures Q ((if b then m else k) s)
branch Q m k s p q true = p
branch Q m k s p q false = q

pub choice :
    {A : Type 0} (Q : A → Session → Type 0) (m k : Action A) (s : Session) (b : Bool)
    → (b ≡ true → Ensures Q (m s))
    → (b ≡ false → Ensures Q (k s))
    → Ensures Q ((if b then m else k) s)
choice Q m k s true p q = p refl
choice Q m k s false p q = q refl

-- An action that reads or publishes: the controller and the saves are as they were.
pub record Same (s t : Session) : Type 0 where
  pub holds : Holds s → Holds t
  pub kept : Kept s → Kept t
  pub vm : t.vm ≡ s.vm
  pub last : last_saved t.trace ≡ last_saved s.trace

pub Same-refl : (s : Session) → Same s s
Same-refl s = record { holds = λ h. h; kept = λ h. h; vm = refl; last = refl }

pub Same-trans : (s t u : Session) → Same s t → Same t u → Same s u
Same-trans s t u a b = record {
  holds = λ h. b.holds (a.holds h);
  kept = λ h. b.kept (a.kept h);
  vm = b.vm ∙ a.vm;
  last = b.last ∙ a.last;
}

-- Reads and publications.
abbrev is_quiet : Effect → Bool
is_quiet (saved c) = false
is_quiet (save_failed c) = false
is_quiet (commanded command state) = false
is_quiet read_state = true
is_quiet read_unix_clock = true
is_quiet read_instant = true
is_quiet read_guest = true
is_quiet read_host_memory = true
is_quiet read_stop = true
is_quiet (published status) = true

quiet_disciplined :
    (o : Bool) (e : Effect) (t : Trace)
    → is_quiet e ≡ true
    → disciplined o t ≡ true
    → disciplined o (e ∷ t) ≡ true
unfolding disciplined
quiet_disciplined o read_state t q h = h
quiet_disciplined o read_unix_clock t q h = h
quiet_disciplined o read_instant t q h = h
quiet_disciplined o read_guest t q h = h
quiet_disciplined o read_host_memory t q h = h
quiet_disciplined o read_stop t q h = h
quiet_disciplined o (published status) t q h = h
quiet_disciplined o (saved c) t q h = cc
quiet_disciplined o (save_failed c) t q h = cc
quiet_disciplined o (commanded command state) t q h = cc

quiet_saves :
    (e : Effect) (t : Trace)
    → is_quiet e ≡ true
    → (last_saved (e ∷ t) ≡ last_saved t) × (never_latched (e ∷ t) ≡ never_latched t)
unfolding last_saved never_latched
quiet_saves read_state t q = (refl, refl)
quiet_saves read_unix_clock t q = (refl, refl)
quiet_saves read_instant t q = (refl, refl)
quiet_saves read_guest t q = (refl, refl)
quiet_saves read_host_memory t q = (refl, refl)
quiet_saves read_stop t q = (refl, refl)
quiet_saves (published status) t q = (refl, refl)
quiet_saves (saved c) t q = cc
quiet_saves (save_failed c) t q = cc
quiet_saves (commanded command state) t q = cc

pub note-Same : (e : Effect) (s : Session) → is_quiet e ≡ true → Same s (note e s)
note-Same e s q =
    let saves = quiet_saves e s.trace q in
    let kept : Kept s → Kept (note e s) = quiet_disciplined s.vm.config.observe_only e s.trace q in
    record {
      holds = λ h. record {
        commands = kept h.commands;
        quiet = rw saves.1 h.quiet;
        answers = h.answers;
      };
      kept = kept;
      vm = refl;
      last = saves.0;
    }

pub quiet_step :
    {A B : Type 0} (R : B → Session → Type 0) (s : Session)
    (r : Result HostRuntimeError A × Session) (k : A → Action B)
    → Same s r.1
    → Kept s
    → ((a : A) (t : Session) → Same s t → Ensures R (k a t))
    → Ensures R (continue r.0 k r.1)
quiet_step R s (ok a, t) k same h f = f a t same
quiet_step R s (err e, t) k same h f = same.kept h

-- A step that leaves the control state and the configuration as they were.
pub record Frame (s t : Session) : Type 0 where
  pub holds : Holds s → Holds t
  pub kept : Kept s → Kept t
  pub config : t.vm.config ≡ s.vm.config
  pub control : t.vm.control ≡ s.vm.control

pub Same-Frame : (s t : Session) → Same s t → Frame s t
Same-Frame s t same = record {
  holds = same.holds;
  kept = same.kept;
  config = ap (λ v. v.config) same.vm;
  control = ap (λ v. v.control) same.vm;
}

pub Frame-refl : (s : Session) → Frame s s
Frame-refl s = record { holds = λ h. h; kept = λ h. h; config = refl; control = refl }

pub Frame-trans : (s t u : Session) → Frame s t → Frame t u → Frame s u
Frame-trans s t u a b = record {
  holds = λ h. b.holds (a.holds h);
  kept = λ h. b.kept (a.kept h);
  config = b.config ∙ a.config;
  control = b.control ∙ a.control;
}

-- A change of the bookkeeping alone.
pub change-Frame :
    (s : Session) (vm : VmController)
    → vm.config ≡ s.vm.config
    → vm.control ≡ s.vm.control
    → Frame s (record s { vm = vm })
change-Frame s vm p q = record {
  holds =
      λ h. record { commands = rw p h.commands; quiet = rw q h.quiet; answers = rw q h.answers };
  kept = λ h. rw p h;
  config = p;
  control = q;
}

module _ (env : Environment) (s : Session) where
  pub now-Same : Same s (now env s).1
  unfolding now
  now-Same = note-Same read_unix_clock s refl

  pub instant_now-Same : Same s (instant_now env s).1
  unfolding instant_now
  instant_now-Same = note-Same read_instant s refl

  pub stop_requested-Same : Same s (stop_requested env s).1
  unfolding stop_requested
  stop_requested-Same = note-Same read_stop s refl

  pub publish-Same :
      (state : VirtioMemState) (refusal : Option MemoryResult)
      → Same s (publish env state refusal s).1
  unfolding publish
  publish-Same state refusal = elim (Result-cases (env.now_unix_millis s.trace)) [
    | inl (at, e) ↦
        let clock = note-Same read_unix_clock s refl in
        let sent =
          note-Same (published (status_of s.vm state refusal at)) (note read_unix_clock s) refl in
        rw e (Same-trans s (note read_unix_clock s) _ clock sent)
    | inr (m, e) ↦ rw e (note-Same read_unix_clock s refl)
  ]
