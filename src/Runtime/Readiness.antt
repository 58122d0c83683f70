-- ===== src/Runtime/Readiness.antt =====
-- host/src/runtime.rs, what `observe` finds before a VM may act.
use virtio_mem_windows_servi.Prelude.{
  ℕ, ◌<◌, ◌≡◌, ◌≢◌, ap, refl, true, false, some, List, Result, ok, err, arith, Text, u64_mod,
  Result-cases, inl, inr, is_some,
}
use virtio_mem_windows_servi.VirtioMem.{VirtioMemState}
use virtio_mem_windows_servi.VirtioMem
use virtio_mem_windows_servi.MemoryRequest.{MemoryRequest}
use virtio_mem_windows_servi.Journal.{MemoryRequestJournal, RequestAdmission, new, replay}
use virtio_mem_windows_servi.Journal.Replay.{Admitted}
use virtio_mem_windows_servi.Checkpoint.{is_latched}
use virtio_mem_windows_servi.Runtime.{
  Step, wait, stop, Ready, Observed, held, ready, stopping, VmController, Environment, Session,
  Action, Effect,
}
use virtio_mem_windows_servi.Runtime.Observe.{charged, checked_state, unless_stopped}
use virtio_mem_windows_servi.Runtime.Discipline.{answered, awaits_result}
use virtio_mem_windows_servi.Runtime.Holds.{Holds, Ensures, change-Frame}

-- A new request is not the one in the journal; a replayed one waits there for its result.
abbrev pub Waiting : RequestAdmission → MemoryRequest → VmController → Type 0
Waiting new request vm = vm.control.journal.request ≢ some request
Waiting replay request vm = awaits_result vm.control ≡ true

-- What `observe` has found before a VM may act.
pub record Actable (r : Ready) (vm : VmController) : Type 0 where
  pub valid : VirtioMem.validate r.state ≡ ok tt
  pub converged : r.state.requested_bytes ≡ r.state.current_bytes
  pub unlatched : is_latched vm.control ≡ false
  pub waiting : Waiting r.admission r.request vm

abbrev pub Seen : Observed → Session → Type 0
Seen (held charge) s = Holds s
Seen (stopping e) s = Holds s
Seen (ready r) s = Holds s × Actable r s.vm

-- The device's sizes are `u64`.
abbrev pub Sized : Environment → Type 0
Sized env =
    (t : List Effect) (state : VirtioMemState)
    → env.memory_state t ≡ ok state
    → state.size_bytes < u64_mod

pub replay_unlatched :
    (vm : VmController)
    → answered vm.control ≡ true
    → is_some vm.control.journal.request ≡ true
    → is_some vm.control.journal.result ≡ false
    → (is_latched vm.control ≡ false) × (awaits_result vm.control ≡ true)
unfolding answered awaits_result
replay_unlatched vm a p q = ground arith

pub unless_stopped-Seen :
    (st : Step) (m : Action Observed) (s : Session)
    → Holds s
    → Ensures Seen (m s)
    → Ensures Seen (unless_stopped st m s)
unfolding unless_stopped
unless_stopped-Seen wait m s h k = k
unless_stopped-Seen (stop e) m s h k = h

pub checked_state-ok :
    (r : Result Text VirtioMemState) (state : VirtioMemState)
    → checked_state r ≡ ok state
    → (VirtioMem.validate state ≡ ok tt) × (r ≡ ok state)
unfolding checked_state
checked_state-ok (err m) state h = cc
checked_state-ok (ok other) state h = elim (Result-cases (VirtioMem.validate other)) [
  | inl (_, e) ↦ ground (arith, e, h)
  | inr (m, e) ↦ absurd (ground (arith, e, h))
]

pub charged_Holds :
    (state : VirtioMemState) (s : Session) → Holds s → Holds (record s { vm = charged state s.vm })
charged_Holds state s h = (change-Frame s (charged state s.vm) refl refl).holds h

pub not_retained :
    {vm service : Text} {at tolerance : ℕ} (j : MemoryRequestJournal) (request : MemoryRequest)
    (k : MemoryRequestJournal)
    → Admitted vm service at tolerance j request k
    → j.request ≢ some request
not_retained j request k a held_request = elim a.succeeds [
  | inl e ↦ cc
  | inr (p, q, e, _, _, earlier) ↦
      let same : p ≡ request = cc in
      absurd (omega (arith, ap (λ (x : MemoryRequest). x.issued_unix_millis) same))
]
