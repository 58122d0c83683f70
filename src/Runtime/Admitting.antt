-- ===== src/Runtime/Admitting.antt =====
-- host/src/runtime.rs, the admission of a request that is executed or refused.
use virtio_mem_windows_servi.Prelude.{
  ℕ, ◌≡◌, refl, true, false, none, some, arith, codes, ◌++◌, decimal, Result-cases, inl, inr,
}
use virtio_mem_windows_servi.MemoryRequest.{MemoryRequest}
use virtio_mem_windows_servi.Journal.{MemoryRequestJournal, RequestAdmission, new, replay, admit}
use virtio_mem_windows_servi.Journal.Replay.{admit_new_only, admit_replay_only}
use virtio_mem_windows_servi.Checkpoint.{CommandIntent, is_latched}
use virtio_mem_windows_servi.Runtime.{Ready, VmController, Environment, Session}
use virtio_mem_windows_servi.Runtime.Control.{with_intent, with_journal, admit_if_new}
use virtio_mem_windows_servi.Runtime.Act.{granted_direction}
use virtio_mem_windows_servi.Runtime.Discipline.{awaits_result, answered}
use virtio_mem_windows_servi.Runtime.Holds.{Holds, Ensures, Frame}
use virtio_mem_windows_servi.Runtime.Settling.{Free}
use virtio_mem_windows_servi.Runtime.Readiness.{Waiting}

pub record Calm (s : Session) : Type 0 where
  pub holds : Holds s
  pub unlatched : is_latched s.vm.control ≡ false

pub Frame-Calm : (s t : Session) → Frame s t → Calm s → Calm t
Frame-Calm s t f c = record { holds = f.holds c.holds; unlatched = rw f.control c.unlatched }

-- After the admission: nothing but the journal has changed.
pub record Entered (s t : Session) : Type 0 where
  pub calm : Calm t
  pub config : t.vm.config ≡ s.vm.config

entered :
    (j : MemoryRequestJournal) (s : Session)
    → Calm s
    → Entered s (record s { vm = with_journal j s.vm })
unfolding is_latched answered
entered j s c = record {
  calm = record {
    holds = record {
      commands = c.holds.commands;
      quiet = c.holds.quiet;
      answers = ground (arith, c.unlatched);
    };
    unlatched = c.unlatched;
  };
  config = refl;
}

pub admit_if_new-Entered :
    (a : RequestAdmission) (request : MemoryRequest) (at : ℕ) (s : Session)
    → Calm s
    → Ensures
        (λ _ t. Entered s t × (Waiting a request s.vm → awaits_result t.vm.control ≡ true))
        (admit_if_new a request at s)
unfolding admit_if_new
admit_if_new-Entered replay request at s c = (record { calm = c; config = refl }, λ w. w)
admit_if_new-Entered new request at s c =
    let config = s.vm.config in
    let service = config.raw_telemetry_service_name in
    let tolerance = config.raw_telemetry_future_tolerance in
    elim (Result-cases (admit config.vm_name service at tolerance s.vm.control.journal request)) [
      | inr (m, e) ↦ rw e c.holds.commands
      | inl ((j, new), e) ↦
          let t : Session = record s { vm = with_journal j s.vm } in
          let k =
            admit_new_only config.vm_name service at tolerance s.vm.control.journal request j e in
          rw e (entered j s c, λ _. unfold awaits_result in rw (k.request_eq, k.result_eq) refl)
      | inl ((j, replay), e) ↦
          let k =
            admit_replay_only config.vm_name service at tolerance s.vm.control.journal request j
              e in
          rw e (entered j s c, λ w. absurd (w k.1))
    ]

-- The intent of a granted request.
abbrev pub granted_intent : Environment → Ready → ℕ → ℕ → ℕ → CommandIntent
granted_intent env r at target counter = record {
  operation_id = decimal env.process_id ++ (codes "-" ++ decimal counter);
  started_unix_millis = at;
  direction = granted_direction r.request.operation;
  prior_requested_bytes = r.state.requested_bytes;
  prior_current_bytes = r.state.current_bytes;
  target_bytes = target;
}

pub Waiting-same :
    (a : RequestAdmission) (request : MemoryRequest) (v w : VmController)
    → w.control ≡ v.control
    → Waiting a request v
    → Waiting a request w
Waiting-same new request v w e k = rw e k
Waiting-same replay request v w e k = rw e k

pub Entered-Free : (s t : Session) → Entered s t → Free s → Free t
Entered-Free s t e free = record {
  holds = e.calm.holds;
  unlatched = e.calm.unlatched;
  active = rw e.config free.active;
}

pub released :
    (s : Session)
    → Calm s
    → Calm (record s { vm = record (with_intent none s.vm) { outstanding_growth = some 0 } })
unfolding is_latched answered
released s c = record {
  holds = record { commands = c.holds.commands; quiet = c.holds.quiet; answers = c.holds.answers };
  unlatched = c.unlatched;
}
