-- ===== src/Runtime/Sweep.antt =====
-- host/src/runtime.rs, the first loop of `HostRuntime::round`: every VM is observed.
use virtio_mem_windows_servi.Prelude.{
  true, false, Option, none, some, List, [], ◌∷◌, Result, ok, err, if◌then◌else◌,
}
use virtio_mem_windows_servi.Runtime.{
  HostRuntimeError, Observed, held, ready, stopping, Environment, Session, Action, pure, change,
  ◌>>=◌, ◌>>◌, stop_requested,
}
use virtio_mem_windows_servi.Runtime.Control.{current_vm}
use virtio_mem_windows_servi.Runtime.Observe.{observe, observe_stopped, mark_stopped}

-- One VM with its adapters.
pub record Member : Type 0 where
  pub env : Environment
  pub session : Session

abbrev pub with_session : Member → Session → Member
with_session m s = record m { session = s }

unfoldable pub settle_observed :
    Environment → Observed → Action (Observed × Option HostRuntimeError)
settle_observed env (held charge) = pure (held charge, none)
settle_observed env (ready r) = pure (ready r, none)
settle_observed env (stopping e) = do
  change mark_stopped
  seen ← observe_stopped env
  pure (seen, some e)

-- The body of the first loop: what was seen, and the failure that stopped the VM.
unfoldable pub observe_member : Environment → Action (Observed × Option HostRuntimeError)
unfolding settle_observed
observe_member env = do
  vm ← current_vm
  seen ← if vm.stopped then observe_stopped env else observe env
  settle_observed env seen

pub data Sweep : Type 0 where
  halted : Sweep
  swept : List Observed → Option HostRuntimeError → Sweep

unfoldable pub latest : Option HostRuntimeError → Option HostRuntimeError → Option HostRuntimeError
latest earlier none = earlier
latest earlier (some e) = some e

abbrev pub add_observed : Observed → Result HostRuntimeError Sweep → Result HostRuntimeError Sweep
add_observed seen (err e) = err e
add_observed seen (ok halted) = ok halted
add_observed seen (ok (swept observed last)) = ok (swept (seen ∷ observed) last)

-- The first loop. `last` is the latest failure so far.
unfoldable pub observe_all :
    Option HostRuntimeError → List Member → Result HostRuntimeError Sweep × List Member
unfolding observe_member latest
observe_all last [] = (ok (swept [] last), [])
observe_all last (m ∷ ms) =
    let stops = stop_requested m.env m.session in
    let (outcome, after) = observe_member m.env stops.1 in
    elim (m.env.stop_requested m.session.trace) [
      | true ↦ (ok halted, with_session m stops.1 ∷ ms)
      | false ↦ elim outcome [
        | err e ↦ (err e, with_session m after ∷ ms)
        | ok (seen, failure) ↦
            let (rest, ms') = observe_all (latest last failure) ms in
            (add_observed seen rest, with_session m after ∷ ms')
      ]
    ]
