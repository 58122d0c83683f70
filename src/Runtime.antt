-- ===== src/Runtime.antt =====
-- host/src/runtime.rs: the state of one VM's controller, what it reads and does outside, and the effects
-- that it has had. A method of `VmController` is an action: its state comes back after an error too.
pub mod Control
pub mod Deadlines
pub mod Extension
pub mod Settle
pub mod Extend
pub mod Pending
pub mod Grant
pub mod Granted
pub mod Extended
pub mod Act
pub mod Discipline
pub mod Holds
pub mod Latching
pub mod Resolving
pub mod Settling
pub mod Extending
pub mod Polling
pub mod Readiness
pub mod Observing
pub mod Admitting
pub mod Executing
pub mod Acting
pub mod Rounds
pub mod Runs
pub mod Growth
pub mod Budget
pub mod HostShare
pub mod PoolShare
pub mod Refusals
pub mod Observe
pub mod Sweep
pub mod Round
use virtio_mem_windows_servi.Prelude.{
  ℕ, ◌+◌, Bool, true, false, ◌&&◌, not, Option, none, some, List, [], ◌∷◌, Result, ok, err, map_err,
  Text, if◌then◌else◌,
}
use virtio_mem_windows_servi.Config.{HostConfig}
use virtio_mem_windows_servi.VirtioMem.{VirtioMemState}
use virtio_mem_windows_servi.MemoryRequest.{MemoryRequest, MemoryResult, HostMemoryStatus}
use virtio_mem_windows_servi.Journal.{RequestAdmission}
use virtio_mem_windows_servi.Telemetry.{RawTelemetryEnvelope}
use virtio_mem_windows_servi.Checkpoint.{DurableControlState}

pub data ResizeSinkError : Type 0 where
  command_rejected command_unknown : Text → ResizeSinkError

pub data HostRuntimeError : Type 0 where
  controller host_memory resize_failed : Text → HostRuntimeError
  convergence_timeout : ℕ → HostRuntimeError

-- What the loop does after one poll of a VM.
pub data Step : Type 0 where
  wait : Step
  stop : HostRuntimeError → Step

-- A converged device and a guest request that may be executed.
pub record Ready : Type 0 where
  pub base_ram : ℕ
  pub state : VirtioMemState
  pub request : MemoryRequest
  pub admission : RequestAdmission

-- The pool charge and block size of a held VM; `none` before it was ever read.
pub data Observed : Type 0 where
  held : (charge : Option (ℕ × ℕ)) → Observed
  ready : Ready → Observed
  stopping : HostRuntimeError → Observed

-- `VmController` without its adapters and the flags that only keep a log line from being repeated.
-- Instants are milliseconds.
pub record VmController : Type 0 where
  pub config : HostConfig
  pub control : DurableControlState
  pub pending_since : Option ℕ
  pub pending_progress : Option (ℕ × ℕ)
  pub extension : Option (Text × ℕ × ℕ)
  pub widen_due : Bool
  pub widened : Bool
  pub operation_counter : ℕ
  pub last_charge : Option (ℕ × ℕ)
  pub outstanding_growth : Option ℕ
  pub stopped : Bool

-- `VmController::new`, after its checkpoint is open.
abbrev pub new_controller : HostConfig → DurableControlState → VmController
new_controller config control = record {
  config = config;
  control = control;
  pending_since = none;
  pending_progress = none;
  extension = none;
  widen_due = false;
  widened = false;
  operation_counter = 0;
  last_charge = none;
  outstanding_growth = none;
  stopped = false;
}

-- The commands of `ResizeSink`.
pub data DeviceCommand : Type 0 where
  request_resize retarget_pending : (target : ℕ) → DeviceCommand
  widen_usable_region : DeviceCommand

-- One use of an adapter. A command is recorded with the device state that it expects.
pub data Effect : Type 0 where
  read_state read_unix_clock read_instant read_guest read_host_memory read_stop : Effect
  saved save_failed : DurableControlState → Effect
  commanded : DeviceCommand → VirtioMemState → Effect
  published : HostMemoryStatus → Effect

-- The effects so far, the latest first.
abbrev pub Trace : Type 0
Trace = List Effect

-- The adapters of one VM. What they answer may depend on everything that has happened, so that two reads
-- may differ; the final check that the resize sink makes before a growth is handed to it as its outcome.
pub record Environment : Type 0 where
  pub memory_state : Trace → Result Text VirtioMemState
  pub now_unix_millis : Trace → Result Text ℕ
  pub instant : Trace → ℕ
  pub read : Trace → Result Text RawTelemetryEnvelope
  pub available_bytes : Trace → Result Text ℕ
  pub stop_requested : Trace → Bool
  pub save : Trace → DurableControlState → Result Text (Unit {0})
  pub request_resize_guarded :
      Trace → VirtioMemState → ℕ → Result Text (Unit {0}) → Result ResizeSinkError (Unit {0})
  pub retarget_pending_guarded : Trace → VirtioMemState → ℕ → Result ResizeSinkError (Unit {0})
  pub widen_usable_region_guarded : Trace → VirtioMemState → Result ResizeSinkError (Unit {0})
  pub process_id : ℕ

pub record Session : Type 0 where
  pub vm : VmController
  pub trace : Trace

abbrev pub note : Effect → Session → Session
note effect s = record s { trace = effect ∷ s.trace }

abbrev pub Action : Type 0 → Type 0
Action A = Session → Result HostRuntimeError A × Session

module _ {A : Type 0} where
  abbrev pub pure : A → Action A
  pure a s = (ok a, s)

  abbrev pub throw : HostRuntimeError → Action A
  throw e s = (err e, s)

  -- A result whose error ends the method.
  abbrev pub try : Result HostRuntimeError A → Action A
  try r s = (r, s)

  abbrev pub look : (VmController → A) → Action A
  look f s = (ok (f s.vm), s)

-- What follows a result.
abbrev pub continue {ℓ} :
    {A : Type ℓ} {B : Type 0} → Result HostRuntimeError A → (A → Action B) → Action B
continue (ok a) f s = f a s
continue (err e) f s = (err e, s)

infixl 5 ◌>>=◌ ◌>>◌
abbrev pub ◌>>=◌ : {A B : Type 0} → Action A → (A → Action B) → Action B
◌>>=◌ m f s = continue (m s).0 f (m s).1

abbrev pub ◌>>◌ : {A B : Type 0} → Action A → Action B → Action B
m >> k = m >>= λ _. k

abbrev pub change : (VmController → VmController) → Action (Unit {0})
change f s = (ok tt, record s { vm = f s.vm })

module _ (env : Environment) where
  -- `VmController::now`.
  unfoldable pub now : Action ℕ
  now s = (map_err controller (env.now_unix_millis s.trace), note read_unix_clock s)

  -- `Instant::now`.
  unfoldable pub instant_now : Action ℕ
  instant_now s = (ok (env.instant s.trace), note read_instant s)

  -- `stop.load(..)`.
  unfoldable pub stop_requested : Action Bool
  stop_requested s = (ok (env.stop_requested s.trace), note read_stop s)

  unfoldable pub after_save : Result Text (Unit {0}) → Action (Unit {0})
  after_save (ok _) s = (ok tt, note (saved s.vm.control) s)
  after_save (err message) s = (err (controller message), note (save_failed s.vm.control) s)

  -- `VmController::save`.
  unfoldable pub save : Action (Unit {0})
  unfolding after_save
  save s = after_save (env.save s.trace s.vm.control) s
