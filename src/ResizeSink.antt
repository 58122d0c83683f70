-- ===== src/ResizeSink.antt =====
-- host/src/resize_sink.rs: the virsh commands of a resize, in their order. The compatibility source and
-- virsh answer as they like; a parsed dumpxml is the snapshot of the device, or an error.
pub mod Requests
pub mod Guarded
pub mod Widening
use virtio_mem_windows_servi.Prelude.{
  ℕ, Bool, true, false, not, ◌&&◌, ◌||◌, Option, none, some, List, [], ◌∷◌, Result, ok, err,
  map_err, Text, ◌==◌, ok_or, is_ok,
}
use virtio_mem_windows_servi.Units.{bytes_to_kibibytes}
use virtio_mem_windows_servi.VirtioMem.{
  VirtioMemState, VirtioMemError, validate_target, device_maximum_target,
}
use virtio_mem_windows_servi.Compatibility.{
  VirtioMemCompatibility, VirtioMemCompatibilityError, merge, validate_for_resize,
}

-- One constructor for each message of the file's `Err` strings; another module's error is wrapped.
pub data SinkReason : Type 0 where
  unavailable : Text → SinkReason
  incompatible : VirtioMemCompatibilityError → SinkReason
  invalid_target : VirtioMemError → SinkReason
  state_changed not_whole_kib not_authorized shutdown_requested : SinkReason
  unrestored not_resumed widening_failed : SinkReason → SinkReason

pub data SinkError : Type 0 where
  rejected command_unknown : SinkReason → SinkError

pub data VirshCall : Type 0 where
  dumpxml suspend resume : VirshCall
  update_memory_device : (kib : ℕ) → VirshCall

-- A call of virsh with whether it succeeded, or a read of something else.
pub data SinkEffect : Type 0 where
  called : VirshCall → (succeeded : Bool) → SinkEffect
  read_compatibility read_stop : SinkEffect

-- The latest first.
abbrev pub Calls : Type 0
Calls = List SinkEffect

pub record Snapshot : Type 0 where
  pub memory : VirtioMemState
  pub compatibility : VirtioMemCompatibility

pub record Virsh : Type 0 where
  pub compatibility : Calls → Result Text VirtioMemCompatibility
  pub dumpxml : Calls → Result Text Snapshot
  pub run : Calls → VirshCall → Result Text (Unit {0})
  pub stop_requested : Calls → Bool

-- `PartialEq` of the device state.
unfoldable pub state_eq : VirtioMemState → VirtioMemState → Bool
state_eq a b =
    a.size_bytes == b.size_bytes
    && a.block_size_bytes == b.block_size_bytes
    && a.requested_bytes == b.requested_bytes
    && a.current_bytes == b.current_bytes

unfoldable pub is_converged : VirtioMemState → Bool
is_converged s = s.requested_bytes == s.current_bytes

abbrev pub Call : Type 0 → Type 0
Call A = Calls → Result SinkReason A × Calls

module _ {A B : Type 0} where
  abbrev pub continue : Result SinkReason A → (A → Call B) → Call B
  continue (ok a) f t = f a t
  continue (err e) f t = (err e, t)

  infixl 5 ◌>>=◌
  abbrev pub ◌>>=◌ : Call A → (A → Call B) → Call B
  ◌>>=◌ m f t = continue (m t).0 f (m t).1

abbrev pub check : {A : Type 0} → Result SinkReason A → Call A
check r t = (r, t)

infixl 5 ◌>>◌
abbrev pub ◌>>◌ : {B : Type 0} → Call (Unit {0}) → Call B → Call B
m >> k = m >>= λ _. k

abbrev pub require : Bool → SinkReason → Call (Unit {0})
require true e t = (ok tt, t)
require false e t = (err e, t)

-- The preconditions of the operations.
abbrev pub Precondition : Type 0
Precondition = VirtioMemState → Bool

unfoldable pub still_converged : VirtioMemState → Precondition
unfolding state_eq is_converged
still_converged expected state = state_eq state expected && is_converged state

unfoldable pub still_pending : VirtioMemState → Precondition
unfolding state_eq is_converged
still_pending expected state = state_eq state expected && not (is_converged state)

unfoldable pub same_allocation : VirtioMemState → Precondition
same_allocation expected state = state.current_bytes == expected.current_bytes

abbrev pub Outcome : Type 0
Outcome = Result SinkError (Unit {0}) × Calls

unfoldable pub applied : Result SinkReason (Unit {0}) × Calls → Outcome
applied (r, t) = (map_err command_unknown r, t)

unfoldable pub resumed :
    Result SinkReason (Unit {0}) → Result SinkReason (Unit {0}) × Calls → Outcome
resumed (ok _) (ok _, t) = (ok tt, t)
resumed (ok _) (err e, t) = (err (command_unknown (not_resumed e)), t)
resumed (err _) (err e, t) = (err (command_unknown (not_resumed e)), t)
resumed (err e) (ok _, t) = (err (command_unknown (widening_failed e)), t)

module _ (virsh : Virsh) where
  unfoldable pub read_compatible : Call VirtioMemCompatibility
  read_compatible t = (map_err unavailable (virsh.compatibility t), read_compatibility ∷ t)

  unfoldable pub read_snapshot : Call Snapshot
  read_snapshot t =
      (map_err unavailable (virsh.dumpxml t), called dumpxml (is_ok (virsh.dumpxml t)) ∷ t)

  -- `self.command.run(..)`.
  unfoldable pub run_command : VirshCall → Call (Unit {0})
  run_command c t = (map_err unavailable (virsh.run t c), called c (is_ok (virsh.run t c)) ∷ t)

  unfoldable pub halted : Calls → Bool × Calls
  halted t = (virsh.stop_requested t, read_stop ∷ t)

  -- `prepare`: the KiB of the command.
  unfoldable pub prepare : ℕ → Precondition → Call ℕ
  prepare target_bytes precondition = do
    compatibility ← read_compatible
    snapshot ← read_snapshot
    merged ← check (map_err incompatible (merge snapshot.compatibility compatibility))
    check (map_err incompatible (validate_for_resize merged))
    check (map_err invalid_target (validate_target snapshot.memory target_bytes))
    require (precondition snapshot.memory) state_changed
    check (ok_or (bytes_to_kibibytes target_bytes) not_whole_kib)

  -- `apply_prepared`.
  unfoldable pub apply_prepared : ℕ → Call (Unit {0})
  apply_prepared kib = run_command (update_memory_device kib)

  unfoldable pub apply_if : Bool → ℕ → Calls → Outcome
  unfolding applied
  apply_if true kib t = (err (rejected shutdown_requested), t)
  apply_if false kib t = applied (apply_prepared kib t)

  -- `apply_unless_stopped`.
  unfoldable pub apply_unless_stopped : ℕ → Calls → Outcome
  unfolding apply_if halted
  apply_unless_stopped kib t = apply_if (halted t).0 kib (halted t).1

  unfoldable pub apply_authorized : Result Text (Unit {0}) → ℕ → Calls → Outcome
  unfolding apply_unless_stopped
  apply_authorized (err _) kib t = (err (rejected not_authorized), t)
  apply_authorized (ok _) kib t = apply_unless_stopped kib t

  unfoldable pub apply_prepared_authorized :
      Result Text (Unit {0}) → Result SinkReason ℕ × Calls → Outcome
  unfolding apply_authorized
  apply_prepared_authorized authorized (err e, t) = (err (rejected e), t)
  apply_prepared_authorized authorized (ok kib, t) = apply_authorized authorized kib t

  -- `request_resize_guarded`, with the outcome of `authorize`.
  unfoldable pub request_resize_guarded :
      VirtioMemState → ℕ → Result Text (Unit {0}) → Calls → Outcome
  unfolding apply_prepared_authorized
  request_resize_guarded expected target authorized t =
      apply_prepared_authorized authorized (prepare target (still_converged expected) t)

  -- `retarget_pending_guarded`.
  unfoldable pub retarget_pending_guarded : VirtioMemState → ℕ → Calls → Outcome
  unfolding apply_prepared_authorized
  retarget_pending_guarded expected target t =
      apply_prepared_authorized (ok tt) (prepare target (still_pending expected) t)

  -- `apply_prepared(restore)`, or else one prepared anew by `prepare_restore`.
  unfoldable pub prepare_restore : VirtioMemState → Call ℕ
  prepare_restore expected = prepare expected.requested_bytes (same_allocation expected)

  unfoldable pub restore_again :
      VirtioMemState → Result SinkReason (Unit {0}) × Calls → Result SinkReason (Unit {0}) × Calls
  restore_again expected (ok _, t) = (ok tt, t)
  restore_again expected (err _, t) = (prepare_restore expected >>= apply_prepared) t

  unfoldable pub after_restore :
      Result SinkReason (Unit {0}) → Result SinkReason (Unit {0}) × Calls → Outcome
  unfolding resumed
  after_restore widened (err e, t) = (err (command_unknown (unrestored e)), t)
  after_restore widened (ok _, t) = resumed widened (run_command resume t)

  -- From the pausing on.
  unfoldable pub widen_paused :
      VirtioMemState → ℕ → ℕ → Result SinkReason (Unit {0}) × Calls → Outcome
  unfolding restore_again after_restore
  widen_paused expected widen restore (err e, t) = (err (rejected e), t)
  widen_paused expected widen restore (ok _, t) =
      let (widened, after) = apply_prepared widen t in
      after_restore widened (restore_again expected (apply_prepared restore after))

  unfoldable pub widen_unless : Bool → VirtioMemState → ℕ × ℕ → Calls → Outcome
  unfolding widen_paused
  widen_unless true expected (widen, restore) t = (err (rejected shutdown_requested), t)
  widen_unless false expected (widen, restore) t =
      widen_paused expected widen restore (run_command suspend t)

  unfoldable pub widen_prepared : VirtioMemState → Result SinkReason (ℕ × ℕ) × Calls → Outcome
  unfolding widen_unless halted
  widen_prepared expected (err e, t) = (err (rejected e), t)
  widen_prepared expected (ok kibs, t) = widen_unless (halted t).0 expected kibs (halted t).1

  -- The two commands, prepared before the domain is paused.
  unfoldable pub prepare_widening : VirtioMemState → Call (ℕ × ℕ)
  prepare_widening expected = do
    widen ← prepare (device_maximum_target expected) (still_converged expected)
    restore ← prepare expected.requested_bytes (still_converged expected)
    check (ok (widen, restore))

  -- `widen_usable_region_guarded`.
  unfoldable pub widen_usable_region_guarded : VirtioMemState → Calls → Outcome
  unfolding widen_prepared
  widen_usable_region_guarded expected t = widen_prepared expected (prepare_widening expected t)
