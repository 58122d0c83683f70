-- ===== src/Runtime/Discipline.antt =====
-- host/src/runtime.rs: which device commands a history may hold, read from its effects.
use virtio_mem_windows_servi.Prelude.{
  ℕ, Bool, true, not, ◌&&◌, ◌||◌, Option, none, some, [], ◌∷◌, is_some, is_none, is_some_and, is_ok,
  ◌==◌,
}
use virtio_mem_windows_servi.VirtioMem.{VirtioMemState, validate_target}
use virtio_mem_windows_servi.Checkpoint.{DurableControlState, is_latched}
use virtio_mem_windows_servi.Runtime.{
  DeviceCommand, request_resize, retarget_pending, widen_usable_region, Effect, read_state,
  read_unix_clock, read_instant, read_guest, read_host_memory, read_stop, saved, save_failed,
  commanded, published, Trace,
}

-- The control state that was saved last.
unfoldable pub last_saved : Trace → Option DurableControlState
last_saved [] = none
last_saved (read_state ∷ t) = last_saved t
last_saved (read_unix_clock ∷ t) = last_saved t
last_saved (read_instant ∷ t) = last_saved t
last_saved (read_guest ∷ t) = last_saved t
last_saved (read_host_memory ∷ t) = last_saved t
last_saved (read_stop ∷ t) = last_saved t
last_saved (saved c ∷ t) = some c
last_saved (save_failed c ∷ t) = last_saved t
last_saved (commanded command state ∷ t) = last_saved t
last_saved (published status ∷ t) = last_saved t

-- No save of the history holds a latch.
unfoldable pub never_latched : Trace → Bool
never_latched [] = true
never_latched (read_state ∷ t) = never_latched t
never_latched (read_unix_clock ∷ t) = never_latched t
never_latched (read_instant ∷ t) = never_latched t
never_latched (read_guest ∷ t) = never_latched t
never_latched (read_host_memory ∷ t) = never_latched t
never_latched (read_stop ∷ t) = never_latched t
never_latched (saved c ∷ t) = not (is_latched c) && never_latched t
never_latched (save_failed c ∷ t) = not (is_latched c) && never_latched t
never_latched (commanded command state ∷ t) = never_latched t
never_latched (published status ∷ t) = never_latched t

-- The control state records a command to the target.
unfoldable pub records : ℕ → DurableControlState → Bool
records target c = is_some_and c.intent (λ intent. intent.target_bytes == target)

-- It holds an admitted request without a result.
unfoldable pub awaits_result : DurableControlState → Bool
awaits_result c = is_some c.journal.request && is_none c.journal.result

-- What must have been saved before a command, for the device state that it expects.
unfoldable pub prepared : DeviceCommand → VirtioMemState → Trace → Bool
unfolding last_saved records awaits_result
prepared (request_resize target) state t =
    is_ok (validate_target state target)
    && state.requested_bytes == state.current_bytes
    && is_some_and (last_saved t) (λ c. records target c && awaits_result c)
prepared (retarget_pending target) state t =
    is_ok (validate_target state target) && is_some_and (last_saved t) (λ c. records target c)
prepared widen_usable_region state t = state.requested_bytes == state.current_bytes

unfoldable pub permitted : Bool → Effect → Trace → Bool
unfolding never_latched prepared
permitted observe_only (commanded command state) t =
    not observe_only && never_latched t && prepared command state t
permitted observe_only read_state t = true
permitted observe_only read_unix_clock t = true
permitted observe_only read_instant t = true
permitted observe_only read_guest t = true
permitted observe_only read_host_memory t = true
permitted observe_only read_stop t = true
permitted observe_only (saved c) t = true
permitted observe_only (save_failed c) t = true
permitted observe_only (published status) t = true

-- Every command of the history was permitted when it was given.
unfoldable pub disciplined : Bool → Trace → Bool
unfolding permitted
disciplined observe_only [] = true
disciplined observe_only (e ∷ t) = permitted observe_only e t && disciplined observe_only t

-- A latched controller owes no result.
unfoldable pub answered : DurableControlState → Bool
answered c = not (is_latched c) || is_none c.journal.request || is_some c.journal.result
