-- ===== src/Checkpoint/Movement.antt =====
-- host/src/checkpoint.rs, `command_ownership` and `movement_result`: how live state is attributed to the
-- recorded command, and the result it gives the admitted request.
use virtio_mem_windows_servi.Prelude.{
  ℕ, ◌-◌, ◌≤◌, ◌<◌, ◌≡◌, refl, ◌≢◌, ◌↔◌, ◌⊎◌, inl, inr, true, false, Option, none, some, ok, arith,
  min, ◌==◌, if◌then◌else◌, is_some_and, Text, Bool-cases,
}
use virtio_mem_windows_servi.VirtioMem.{VirtioMemState}
use virtio_mem_windows_servi.MemoryRequest.{
  MemoryOperation, add, remove, MemoryRequest, MemoryResult, completed, partial, terminal,
  bad_reason, validate_result,
}
use virtio_mem_windows_servi.MemoryRequest.Checks.{IsRequest, Means, validate_result_iff}
use virtio_mem_windows_servi.Journal.{MemoryRequestJournal}
use virtio_mem_windows_servi.Status.{
  CommandOwnership, unowned, owned_pending, owned_converged_unresolved, unowned_pending,
  recorded_not_applied, conflict,
}
use virtio_mem_windows_servi.Checkpoint.{
  CommandIntent, command_ownership, moved_bytes, movement_result,
}

-- The device is where it was before the command.
abbrev pub AtPrior : CommandIntent → VirtioMemState → Type 0
AtPrior intent live =
    (live.requested_bytes ≡ intent.prior_requested_bytes)
    × (live.current_bytes ≡ intent.prior_current_bytes)

abbrev pub Owns : CommandOwnership → Option CommandIntent → VirtioMemState → Type 0
Owns unowned none live = live.requested_bytes ≡ live.current_bytes
Owns unowned (some intent) live = ⊥
Owns unowned_pending none live = live.requested_bytes ≢ live.current_bytes
Owns unowned_pending (some intent) live = ⊥
Owns owned_converged_unresolved none live = ⊥
Owns owned_converged_unresolved (some intent) live =
    (live.requested_bytes ≡ intent.target_bytes) × (live.current_bytes ≡ intent.target_bytes)
Owns owned_pending none live = ⊥
Owns owned_pending (some intent) live =
    (live.requested_bytes ≡ intent.target_bytes) × (live.current_bytes ≢ intent.target_bytes)
Owns recorded_not_applied none live = ⊥
Owns recorded_not_applied (some intent) live =
    (live.requested_bytes ≢ intent.target_bytes) × AtPrior intent live
Owns conflict none live = ⊥
Owns conflict (some intent) live =
    (live.requested_bytes ≢ intent.target_bytes)
    × ((live.requested_bytes ≢ intent.prior_requested_bytes)
        ⊎ (live.current_bytes ≢ intent.prior_current_bytes))

-- The ownership of a command is the one class that describes the recorded intent and the live state:
-- the six classes exclude one another and cover every case.
pub command_ownership_iff :
    (o : CommandOwnership) (intent : Option CommandIntent) (live : VirtioMemState)
    → (command_ownership intent live ≡ o) ↔ Owns o intent live
unfolding command_ownership
command_ownership_iff unowned none live = ground arith
command_ownership_iff unowned (some intent) live = ground arith
command_ownership_iff unowned_pending none live = ground arith
command_ownership_iff unowned_pending (some intent) live = ground arith
command_ownership_iff owned_converged_unresolved none live = ground arith
command_ownership_iff owned_converged_unresolved (some intent) live = ground arith
command_ownership_iff owned_pending none live = ground arith
command_ownership_iff owned_pending (some intent) live = ground arith
command_ownership_iff recorded_not_applied none live = ground arith
command_ownership_iff recorded_not_applied (some intent) live = ground arith
command_ownership_iff conflict none live = ground arith
command_ownership_iff conflict (some intent) live = ground arith

outcome-Means :
    (q : MemoryResult) (r : MemoryRequest)
    → q.actual_bytes ≤ r.bytes
    → Means (if q.actual_bytes == r.bytes then completed else partial) q r
outcome-Means q r le = elim (Bool-cases (q.actual_bytes == r.bytes)) [
  | inl e ↦ ground arith
  | inr e ↦ ground arith
]

-- The bytes that the device moved from where the command started: up for an addition, down for a removal.
abbrev pub MovedBy : MemoryOperation → CommandIntent → VirtioMemState → ℕ → Type 0
MovedBy add intent live moved = moved ≡ live.current_bytes - intent.prior_current_bytes
MovedBy remove intent live moved = moved ≡ intent.prior_current_bytes - live.current_bytes

moved_bytes-MovedBy :
    (op : MemoryOperation) (intent : CommandIntent) (live : VirtioMemState)
    → MovedBy op intent live (moved_bytes op intent live)
unfolding moved_bytes
moved_bytes-MovedBy add intent live = refl
moved_bytes-MovedBy remove intent live = refl

-- What `movement_result` gives a request.
pub record Settles (r : MemoryRequest) (intent : CommandIntent) (live : VirtioMemState)
    (q : MemoryResult) : Type 0 where
  pub accepted : validate_result q r ≡ ok tt
  pub final : terminal q ≡ true
  pub moved : ℕ
  pub direction : MovedBy r.operation intent live moved
  pub bytes : q.actual_bytes ≡ min moved r.bytes
  pub full : (q.outcome ≡ completed) ↔ (r.bytes ≤ moved)

-- Where the time is past the epoch and the reason, if any, is one that results accept, the movement of
-- a command gives the valid request that was admitted a terminal result. It is accepted for the request
-- and counts the bytes by which the device rose above, for an addition, or fell below, for a removal,
-- the size that the command started from, at most those asked for; it says completed exactly when they
-- were all moved.
pub movement_result-Settles :
    (j : MemoryRequestJournal) (r : MemoryRequest) (intent : CommandIntent) (live : VirtioMemState)
    (observed : ℕ) (reason : Option Text)
    → j.request ≡ some r
    → IsRequest r
    → 0 < observed
    → is_some_and reason bad_reason ≡ false
    → (q : MemoryResult) × (movement_result j intent live observed reason ≡ some q)
      × Settles r intent live q
unfolding movement_result terminal
movement_result-Settles j r intent live observed reason held v o good =
    let moved : ℕ = min (moved_bytes r.operation intent live) r.bytes in
    let q : MemoryResult = record {
      request = r;
      outcome = if moved == r.bytes then completed else partial;
      actual_bytes = moved;
      observed_unix_millis = observed;
      reason = reason;
    } in
    let most : moved ≤ r.bytes = ground arith in
    (
      q,
      ground (arith, held),
      record {
        accepted = (validate_result_iff q r).1 (record {
          request = refl;
          valid = v;
          observed = o;
          at_most = most;
          reason = good;
          means = outcome-Means q r most;
        });
        final = ground arith;
        moved = moved_bytes r.operation intent live;
        direction = moved_bytes-MovedBy r.operation intent live;
        bytes = refl;
        full = ground arith;
      },
    )
