-- ===== src/ResizeSink/Guarded.antt =====
-- host/src/resize_sink.rs, `request_resize_guarded` and `retarget_pending_guarded`.
use virtio_mem_windows_servi.Prelude.{
  ℕ, ◌≡◌, ◌≢◌, ◌↔◌, ◌⊎◌, Bool, true, Result, ok, err, arith, Text,
}
use virtio_mem_windows_servi.VirtioMem.{VirtioMemState}
use virtio_mem_windows_servi.ResizeSink.{
  rejected, command_unknown, Calls, Virsh, state_eq, is_converged, still_converged, still_pending,
  Outcome, request_resize_guarded, retarget_pending_guarded,
}
use virtio_mem_windows_servi.ResizeSink.Requests.{issued, Ran, Ends, authorized-Ends}

state_eq_iff : (a b : VirtioMemState) → (state_eq a b ≡ true) ↔ (a ≡ b)
unfolding state_eq
state_eq_iff a b = ground arith

still_converged_iff :
    (expected state : VirtioMemState)
    → (still_converged expected state ≡ true)
      ↔ ((state ≡ expected) × (state.requested_bytes ≡ state.current_bytes))
unfolding still_converged is_converged
still_converged_iff expected state = ground (arith, state_eq_iff state expected)

still_pending_iff :
    (expected state : VirtioMemState)
    → (still_pending expected state ≡ true)
      ↔ ((state ≡ expected) × (state.requested_bytes ≢ state.current_bytes))
unfolding still_pending is_converged
still_pending_iff expected state = ground (arith, state_eq_iff state expected)

module _ (virsh : Virsh) (expected : VirtioMemState) (target : ℕ) (t : Calls) where
  -- The command of a resize, and the device that was read right before it.
  pub record Resized (t' : Calls) : Type 0 where
    pub ran : Ran virsh target (still_converged expected) t t'
    pub live : ran.prepared.snapshot.memory ≡ expected
    pub converged :
        ran.prepared.snapshot.memory.requested_bytes ≡ ran.prepared.snapshot.memory.current_bytes

  -- The command of a retarget, and the device that was read right before it.
  pub record Retargeted (t' : Calls) : Type 0 where
    pub ran : Ran virsh target (still_pending expected) t t'
    pub live : ran.prepared.snapshot.memory ≡ expected
    pub pending :
        ran.prepared.snapshot.memory.requested_bytes ≢ ran.prepared.snapshot.memory.current_bytes

  -- What has run, unless the operation was rejected.
  abbrev pub UnlessRejected : (Calls → Type 0) → Outcome → Type 0
  UnlessRejected Done (ok _, t') = Done t'
  UnlessRejected Done (err (command_unknown e), t') = Done t'
  UnlessRejected Done (err (rejected e), t') = issued t' ≡ issued t

  Ran-Resized : (t' : Calls) → Ran virsh target (still_converged expected) t t' → Resized t'
  Ran-Resized t' r =
      let met =
        (still_converged_iff expected r.prepared.snapshot.memory).0 r.prepared.precondition_met in
      record { ran = r; live = met.0; converged = met.1 }

  Ran-Retargeted : (t' : Calls) → Ran virsh target (still_pending expected) t t' → Retargeted t'
  Ran-Retargeted t' r =
      let met =
        (still_pending_iff expected r.prepared.snapshot.memory).0 r.prepared.precondition_met in
      record { ran = r; live = met.0; pending = met.1 }

  ended :
      (Done : Calls → Type 0) (pre : VirtioMemState → Bool)
      → ((t' : Calls) → Ran virsh target pre t t' → Done t')
      → (o : Outcome) → Ends virsh target pre t o
      → UnlessRejected Done o
  ended Done pre f (ok _, t') k = f t' k
  ended Done pre f (err (command_unknown e), t') k = f t' k
  ended Done pre f (err (rejected e), t') k = k

  -- A resize that is rejected has called virsh for nothing but the device's XML. Otherwise it was
  -- authorized and has issued one more command, the update to the target in KiB, which may have failed;
  -- and before it the evidence, merged with the device's, confirmed that it may be resized, and the live
  -- device was the expected one, converged, and accepted the target.
  pub request_resize_outcome :
      (authorized : Result Text (Unit {0}))
      → UnlessRejected Resized (request_resize_guarded virsh expected target authorized t)
        × ((authorized ≡ ok tt)
            ⊎ (issued (request_resize_guarded virsh expected target authorized t).1 ≡ issued t))
  unfolding request_resize_guarded
  request_resize_outcome authorized =
      let k = authorized-Ends virsh target (still_converged expected) t authorized in
      (ended Resized (still_converged expected) Ran-Resized _ k.0, k.1)

  -- The same for a retarget, whose device is the expected one and not converged.
  pub retarget_outcome :
      UnlessRejected Retargeted (retarget_pending_guarded virsh expected target t)
  unfolding retarget_pending_guarded
  retarget_outcome =
      ended Retargeted (still_pending expected) Ran-Retargeted _
        (authorized-Ends virsh target (still_pending expected) t (ok tt)).0
