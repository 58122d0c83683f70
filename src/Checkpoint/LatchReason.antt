-- ===== src/Checkpoint/LatchReason.antt =====
-- host/src/checkpoint.rs, `read_controller_status`: the reason of a latch within the status contract of
-- controller_status.rs.
use virtio_mem_windows_servi.Config.{HostConfig}
use virtio_mem_windows_servi.Prelude.{
  ℕ, ◌+◌, ◌<◌, ◌≡◌, refl, inl, inr, Bool, not, text_eq, false, Option, some, List, [], ◌∷◌, ◌++◌,
  ok, err, arith, is_ok, Text, codes, byte_len, Result-cases, >>-eq-ok,
}
use virtio_mem_windows_servi.VirtioMem.{VirtioMemState}
use virtio_mem_windows_servi.VirtioMem
use virtio_mem_windows_servi.Status.{
  CommandOwnership, ControllerStatusSnapshot, ControllerStatusError, GuestInputStatus,
  validate_snapshot, validate_ownership, validate_reasons, validate_live, validate_exchange,
  validate_optional_reason, bad_status_reason,
}
use virtio_mem_windows_servi.Checkpoint.{
  CheckpointFile, Disk, DurableControlState, command_ownership,
}
use virtio_mem_windows_servi.Checkpoint.Operations.{load, recovered}
use virtio_mem_windows_servi.Checkpoint.Report.{snapshot, read_controller_status, recovery_reason}

byte_len-append : (s t : Text) → byte_len (s ++ t) ≡ byte_len s + byte_len t
unfolding byte_len
byte_len-append [] t = omega arith
byte_len-append (c ∷ s) t = omega (arith, byte_len-append s t)

accepted_recovery :
    (s : ControllerStatusSnapshot)
    → validate_snapshot s ≡ ok tt
    → validate_optional_reason s.recovery_reason ≡ ok tt
unfolding validate_snapshot validate_reasons
accepted_recovery s h =
    let (_, h1) = >>-eq-ok (validate_live s) _ h in
    let (_, h2) = >>-eq-ok (validate_exchange s.admitted_request s.result) _ h1 in
    let (_, h3) = >>-eq-ok (validate_ownership s) _ h2 in
    let (_, h4) = >>-eq-ok (validate_optional_reason s.latch_reason) _ h3 in
    (>>-eq-ok (validate_optional_reason s.recovery_reason) _ h4).0

recovery_of_latch :
    (control : DurableControlState) (changed : Bool) (o : CommandOwnership) (reason : Text)
    → control.latch_reason ≡ some reason
    → recovery_reason control changed o ≡ some (codes "actuation_latched: " ++ reason)
unfolding recovery_reason
recovery_of_latch control changed o reason held = ground (arith, held)

too_long : (t : Text) → 1024 < byte_len t → is_ok (validate_optional_reason (some t)) ≡ false
unfolding validate_optional_reason bad_status_reason
too_long t h = ground (arith, h)

long_latch_invalid :
    (config : HostConfig) (live : VirtioMemState) (guest_input : GuestInputStatus)
    (fingerprint : Text) (observed : ℕ) (changed : Bool) (control : DurableControlState)
    (last : Option Text) (reason : Text)
    → control.latch_reason ≡ some reason
    → 1005 < byte_len reason
    → (x : ControllerStatusError) × (validate_snapshot
          (snapshot config live guest_input fingerprint observed changed control last)
        ≡ err x)
long_latch_invalid config live guest_input fingerprint observed changed control last reason held
      long =
    let s = snapshot config live guest_input fingerprint observed changed control last in
    elim (Result-cases (validate_snapshot s)) [
      | inl (_, e) ↦ absurd (
          let long_reason = codes "actuation_latched: " ++ reason in
          let measured : byte_len long_reason ≡ 19 + byte_len reason =
            unfold byte_len in byte_len-append (codes "actuation_latched: ") reason in
          let built : s.recovery_reason ≡ some long_reason =
            unfold snapshot in
            recovery_of_latch control changed (command_ownership control.intent live) reason held in
          let refused = too_long long_reason (omega (arith, measured, long)) in
          let accepted = accepted_recovery s e in ground (arith, built, refused, accepted))
      | inr refused ↦ refused
    ]

module _ (encode : CheckpointFile → List ℕ) (decode : List ℕ → Option CheckpointFile) where
  -- While the checkpoint is latched with a reason of more than 1005 bytes, though one of 1024 is allowed
  -- where latches are set, no status can be read: the recovery reason that is built from it with a
  -- prefix of 19 bytes is over the limit of the status contract.
  pub long_latch_unreportable :
      (config : HostConfig) (disk : Disk) (live : VirtioMemState) (guest_input : GuestInputStatus)
      (fingerprint : Text) (observed : ℕ) (file : CheckpointFile) (reason : Text)
      → load encode decode disk config.vm_name config.alias ≡ ok (some file)
      → file.control.latch_reason ≡ some reason
      → 1005 < byte_len reason
      → is_ok
          (read_controller_status encode decode config disk live guest_input fingerprint observed)
        ≡ false
  unfolding read_controller_status recovered
  long_latch_unreportable config disk live guest_input fingerprint observed file reason l held
        long =
      let changed = not (text_eq file.compatibility_fingerprint_sha256 fingerprint) in
      let (x, invalid) =
        long_latch_invalid config live guest_input fingerprint observed changed file.control
          file.last_latch_clear_reason reason held long in
      elim (Result-cases (VirtioMem.validate live)) [
        | inl (_, v) ↦ rw (v, l) (rw invalid refl)
        | inr (y, v) ↦ rw v refl
      ]
