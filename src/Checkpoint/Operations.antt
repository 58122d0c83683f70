-- ===== src/Checkpoint/Operations.antt =====
-- host/src/checkpoint.rs, the operations on the checkpoint file: load, open, save and clear-latch. The
-- encoding is serde_json's: a parameter. The lock of ownership.rs is whether it was acquired.
use virtio_mem_windows_servi.Config.{HostConfig}
use virtio_mem_windows_servi.Prelude.{
  ℕ, Bool, true, not, ◌&&◌, ◌||◌, Option, none, some, List, length, ◌++◌, Result, ok, err, ◌>>=◌,
  ◌>>◌, fail_if, map_err, ltb, ◌==◌, if◌then◌else◌, any, is_empty, is_some, is_some_and, map_option,
  Text, text_eq, trim, byte_len, is_control, codes,
}
use virtio_mem_windows_servi.VirtioMem.{VirtioMemState, VirtioMemError}
use virtio_mem_windows_servi.VirtioMem
use virtio_mem_windows_servi.MemoryRequest.{MemoryResult, rejection}
use virtio_mem_windows_servi.Journal.{MemoryRequestJournal, validate_journal, record_result}
use virtio_mem_windows_servi.Checkpoint.{
  checkpoint_version, max_checkpoint_bytes, DurableControlState, default_control, is_latched,
  unresolved, is_pending, CheckpointFile, Checkpoint, CheckpointError, movement_result, Disk,
  Writing, without_parent, before_rename, before_flush, complete, ClearMessage, not_acquired,
  oversized, invalid, foreign, invalid_intent, attestation_changed, exceeds_limit, no_parent,
  not_written, not_flushed, invalid_clear_reason, divergent, not_latched, device, journal,
}

-- The checks of `load` on the decoded file.
unfoldable pub check_file :
    Text → Text → CheckpointFile → Result CheckpointError (Option CheckpointFile)
check_file vm alias file = do
  fail_if
      (not (file.version == checkpoint_version)
        || not (text_eq file.vm_name vm)
        || not (text_eq file.device_alias alias))
      foreign
  map_err journal (validate_journal file.control.journal)
  fail_if (is_some_and file.control.intent (λ intent. is_empty (trim intent.operation_id)))
      invalid_intent
  ok (some file)

-- `file.map(..).unwrap_or_default()`.
unfoldable pub recovered : Option CheckpointFile → DurableControlState × Option Text
recovered none = (default_control, none)
recovered (some file) = (file.control, file.last_latch_clear_reason)

-- What `Checkpoint::save` writes.
unfoldable pub saved_file : Checkpoint → DurableControlState → CheckpointFile
saved_file c control = record {
  version = checkpoint_version;
  vm_name = c.vm_name;
  device_alias = c.device_alias;
  compatibility_fingerprint_sha256 = c.compatibility_fingerprint;
  control = control;
  last_latch_clear_reason = c.last_latch_clear_reason;
}

-- The result that an operator's clearing gives an unresolved request.
unfoldable pub operator_result :
    DurableControlState → VirtioMemState → Text → ℕ → Option MemoryResult
unfolding movement_result
operator_result control live reason observed =
    let operator = codes "operator cleared the latch: " ++ reason in
    elim control.intent [
      | some intent ↦ movement_result control.journal intent live observed (some operator)
      | none ↦ map_option (λ request. rejection request observed operator) control.journal.request
    ]

-- The journal that `clear_actuation_latch` saves.
unfoldable pub settle_journal :
    DurableControlState → VirtioMemState → Text → ℕ → Result CheckpointError MemoryRequestJournal
unfolding operator_result
settle_journal control live reason observed =
    if is_some control.journal.request && unresolved control.journal.result
    then elim (operator_result control live reason observed) [
      | none ↦ ok control.journal
      | some result ↦ map_err journal (record_result control.journal result)
    ]
    else ok control.journal

module _ (encode : CheckpointFile → List ℕ) (decode : List ℕ → Option CheckpointFile) where
  -- `load`.
  unfoldable pub load : Disk → Text → Text → Result CheckpointError (Option CheckpointFile)
  unfolding check_file
  load none vm alias = ok none
  load (some bytes) vm alias = do
    fail_if (ltb max_checkpoint_bytes (length bytes)) oversized
    elim (decode bytes) [ none ↦ err invalid | some file ↦ check_file vm alias file ]

  -- `Checkpoint::open_with`, and `Checkpoint::open` where evidence is not migrated.
  unfoldable pub open_with :
      HostConfig
      → Bool
      → Disk
      → Text
      → Bool
      → Result CheckpointError (Checkpoint × DurableControlState)
  unfolding load is_pending recovered
  open_with config acquired disk fingerprint migrate_evidence = do
    fail_if (not acquired) not_acquired
    file ← load disk config.vm_name config.alias
    fail_if
        (is_some_and file (λ f.
          not (text_eq f.compatibility_fingerprint_sha256 fingerprint)
          && is_pending f.control
          && not migrate_evidence))
        attestation_changed
    let (control, last) = recovered file
    ok (
      record {
        vm_name = config.vm_name;
        device_alias = config.alias;
        compatibility_fingerprint = fingerprint;
        last_latch_clear_reason = last;
      },
      control,
    )

  -- `persist`: the file after it, and its result.
  unfoldable pub persist :
      Writing → Disk → CheckpointFile → Disk × Result CheckpointError (Unit {0})
  persist w disk file =
      let bytes = encode file in
      if ltb max_checkpoint_bytes (length bytes) then (disk, err exceeds_limit) else elim w [
        | without_parent ↦ (disk, err no_parent)
        | before_rename ↦ (disk, err not_written)
        | before_flush ↦ (some bytes, err not_flushed)
        | complete ↦ (some bytes, ok tt)
      ]

  -- `Checkpoint::save`.
  unfoldable pub save :
      Writing → Disk → Checkpoint → DurableControlState → Disk × Result CheckpointError (Unit {0})
  unfolding persist saved_file
  save w disk c control = persist w disk (saved_file c control)

  -- `clear_actuation_latch` up to `if apply`, with the trimmed reason.
  unfoldable pub review_latch :
      HostConfig
      → Bool
      → Disk
      → VirtioMemState
      → Text
      → Text
      → Result CheckpointError (Checkpoint × DurableControlState)
  unfolding open_with is_latched
  review_latch config acquired disk live fingerprint reason = do
    fail_if (is_empty reason || ltb 256 (byte_len reason) || any is_control reason)
        invalid_clear_reason
    map_err device (VirtioMem.validate live)
    fail_if (not (live.requested_bytes == live.current_bytes)) divergent
    (checkpoint, control) ← open_with config acquired disk fingerprint true
    fail_if (not (is_latched control)) not_latched
    ok (checkpoint, control)

  -- The body of `if apply`: the file after it, and its result.
  unfoldable pub apply_clear :
      Writing
      → Disk
      → Checkpoint
      → DurableControlState
      → VirtioMemState
      → Text
      → ℕ
      → Disk × Result CheckpointError (Unit {0})
  unfolding settle_journal save
  apply_clear w disk checkpoint control live reason observed =
      elim (settle_journal control live reason observed) [
        | err e ↦ (disk, err e)
        | ok settled ↦
            save w disk (record checkpoint { last_latch_clear_reason = some reason })
              (record { latch_reason = none; intent = none; journal = settled })
      ]

  -- `clear_actuation_latch`: the file after it, and its result.
  unfoldable pub clear_actuation_latch :
      HostConfig
      → Bool
      → Writing
      → Disk
      → VirtioMemState
      → Text
      → Text
      → ℕ
      → Bool
      → Disk × Result CheckpointError ClearMessage
  unfolding review_latch apply_clear trim
  clear_actuation_latch config acquired w disk live fingerprint text observed apply =
      let reason = trim text in
      let message : ClearMessage = record {
        vm_name = config.vm_name;
        device_alias = config.alias;
        requested_bytes = live.requested_bytes;
        current_bytes = live.current_bytes;
        reason = reason;
      } in
      elim (review_latch config acquired disk live fingerprint reason) [
        | err e ↦ (disk, err e)
        | ok (checkpoint, control) ↦
            if apply
            then (let (after, saved) = apply_clear w disk checkpoint control live reason observed in
                (after, saved >> ok message))
            else (disk, ok message)
      ]
