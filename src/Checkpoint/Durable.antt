-- ===== src/Checkpoint/Durable.antt =====
-- host/src/checkpoint.rs, `load`, `open_with` and `save`: what a checkpoint file keeps across a restart.
use virtio_mem_windows_servi.Config.{HostConfig}
use virtio_mem_windows_servi.Prelude.{
  ℕ, ◌≤◌, ◌≡◌, refl, sym, subst, ◌⊎◌, inl, inr, Bool, true, false, Option, none, some, List, length,
  ok, arith, ltb, is_empty, is_some_and, is_ok, Text, text_eq_iff, trim, Bool-cases, Option-cases,
  Result-cases,
}
use virtio_mem_windows_servi.Journal.{validate_journal}
use virtio_mem_windows_servi.Journal.Replay.{IsJournal}
use virtio_mem_windows_servi.Checkpoint.{
  CheckpointFile, Checkpoint, DurableControlState, Disk, Writing, without_parent, before_rename,
  before_flush, complete, checkpoint_version, max_checkpoint_bytes, is_pending, is_latched,
  default_control,
}
use virtio_mem_windows_servi.Checkpoint.Operations.{
  check_file, load, recovered, saved_file, persist, save, open_with,
}

-- A checkpoint file of this VM and alias whose control state is valid.
pub record IsCheckpoint (vm alias : Text) (file : CheckpointFile) : Type 0 where
  pub version : file.version ≡ checkpoint_version
  pub vm_name : file.vm_name ≡ vm
  pub device_alias : file.device_alias ≡ alias
  pub journal : IsJournal file.control.journal
  pub intent : is_some_and file.control.intent (λ i. is_empty (trim i.operation_id)) ≡ false

pub check_file-IsCheckpoint :
    (vm alias : Text) (file : CheckpointFile)
    → IsCheckpoint vm alias file
    → check_file vm alias file ≡ ok (some file)
unfolding check_file
check_file-IsCheckpoint vm alias file c = ground (
  arith,
  text_eq_iff file.vm_name vm,
  text_eq_iff file.device_alias alias,
  c.version,
  c.vm_name,
  c.device_alias,
  c.journal,
  c.intent,
)

-- The file holds the control state under the names, the fingerprint and the clear reason of the handle.
pub record Holds (c : Checkpoint) (control : DurableControlState) (file : CheckpointFile)
    : Type 0 where
  pub vm_name : file.vm_name ≡ c.vm_name
  pub device_alias : file.device_alias ≡ c.device_alias
  pub fingerprint : file.compatibility_fingerprint_sha256 ≡ c.compatibility_fingerprint
  pub latch_reason : file.control.latch_reason ≡ control.latch_reason
  pub intent : file.control.intent ≡ control.intent
  pub journal : file.control.journal ≡ control.journal
  pub clear_reason : file.last_latch_clear_reason ≡ c.last_latch_clear_reason

saved-Holds :
    (c : Checkpoint) (control : DurableControlState) → Holds c control (saved_file c control)
unfolding saved_file
saved-Holds c control = record {
  vm_name = refl;
  device_alias = refl;
  fingerprint = refl;
  latch_reason = refl;
  intent = refl;
  journal = refl;
  clear_reason = refl;
}

saved-IsCheckpoint :
    (c : Checkpoint) (control : DurableControlState)
    → IsJournal control.journal
    → is_some_and control.intent (λ i. is_empty (trim i.operation_id)) ≡ false
    → IsCheckpoint c.vm_name c.device_alias (saved_file c control)
unfolding saved_file
saved-IsCheckpoint c control j i = record {
  version = refl;
  vm_name = refl;
  device_alias = refl;
  journal = j;
  intent = i;
}

module _ (encode : CheckpointFile → List ℕ) (decode : List ℕ → Option CheckpointFile)
    (codec : (file : CheckpointFile) → decode (encode file) ≡ some file) where
  pub load-encode :
      (vm alias : Text) (file : CheckpointFile)
      → IsCheckpoint vm alias file
      → length (encode file) ≤ max_checkpoint_bytes
      → load encode decode (some (encode file)) vm alias ≡ ok (some file)
  unfolding load
  load-encode vm alias file c small =
      ground (arith, codec file, check_file-IsCheckpoint vm alias file c, small)

  pub save_whole :
      (w : Writing) (disk : Disk) (c : Checkpoint) (control : DurableControlState) (vm alias : Text)
      → IsCheckpoint vm alias (saved_file c control)
      → (((save encode decode w disk c control).0 ≡ disk)
          × (is_ok (save encode decode w disk c control).1 ≡ false))
        ⊎ (load encode decode (save encode decode w disk c control).0 vm alias
            ≡ ok (some (saved_file c control)))
  unfolding save persist
  save_whole without_parent disk c control vm alias v = inl (ground arith)
  save_whole before_rename disk c control vm alias v = inl (ground arith)
  save_whole before_flush disk c control vm alias v =
      elim (Bool-cases (ltb max_checkpoint_bytes (length (encode (saved_file c control))))) [
        | inl e ↦ inl (ground (arith, e))
        | inr e ↦
            inr
              (ground (arith, e, load-encode vm alias (saved_file c control) v (ground (arith, e))))
      ]
  save_whole complete disk c control vm alias v =
      elim (Bool-cases (ltb max_checkpoint_bytes (length (encode (saved_file c control))))) [
        | inl e ↦ inl (ground (arith, e))
        | inr e ↦
            inr
              (ground (arith, e, load-encode vm alias (saved_file c control) v (ground (arith, e))))
      ]

  -- Given that renaming replaces the file as a whole and that decoding gives back what was encoded:
  -- a save of a valid journal and a command with an identifier, wherever it stops, fails and leaves
  -- the disk as it was, or leaves a file that loads for its VM and alias with exactly this control
  -- state, fingerprint and clear reason. So a save that succeeds is read back whole.
  pub save_atomic :
      (w : Writing) (disk : Disk) (c : Checkpoint) (control : DurableControlState)
      → IsJournal control.journal
      → is_some_and control.intent (λ i. is_empty (trim i.operation_id)) ≡ false
      → (((save encode decode w disk c control).0 ≡ disk)
          × (is_ok (save encode decode w disk c control).1 ≡ false))
        ⊎ ((file : CheckpointFile) × (load encode decode
                (save encode decode w disk c control).0
                c.vm_name
                c.device_alias
              ≡ ok (some file))
            × Holds c control file)
  save_atomic w disk c control j i =
      elim (save_whole w disk c control c.vm_name c.device_alias
        (saved-IsCheckpoint c control j i)) [
          | inl kept ↦ inl kept
          | inr read ↦ inr (saved_file c control, read, saved-Holds c control)
        ]

check_file-ok :
    (vm alias : Text) (file : CheckpointFile) (o : Option CheckpointFile)
    → check_file vm alias file ≡ ok o
    → (o ≡ some file) × IsJournal file.control.journal
unfolding check_file
check_file-ok vm alias file o h = (ground arith, ground arith)

-- What `open_with` has found on disk.
pub record Opened (config : HostConfig) (fingerprint : Text) (migrate : Bool)
    (found : Option CheckpointFile) (c : Checkpoint) (control : DurableControlState) : Type 0 where
  pub vm_name : c.vm_name ≡ config.vm_name
  pub device_alias : c.device_alias ≡ config.alias
  pub stamp : c.compatibility_fingerprint ≡ fingerprint
  pub journal : IsJournal control.journal
  pub state :
      ((found ≡ none) × (is_pending control ≡ false))
      ⊎ ((file : CheckpointFile) × (found ≡ some file)
          × (file.control ≡ control)
          × ((file.compatibility_fingerprint_sha256 ≡ fingerprint)
              ⊎ (is_pending control ≡ false)
              ⊎ (migrate ≡ true)))

module _ (encode : CheckpointFile → List ℕ) (decode : List ℕ → Option CheckpointFile) where
  load-journal :
      (disk : Disk) (vm alias : Text) (file : CheckpointFile)
      → load encode decode disk vm alias ≡ ok (some file)
      → IsJournal file.control.journal
  unfolding load
  load-journal none vm alias file h = cc
  load-journal (some bytes) vm alias file h = elim (Option-cases (decode bytes)) [
    | inl e ↦ absurd (ground (arith, e))
    | inr (f, e) ↦
        let checked : check_file vm alias f ≡ ok (some file) = ground (arith, e, h) in
        let (same, valid) = check_file-ok vm alias f (some file) checked in
        let held : f ≡ file = ground (arith, same) in
        subst (λ x. IsJournal x.control.journal) held valid
  ]

  opened :
      (config : HostConfig) (acquired : Bool) (disk : Disk) (fingerprint : Text) (migrate : Bool)
      (c : Checkpoint) (control : DurableControlState) (found : Option CheckpointFile)
      → load encode decode disk config.vm_name config.alias ≡ ok found
      → open_with encode decode config acquired disk fingerprint migrate ≡ ok (c, control)
      → Opened config fingerprint migrate found c control
  unfolding open_with recovered validate_journal is_pending is_latched
  opened config acquired disk fingerprint migrate c control none l h =
      let fresh : control ≡ default_control = ground (arith, l, h) in
      record {
        vm_name = ground (arith, l, h);
        device_alias = ground (arith, l, h);
        stamp = ground (arith, l, h);
        journal = subst (λ x. IsJournal x.journal) (sym fresh) refl;
        state = inl (refl, subst (λ x. is_pending x ≡ false) (sym fresh) refl);
      }
  opened config acquired disk fingerprint migrate c control (some file) l h =
      let held : file.control ≡ control = ground (arith, l, h) in
      record {
        vm_name = ground (arith, l, h);
        device_alias = ground (arith, l, h);
        stamp = ground (arith, l, h);
        journal =
            subst (λ x. IsJournal x.journal) held
              (load-journal disk config.vm_name config.alias file l);
        state = inr (
          file,
          refl,
          held,
          ground (arith, l, h, text_eq_iff file.compatibility_fingerprint_sha256 fingerprint),
        );
      }

  -- Opening succeeds with a valid journal; control state that is pending on disk is resumed only
  -- under the evidence it was recorded with, unless the operator migrates it.
  pub open_with-Opened :
      (config : HostConfig) (acquired : Bool) (disk : Disk) (fingerprint : Text) (migrate : Bool)
      (c : Checkpoint) (control : DurableControlState)
      → open_with encode decode config acquired disk fingerprint migrate ≡ ok (c, control)
      → (found : Option CheckpointFile) × (load encode decode disk config.vm_name config.alias
          ≡ ok found)
        × Opened config fingerprint migrate found c control
  open_with-Opened config acquired disk fingerprint migrate c control h =
      elim (Result-cases (load encode decode disk config.vm_name config.alias)) [
        | inl (found, e) ↦
            (found, e, opened config acquired disk fingerprint migrate c control found e h)
        | inr (x, e) ↦ absurd (unfold open_with in ground (arith, e, h))
      ]
