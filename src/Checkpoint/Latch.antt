-- ===== src/Checkpoint/Latch.antt =====
-- host/src/checkpoint.rs, `clear_actuation_latch`: what an operator's clearing leaves behind.
use virtio_mem_windows_servi.Config.{HostConfig}
use virtio_mem_windows_servi.Prelude.{
  ℕ, ◌≡◌, refl, sym, ◌∙◌, subst, ap, ◌⊎◌, inl, inr, Bool, true, false, ◌&&◌, Option, none, some,
  List, ok, arith, is_some, is_ok, Text, trim, Bool-cases, Option-cases, Result-cases,
}
use virtio_mem_windows_servi.VirtioMem.{VirtioMemState}
use virtio_mem_windows_servi.MemoryRequest.{MemoryResult, terminal, rejection}
use virtio_mem_windows_servi.Journal.{MemoryRequestJournal, record_result}
use virtio_mem_windows_servi.Journal.Replay.{IsJournal, record_result-Recorded}
use virtio_mem_windows_servi.Journal.Terminal.{record_result-IsJournal}
use virtio_mem_windows_servi.Checkpoint.{
  CheckpointFile, Checkpoint, DurableControlState, Disk, Writing, movement_result, unresolved,
  is_pending, is_latched,
}
use virtio_mem_windows_servi.Checkpoint.Operations.{
  operator_result, settle_journal, saved_file, save, load, open_with, review_latch, apply_clear,
  clear_actuation_latch,
}
use virtio_mem_windows_servi.Checkpoint.Durable.{IsCheckpoint, save_whole, Opened, open_with-Opened}

operator_result-terminal :
    (control : DurableControlState) (live : VirtioMemState) (reason : Text) (observed : ℕ)
    (q : MemoryResult)
    → operator_result control live reason observed ≡ some q
    → terminal q ≡ true
unfolding operator_result movement_result terminal rejection
operator_result-terminal control live reason observed q h = ground arith

-- The journal after a clearing: valid, with the same request, and no longer waiting for a result.
pub record Settled (j k : MemoryRequestJournal) : Type 0 where
  pub journal : IsJournal k
  pub request : k.request ≡ j.request
  pub resolved : is_some k.request && unresolved k.result ≡ false

settle_journal-Settled :
    (control : DurableControlState) (live : VirtioMemState) (reason : Text) (observed : ℕ)
    (k : MemoryRequestJournal)
    → IsJournal control.journal
    → settle_journal control live reason observed ≡ ok k
    → Settled control.journal k
settle_journal-Settled control live reason observed k v h =
    elim (Bool-cases (is_some control.journal.request && unresolved control.journal.result)) [
      | inl e ↦ elim (Option-cases (operator_result control live reason observed)) [
        | inl n ↦ absurd (unfold operator_result movement_result in ground (arith, e, n))
        | inr (q, s) ↦
            let recorded : record_result control.journal q ≡ ok k =
              unfold settle_journal in ground (arith, e, s, h) in
            let c = record_result-Recorded control.journal q k recorded in
            let t = operator_result-terminal control live reason observed q s in
            record {
              journal = record_result-IsJournal control.journal q k recorded;
              request = ground (arith, c.kept, c.held);
              resolved = unfold terminal in ground (arith, c.stored, t);
            }
      ]
      | inr e ↦
          let kept : control.journal ≡ k = unfold settle_journal in ground (arith, e, h) in
          record {
            journal = subst IsJournal kept v;
            request = ap (λ x. x.request) (sym kept);
            resolved = subst (λ x. is_some x.request && unresolved x.result ≡ false) kept e;
          }
    ]

-- What `clear-latch` leaves: the latched state of this VM that was on disk is replaced by one with the
-- same request in which nothing is pending.
pub record Cleared (found file : CheckpointFile) (config : HostConfig) (fingerprint : Text)
    : Type 0 where
  pub was_latched : is_latched found.control ≡ true
  pub same_request : file.control.journal.request ≡ found.control.journal.request
  pub unlatched : is_latched file.control ≡ false
  pub idle : is_pending file.control ≡ false
  pub stamp : file.compatibility_fingerprint_sha256 ≡ fingerprint
  pub checkpoint : IsCheckpoint config.vm_name config.alias file

module _ (encode : CheckpointFile → List ℕ) (decode : List ℕ → Option CheckpointFile) where
  review_latch-Opened :
      (config : HostConfig) (acquired : Bool) (disk : Disk) (live : VirtioMemState)
      (fingerprint reason : Text) (c : Checkpoint) (control : DurableControlState)
      → review_latch encode decode config acquired disk live fingerprint reason ≡ ok (c, control)
      → (is_latched control ≡ true)
        × (open_with encode decode config acquired disk fingerprint true ≡ ok (c, control))
  review_latch-Opened config acquired disk live fingerprint reason c control h =
      elim (Result-cases (open_with encode decode config acquired disk fingerprint true)) [
        | inl ((c', control'), e) ↦ unfold review_latch in ground (arith, e, h)
        | inr (x, e) ↦ absurd (unfold review_latch in ground (arith, e, h))
      ]

  latched_file :
      (config : HostConfig) (acquired : Bool) (disk : Disk) (fingerprint : Text) (c : Checkpoint)
      (control : DurableControlState)
      → is_latched control ≡ true
      → open_with encode decode config acquired disk fingerprint true ≡ ok (c, control)
      → (found : CheckpointFile) × (load encode decode disk config.vm_name config.alias
          ≡ ok (some found))
        × (found.control ≡ control)
        × Opened config fingerprint true (some found) c control
  latched_file config acquired disk fingerprint c control latched h =
      let (found, l, o) =
        open_with-Opened encode decode config acquired disk fingerprint true c control h in
      elim o.state [
        | inl (_, idle) ↦ absurd (unfold is_pending in ground (arith, idle, latched))
        | inr (file, at, same, _) ↦
            (file, l ∙ ap ok at, same, subst (λ f. Opened config fingerprint true f c control) at o)
      ]

saved_file-Cleared :
    (config : HostConfig) (fingerprint reason : Text) (c : Checkpoint)
    (control : DurableControlState) (found : CheckpointFile) (settled : MemoryRequestJournal)
    → Opened config fingerprint true (some found) c control
    → found.control ≡ control
    → is_latched control ≡ true
    → Settled control.journal settled
    → Cleared found
        (saved_file
          (record c { last_latch_clear_reason = some reason })
          (record { latch_reason = none; intent = none; journal = settled }))
        config
        fingerprint
unfolding saved_file is_pending is_latched
saved_file-Cleared config fingerprint reason c control found settled o same latched s = record {
  was_latched = ground (arith, same, latched);
  same_request = s.request ∙ ap (λ x. x.journal.request) (sym same);
  unlatched = refl;
  idle = s.resolved;
  stamp = o.stamp;
  checkpoint = record {
    version = refl;
    vm_name = o.vm_name;
    device_alias = o.device_alias;
    journal = s.journal;
    intent = refl;
  };
}

module _ (encode : CheckpointFile → List ℕ) (decode : List ℕ → Option CheckpointFile)
    (codec : (file : CheckpointFile) → decode (encode file) ≡ some file) where
  -- The file on disk holds the cleared state instead of the latched one.
  abbrev pub Replaced : HostConfig → Text → Disk → Disk → Type 0
  Replaced config fingerprint disk after =
      (found : CheckpointFile) × (file : CheckpointFile) × (load encode decode disk config.vm_name
          config.alias
        ≡ ok (some found))
      × (load encode decode after config.vm_name config.alias ≡ ok (some file))
      × Cleared found file config fingerprint

  apply_clear-Replaced :
      (config : HostConfig) (w : Writing) (disk : Disk) (live : VirtioMemState)
      (fingerprint reason : Text) (observed : ℕ) (c : Checkpoint) (control : DurableControlState)
      (found : CheckpointFile)
      → load encode decode disk config.vm_name config.alias ≡ ok (some found)
      → Opened config fingerprint true (some found) c control
      → found.control ≡ control
      → is_latched control ≡ true
      → (((apply_clear encode decode w disk c control live reason observed).0 ≡ disk)
          × (is_ok (apply_clear encode decode w disk c control live reason observed).1 ≡ false))
        ⊎ Replaced config fingerprint disk
            (apply_clear encode decode w disk c control live reason observed).0
  apply_clear-Replaced config w disk live fingerprint reason observed c control found l o same
        latched =
      elim (Result-cases (settle_journal control live reason observed)) [
        | inl (settled, e) ↦
            let s = settle_journal-Settled control live reason observed settled o.journal e in
            let cleared =
              saved_file-Cleared config fingerprint reason c control found settled o same latched
                s in
            let c' : Checkpoint = record c { last_latch_clear_reason = some reason } in
            let control' : DurableControlState = record {
              latch_reason = none;
              intent = none;
              journal = settled;
            } in
            let at : apply_clear encode decode w disk c control live reason observed
                ≡ save encode decode w disk c' control' =
              unfold apply_clear in ground (arith, e) in
            elim (save_whole encode decode codec w disk c' control' config.vm_name config.alias
              cleared.checkpoint) [
                | inl (kept, failed) ↦
                    inl (ap (λ r. r.0) at ∙ kept, ap (λ r. is_ok r.1) at ∙ failed)
                | inr loads ↦ inr (
                  found,
                  saved_file c' control',
                  l,
                  ap (λ r. load encode decode r.0 config.vm_name config.alias) at ∙ loads,
                  cleared,
                )
              ]
        | inr (x, e) ↦ inl (unfold apply_clear in ground (arith, e))
      ]

  -- `clear-latch` either leaves the file as it was, and then it was a dry run or it reports an error, or
  -- it was applied and the latched state on disk is replaced as a whole: the request it held is kept and
  -- resolved, the latch and the intent are gone and nothing is pending.
  pub clear_latch_outcome :
      (config : HostConfig) (acquired : Bool) (w : Writing) (disk : Disk) (live : VirtioMemState)
      (fingerprint text : Text) (observed : ℕ) (apply : Bool)
      → (((clear_actuation_latch encode decode config acquired w disk live fingerprint text observed
              apply).0
            ≡ disk)
          × ((apply ≡ false)
              ⊎ (is_ok
                    (clear_actuation_latch encode decode config acquired w disk live fingerprint
                      text observed apply).1
                  ≡ false)))
        ⊎ ((apply ≡ true)
            × Replaced config fingerprint disk
                (clear_actuation_latch encode decode config acquired w disk live fingerprint text
                  observed apply).0)
  clear_latch_outcome config acquired w disk live fingerprint text observed false =
      elim (Result-cases
        (review_latch encode decode config acquired disk live fingerprint (trim text))) [
          | inl ((c, control), e) ↦ inl (unfold clear_actuation_latch in ground (arith, e))
          | inr (x, e) ↦ inl (unfold clear_actuation_latch in ground (arith, e))
        ]
  clear_latch_outcome config acquired w disk live fingerprint text observed true =
      elim (Result-cases
        (review_latch encode decode config acquired disk live fingerprint (trim text))) [
          | inl ((c, control), e) ↦
              let (latched, opens) =
                review_latch-Opened encode decode config acquired disk live fingerprint (trim text)
                  c control e in
              let (found, l, same, o) =
                latched_file encode decode config acquired disk fingerprint c control latched
                  opens in
              let after : (clear_actuation_latch encode decode config acquired w disk live
                    fingerprint text observed true).0
                  ≡ (apply_clear encode decode w disk c control live (trim text) observed).0 =
                unfold clear_actuation_latch in ground (arith, e) in
              elim (apply_clear-Replaced config w disk live fingerprint (trim text) observed c
                control found l o same latched) [
                  | inl (kept, failed) ↦
                      inl (unfold clear_actuation_latch in ground (arith, e, kept, failed))
                  | inr replaced ↦
                      inr
                        (refl, subst (λ d. Replaced config fingerprint disk d) (sym after) replaced)
                ]
          | inr (x, e) ↦ inl (unfold clear_actuation_latch in ground (arith, e))
        ]
