-- ===== src/ResizeSink/Widening.antt =====
-- host/src/resize_sink.rs, `widen_usable_region_guarded`: when the paused domain is resumed.
use virtio_mem_windows_servi.Prelude.{
  ℕ, ◌*◌, ◌⊎◌, ◌≡◌, refl, sym, ap, ◌∙◌, Bool, true, false, ◌&&◌, [], ◌∷◌, Result, ok, err, arith,
  ◌==◌, Result-cases, Bool-cases, inl, inr,
}
use virtio_mem_windows_servi.Units.{bytes_per_kib}
use virtio_mem_windows_servi.VirtioMem.{VirtioMemState, device_maximum_target}
use virtio_mem_windows_servi.ResizeSink.{
  read_compatible, read_snapshot, SinkReason, rejected, command_unknown, dumpxml, suspend, resume,
  update_memory_device, called, read_compatibility, read_stop, Calls, Virsh, still_converged,
  same_allocation, run_command, halted, prepare, apply_prepared, Outcome, prepare_restore,
  restore_again, resumed, after_restore, widen_paused, widen_unless, widen_prepared,
  prepare_widening, widen_usable_region_guarded,
}
use virtio_mem_windows_servi.ResizeSink.Requests.{
  issued, prepare-issued, prepare-Prepared, whole_kib,
}

-- The last call is an update to the size that succeeded.
unfoldable pub restored : ℕ → Calls → Bool
restored bytes [] = false
restored bytes (read_compatibility ∷ t) = false
restored bytes (read_stop ∷ t) = false
restored bytes (called dumpxml s ∷ t) = false
restored bytes (called suspend s ∷ t) = false
restored bytes (called resume s ∷ t) = false
restored bytes (called (update_memory_device k) s ∷ t) = k * bytes_per_kib == bytes && s

-- Every resume stands right after a successful update to the requested size.
unfoldable pub resumes_restored : ℕ → Calls → Bool
unfolding restored
resumes_restored bytes [] = true
resumes_restored bytes (read_compatibility ∷ t) = resumes_restored bytes t
resumes_restored bytes (read_stop ∷ t) = resumes_restored bytes t
resumes_restored bytes (called dumpxml s ∷ t) = resumes_restored bytes t
resumes_restored bytes (called suspend s ∷ t) = resumes_restored bytes t
resumes_restored bytes (called (update_memory_device k) s ∷ t) = resumes_restored bytes t
resumes_restored bytes (called resume s ∷ t) = restored bytes t && resumes_restored bytes t

module _ (bytes : ℕ) where
  -- After a restoring command: it is safe to resume if it succeeded.
  abbrev RestorePost : Result SinkReason (Unit {0}) × Calls → Type 0
  RestorePost (ok _, t) = (resumes_restored bytes t ≡ true) × (restored bytes t ≡ true)
  RestorePost (err e, t) = resumes_restored bytes t ≡ true

  module _ (virsh : Virsh) where
    prepare-resumes :
        (target : ℕ) (pre : VirtioMemState → Bool) (t : Calls)
        → resumes_restored bytes t ≡ true
        → resumes_restored bytes (prepare virsh target pre t).1 ≡ true
    unfolding prepare read_compatible read_snapshot resumes_restored
    prepare-resumes target pre t h = ground (arith, h)

    apply_prepared-restores :
        (kib : ℕ) (t : Calls)
        → kib * bytes_per_kib ≡ bytes
        → resumes_restored bytes t ≡ true
        → RestorePost (apply_prepared virsh kib t)
    unfolding apply_prepared run_command resumes_restored
    apply_prepared-restores kib t e h =
        elim (Result-cases (virsh.run t (update_memory_device kib))) [
          | inl (_, x) ↦ rw x (h, unfold restored in ground (arith, e))
          | inr (m, x) ↦ rw x h
        ]

    restore_again-restores :
        (expected : VirtioMemState) (r : Result SinkReason (Unit {0}) × Calls)
        → expected.requested_bytes ≡ bytes
        → RestorePost r
        → RestorePost (restore_again virsh expected r)
    unfolding restore_again prepare_restore
    restore_again-restores expected (ok _, t) e k = k
    restore_again-restores expected (err m, t) e k =
        let p = prepare virsh expected.requested_bytes (same_allocation expected) t in
        let kept = prepare-resumes expected.requested_bytes (same_allocation expected) t k in
        elim (Result-cases p.0) [
          | inr (m', x) ↦ rw x kept
          | inl (kib, x) ↦
              let q =
                prepare-Prepared virsh expected.requested_bytes (same_allocation expected) t kib
                  x in
              rw x (
                apply_prepared-restores kib p.1 (whole_kib expected.requested_bytes kib q.whole ∙ e)
                  kept)
        ]

    -- Where a widening ends: `Ok` after the resume of a restored domain, and `Rejected` with nothing
    -- called, or only a suspend.
    abbrev pub WidenEnds : Calls → Outcome → Type 0
    WidenEnds t (ok _, t') =
        (resumes_restored bytes t' ≡ true)
        × ((u : Calls) × (t' ≡ called resume true ∷ u) × (restored bytes u ≡ true))
    WidenEnds t (err (command_unknown e), t') = resumes_restored bytes t' ≡ true
    WidenEnds t (err (rejected e), t') =
        (resumes_restored bytes t' ≡ true)
        × ((issued t' ≡ issued t) ⊎ (issued t' ≡ suspend ∷ issued t))

    after_restore-Ends :
        (t : Calls) (widened : Result SinkReason (Unit {0}))
        (r : Result SinkReason (Unit {0}) × Calls)
        → RestorePost r
        → WidenEnds t (after_restore virsh widened r)
    unfolding after_restore resumed run_command
    after_restore-Ends t widened (err e, u) k = k
    after_restore-Ends t (ok _) (ok _, u) k = elim (Result-cases (virsh.run u resume)) [
      | inl (_, x) ↦ rw x (unfold resumes_restored in ground (arith, k.0, k.1), (u, refl, k.1))
      | inr (m, x) ↦ rw x (unfold resumes_restored in ground (arith, k.0, k.1))
    ]
    after_restore-Ends t (err e) (ok _, u) k = elim (Result-cases (virsh.run u resume)) [
      | inl (_, x) ↦ rw x (unfold resumes_restored in ground (arith, k.0, k.1))
      | inr (m, x) ↦ rw x (unfold resumes_restored in ground (arith, k.0, k.1))
    ]

    widen_paused-Ends :
        (expected : VirtioMemState) (widen restore : ℕ) (t u : Calls)
        → expected.requested_bytes ≡ bytes
        → restore * bytes_per_kib ≡ bytes
        → issued u ≡ issued t
        → resumes_restored bytes u ≡ true
        → WidenEnds t (widen_paused virsh expected widen restore (run_command virsh suspend u))
    unfolding widen_paused run_command
    widen_paused-Ends expected widen restore t u e size i h =
        elim (Result-cases (virsh.run u suspend)) [
          | inr (m, x) ↦
              rw x (unfold resumes_restored in h, inr (unfold issued in ap (λ l. suspend ∷ l) i))
          | inl (_, x) ↦
              let paused = called suspend true ∷ u in
              let after = (apply_prepared virsh widen paused).1 in
              let kept : resumes_restored bytes after ≡ true =
                unfold apply_prepared run_command resumes_restored in h in
              rw x (
                after_restore-Ends t (apply_prepared virsh widen paused).0
                  (restore_again virsh expected (apply_prepared virsh restore after))
                  (restore_again-restores expected (apply_prepared virsh restore after) e
                    (apply_prepared-restores restore after size kept)))
        ]

    -- The two prepared commands.
    record BothPrepared (expected : VirtioMemState) (t : Calls) : Type 0 where
      unchanged : issued (prepare_widening virsh expected t).1 ≡ issued t
      kept : resumes_restored bytes (prepare_widening virsh expected t).1 ≡ true
      sized :
          (widen restore : ℕ)
          → (prepare_widening virsh expected t).0 ≡ ok (widen, restore)
          → restore * bytes_per_kib ≡ bytes

    both_prepared :
        (expected : VirtioMemState) (t : Calls)
        → expected.requested_bytes ≡ bytes
        → resumes_restored bytes t ≡ true
        → BothPrepared expected t
    unfolding prepare_widening
    both_prepared expected t e h =
        let ceiling = device_maximum_target expected in
        let pre = still_converged expected in
        let first = prepare virsh ceiling pre t in
        let i = prepare-issued virsh ceiling pre t in
        let k = prepare-resumes ceiling pre t h in
        let second = prepare virsh expected.requested_bytes pre first.1 in
        let i' = prepare-issued virsh expected.requested_bytes pre first.1 in
        let k' = prepare-resumes expected.requested_bytes pre first.1 k in
        elim (Result-cases first.0) [
          | inr (m, x) ↦ record {
            unchanged = rw x i;
            kept = rw x k;
            sized = λ w r y. ground (arith, x, y);
          }
          | inl (w, x) ↦ elim (Result-cases second.0) [
            | inr (m, z) ↦ record {
              unchanged = rw (x, z) (i' ∙ i);
              kept = rw (x, z) k';
              sized = λ w' r y. ground (arith, x, z, y);
            }
            | inl (r, z) ↦
                let q = prepare-Prepared virsh expected.requested_bytes pre first.1 r z in
                record {
                  unchanged = rw (x, z) (i' ∙ i);
                  kept = rw (x, z) k';
                  sized = λ w' r' y.
                      let same : r ≡ r' = ground (arith, x, z, y) in
                      ap (λ v. v * bytes_per_kib) (sym same)
                      ∙ (whole_kib expected.requested_bytes r q.whole ∙ e);
                }
          ]
        ]

    widening_ends :
        (expected : VirtioMemState) (t : Calls)
        → expected.requested_bytes ≡ bytes
        → resumes_restored bytes t ≡ true
        → WidenEnds t (widen_usable_region_guarded virsh expected t)
    unfolding widen_usable_region_guarded widen_prepared widen_unless halted
    widening_ends expected t e h =
        let b = both_prepared expected t e h in
        let p = prepare_widening virsh expected t in
        elim (Result-cases p.0) [
          | inr (m, x) ↦ rw x (b.kept, inl b.unchanged)
          | inl ((w, r), x) ↦ elim (Bool-cases (virsh.stop_requested p.1)) [
            | inl y ↦
                rw (x, y) (unfold resumes_restored in b.kept, inl (unfold issued in b.unchanged))
            | inr n ↦
                rw (x, n)
                  (widen_paused-Ends expected w r t (read_stop ∷ p.1) e (b.sized w r x)
                    (unfold issued in b.unchanged) (unfold resumes_restored in b.kept))
          ]
        ]

-- A widening resumes the paused domain only right after an update to the size requested before has
-- succeeded, whatever virsh answers; where it succeeds, that update and the resume are its last calls.
-- Where it is rejected, it has called virsh for nothing but the device's XML, or also for one suspend.
pub widen_outcome :
    (virsh : Virsh) (expected : VirtioMemState)
    → WidenEnds expected.requested_bytes virsh [] (widen_usable_region_guarded virsh expected [])
unfolding resumes_restored
widen_outcome virsh expected = widening_ends expected.requested_bytes virsh expected [] refl refl
