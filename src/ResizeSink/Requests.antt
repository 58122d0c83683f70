-- ===== src/ResizeSink/Requests.antt =====
-- host/src/resize_sink.rs, `prepare` and what a guarded command has run.
use virtio_mem_windows_servi.Prelude.{
  ℕ, ◌*◌, ◌≡◌, ◌⊎◌, refl, ap, true, some, List, [], ◌∷◌, Result, ok, err, arith, Text, is_ok,
  Result-cases, Bool-cases, inl, inr,
}
use virtio_mem_windows_servi.Units.{bytes_per_kib, bytes_to_kibibytes}
use virtio_mem_windows_servi.VirtioMem.{validate_target}
use virtio_mem_windows_servi.Compatibility.{VirtioMemCompatibility, merge, validate_for_resize}
use virtio_mem_windows_servi.ResizeSink.{
  rejected, command_unknown, VirshCall, dumpxml, suspend, resume, update_memory_device, called,
  read_compatibility, read_stop, Calls, Snapshot, Virsh, Precondition, read_compatible,
  read_snapshot, run_command, halted, prepare, apply_prepared, Outcome, applied,
  apply_unless_stopped, apply_authorized, apply_prepared_authorized,
}

-- The calls that may change something.
unfoldable pub issued : Calls → List VirshCall
issued [] = []
issued (called dumpxml s ∷ t) = issued t
issued (called suspend s ∷ t) = suspend ∷ issued t
issued (called resume s ∷ t) = resume ∷ issued t
issued (called (update_memory_device kib) s ∷ t) = update_memory_device kib ∷ issued t
issued (read_compatibility ∷ t) = issued t
issued (read_stop ∷ t) = issued t

-- What `prepare` has checked.
pub record Prepared (virsh : Virsh) (target : ℕ) (precondition : Precondition) (t : Calls) (kib : ℕ)
    : Type 0 where
  pub evidence : VirtioMemCompatibility
  pub merged : VirtioMemCompatibility
  pub snapshot : Snapshot
  pub attested : virsh.compatibility t ≡ ok evidence
  pub live : virsh.dumpxml (read_compatibility ∷ t) ≡ ok snapshot
  pub merges : merge snapshot.compatibility evidence ≡ ok merged
  pub compatible : validate_for_resize merged ≡ ok tt
  pub accepted : validate_target snapshot.memory target ≡ ok tt
  pub precondition_met : precondition snapshot.memory ≡ true
  pub whole : bytes_to_kibibytes target ≡ some kib

module _ (virsh : Virsh) (target : ℕ) (precondition : Precondition) (t : Calls) where
  -- `prepare` changes nothing.
  pub prepare-issued : issued (prepare virsh target precondition t).1 ≡ issued t
  unfolding prepare read_compatible read_snapshot issued
  prepare-issued = ground arith

  pub prepare-Prepared :
      (kib : ℕ)
      → (prepare virsh target precondition t).0 ≡ ok kib
      → Prepared virsh target precondition t kib
  unfolding prepare read_compatible read_snapshot
  prepare-Prepared kib h = elim (Result-cases (virsh.compatibility t)) [
    | inr (e, x) ↦ absurd (ground (arith, x, h))
    | inl (evidence, x) ↦ elim (Result-cases (virsh.dumpxml (read_compatibility ∷ t))) [
      | inr (e, y) ↦ absurd (ground (arith, x, y, h))
      | inl (snapshot, y) ↦ elim (Result-cases (merge snapshot.compatibility evidence)) [
        | inr (e, z) ↦ absurd (ground (arith, x, y, z, h))
        | inl (merged, z) ↦ record {
          evidence = evidence;
          merged = merged;
          snapshot = snapshot;
          attested = x;
          live = y;
          merges = z;
          compatible = ground (arith, x, y, z, h);
          accepted = ground (arith, x, y, z, h);
          precondition_met = ground (arith, x, y, z, h);
          whole = ground (arith, x, y, z, h);
        }
      ]
    ]
  ]

-- The update of a permitted request: the last call, and the only one that may change something.
pub record Ran (virsh : Virsh) (target : ℕ) (precondition : Precondition) (t t' : Calls)
    : Type 0 where
  pub kib : ℕ
  pub calls : issued t' ≡ update_memory_device kib ∷ issued t
  pub size : kib * bytes_per_kib ≡ target
  pub prepared : Prepared virsh target precondition t kib

-- Where a request ends.
abbrev pub Ends : Virsh → ℕ → Precondition → Calls → Outcome → Type 0
Ends virsh target precondition t (ok _, t') = Ran virsh target precondition t t'
Ends virsh target precondition t (err (command_unknown e), t') = Ran virsh target precondition t t'
Ends virsh target precondition t (err (rejected e), t') = issued t' ≡ issued t

pub whole_kib :
    (target kib : ℕ) → bytes_to_kibibytes target ≡ some kib → kib * bytes_per_kib ≡ target
unfolding bytes_to_kibibytes
whole_kib target kib h = ground (arith, h)

module _ (virsh : Virsh) (target : ℕ) (precondition : Precondition) (t : Calls) where
  applied-Ends :
      (kib : ℕ) (t' : Calls)
      → issued t' ≡ issued t
      → Prepared virsh target precondition t kib
      → Ends virsh target precondition t (applied (apply_prepared virsh kib t'))
  unfolding applied apply_prepared run_command
  applied-Ends kib t' i p =
      let ran : Ran virsh target precondition t (
          called (update_memory_device kib) (is_ok (virsh.run t' (update_memory_device kib)))
          ∷ t') =
        record {
          kib = kib;
          calls = unfold issued in ap (λ l. update_memory_device kib ∷ l) i;
          size = whole_kib target kib p.whole;
          prepared = p;
        } in
      elim (Result-cases (virsh.run t' (update_memory_device kib))) [
        | inl (_, e) ↦ rw e (rw e at ran)
        | inr (m, e) ↦ rw e (rw e at ran)
      ]

  apply_unless_stopped-Ends :
      (kib : ℕ) (t' : Calls)
      → issued t' ≡ issued t
      → Prepared virsh target precondition t kib
      → Ends virsh target precondition t (apply_unless_stopped virsh kib t')
  unfolding apply_unless_stopped halted
  apply_unless_stopped-Ends kib t' i p = elim (Bool-cases (virsh.stop_requested t')) [
    | inl y ↦ rw y (unfold issued in i)
    | inr n ↦ rw n (applied-Ends kib (read_stop ∷ t') (unfold issued in i) p)
  ]

  pub authorized-Ends :
      (authorized : Result Text (Unit {0}))
      → Ends virsh target precondition t
          (apply_prepared_authorized virsh authorized (prepare virsh target precondition t))
        × ((authorized ≡ ok tt)
            ⊎ (issued
                  (apply_prepared_authorized virsh authorized
                    (prepare virsh target precondition t)).1
                ≡ issued t))
  unfolding apply_prepared_authorized apply_authorized
  authorized-Ends (ok _) = (
    elim (Result-cases (prepare virsh target precondition t).0) [
      | inr (e, x) ↦ rw x (prepare-issued virsh target precondition t)
      | inl (kib, x) ↦ rw x (
          apply_unless_stopped-Ends kib (prepare virsh target precondition t).1
            (prepare-issued virsh target precondition t)
            (prepare-Prepared virsh target precondition t kib x))
    ],
    inl refl,
  )
  authorized-Ends (err m) = elim (Result-cases (prepare virsh target precondition t).0) [
    | inr (e, x) ↦ rw x (
      prepare-issued virsh target precondition t,
      inr (prepare-issued virsh target precondition t),
    )
    | inl (kib, x) ↦ rw x (
      prepare-issued virsh target precondition t,
      inr (prepare-issued virsh target precondition t),
    )
  ]
