-- ===== src/Journal/Replay.antt =====
-- memory_request.rs, `MemoryRequestJournal`: what one call of `admit` or `record_result` does.
use virtio_mem_windows_servi.Prelude.{
  ℕ, ◌≤◌, ◌<◌, ◌≡◌, refl, sym, subst, ◌⊎◌, inl, inr, true, false, none, some, ok, arith, Text,
  Option-cases,
}
use virtio_mem_windows_servi.MemoryRequest.{
  MemoryRequest, MemoryResult, validate_at, validate_result, terminal,
}
use virtio_mem_windows_servi.MemoryRequest.Equality.{identity_eq_iff, request_eq_iff, result_eq_iff}
use virtio_mem_windows_servi.MemoryRequest.Checks.{
  IsRequest, validate_iff_IsRequest, validate_at_iff, is_foreign_iff,
}
use virtio_mem_windows_servi.Journal.{
  MemoryRequestJournal, RequestAdmission, new, replay, validate_journal, admit, record_result,
  bound_result,
}

abbrev pub IsJournal : MemoryRequestJournal → Type 0
IsJournal j = validate_journal j ≡ ok tt

pub start-IsJournal :
    (r : MemoryRequest) → IsRequest r → IsJournal (record { request = some r; result = none })
unfolding validate_journal
start-IsJournal r v = ground (arith, (validate_iff_IsRequest r).1 v)

-- What a call of `admit` that returns `Ok` has found and done.
pub record Admitted (vm service : Text) (now tolerance : ℕ) (j : MemoryRequestJournal)
    (r : MemoryRequest) (k : MemoryRequestJournal) : Type 0 where
  pub request_eq : k.request ≡ some r
  pub result_eq : k.result ≡ none
  pub valid_at : validate_at r vm service now tolerance ≡ ok tt
  pub succeeds :
      (j.request ≡ none)
      ⊎ ((p : MemoryRequest) × (q : MemoryResult) × (j.request ≡ some p)
          × (j.result ≡ some q)
          × (terminal q ≡ true)
          × (p.issued_unix_millis < r.issued_unix_millis))

module _ (vm service : Text) (now tolerance : ℕ) where
  -- Only a fresh, unexpired request of this VM is admitted as new, and only into an empty journal or
  -- after an earlier issued request whose result is terminal. The journal then holds the request
  -- with no result.
  pub admit_new_only :
      (j : MemoryRequestJournal) (r : MemoryRequest) (k : MemoryRequestJournal)
      → admit vm service now tolerance j r ≡ ok (k, new)
      → Admitted vm service now tolerance j r k
  unfolding admit
  admit_new_only j r k h = ground arith

  -- A replay is a request that the journal already holds, and changes nothing.
  pub admit_replay_only :
      (j : MemoryRequestJournal) (r : MemoryRequest) (k : MemoryRequestJournal)
      → admit vm service now tolerance j r ≡ ok (k, replay)
      → (k ≡ j) × (j.request ≡ some r)
  unfolding admit
  admit_replay_only j r k h = elim (Option-cases j.request) [
    | inl e ↦ absurd (ground arith)
    | inr (p, e) ↦ ground (arith, request_eq_iff p r)
  ]

  -- Retransmission is safe at any time, also after expiry: as long as a valid journal of this VM
  -- holds the request, admitting it again answers `Replay` and changes nothing.
  pub admit_again :
      (j : MemoryRequestJournal) (r : MemoryRequest)
      → IsJournal j
      → j.request ≡ some r
      → r.identity.vm_name ≡ vm
      → r.identity.service_name ≡ service
      → admit vm service now tolerance j r ≡ ok (j, replay)
  unfolding admit validate_journal
  admit_again j r v held vm_eq service_eq = ground (
    arith,
    (is_foreign_iff r.identity vm service).1 (vm_eq, service_eq),
    (identity_eq_iff r.identity r.identity).1 refl,
    (request_eq_iff r r).1 refl,
  )

-- `admit` keeps a journal valid.
pub admit-IsJournal :
    (vm service : Text) (now tolerance : ℕ) (j : MemoryRequestJournal) (r : MemoryRequest)
    (k : MemoryRequestJournal) (a : RequestAdmission)
    → admit vm service now tolerance j r ≡ ok (k, a)
    → IsJournal k
admit-IsJournal vm service now tolerance j r k new h =
    let a = admit_new_only vm service now tolerance j r k h in
    let v = (validate_at_iff r vm service now tolerance).0 a.valid_at in
    let e : record { request = some r; result = none } ≡ k =
      ground (arith, a.request_eq, a.result_eq) in
    subst IsJournal e (start-IsJournal r v.0)
admit-IsJournal vm service now tolerance j r k replay h =
    let (e, _) = admit_replay_only vm service now tolerance j r k h in
    subst IsJournal (sym e) (unfold admit in ground arith)

-- What a call of `record_result` that returns `Ok` has found and done.
pub record Recorded (j : MemoryRequestJournal) (result : MemoryResult) (k : MemoryRequestJournal)
    : Type 0 where
  pub request : MemoryRequest
  pub held : j.request ≡ some request
  pub kept : k.request ≡ some request
  pub stored : k.result ≡ some (bound_result result)
  pub accepted : validate_result (bound_result result) request ≡ ok tt
  pub unfinished :
      (j.result ≡ none)
      ⊎ ((q : MemoryResult) × (j.result ≡ some q)
          × ((terminal q ≡ false) ⊎ (q ≡ bound_result result))
          × (q.observed_unix_millis ≤ result.observed_unix_millis))

pub record_result-Recorded :
    (j : MemoryRequestJournal) (result : MemoryResult) (k : MemoryRequestJournal)
    → record_result j result ≡ ok k
    → Recorded j result k
record_result-Recorded j result k h = elim (Option-cases j.request) [
  | inl e ↦ absurd (unfold record_result in ground arith)
  | inr (r, e) ↦ record {
    request = r;
    held = e;
    kept = unfold record_result in ground arith;
    stored = unfold record_result in ground arith;
    accepted = unfold record_result in ground arith;
    unfinished = elim (Option-cases j.result) [
      | inl n ↦ inl n
      | inr (q, s) ↦ inr (
          unfold record_result in
          (q, s, ground (arith, result_eq_iff q (bound_result result)), ground arith))
    ];
  }
]
