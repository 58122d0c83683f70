-- ===== src/Journal/History.antt =====
-- memory_request.rs, `MemoryRequestJournal`: any history of calls.
use virtio_mem_windows_servi.Prelude.{
  ℕ, ◌+◌, ◌≤◌, ◌<◌, ◌≡◌, refl, subst, Option, none, some, List, [], ◌∷◌, ◌++◌, Result, ok, err,
  arith, if◌then◌else◌, Text,
}
use virtio_mem_windows_servi.MemoryRequest.{MemoryRequest, MemoryResult, RequestError, request_eq}
use virtio_mem_windows_servi.MemoryRequest.Equality.{request_eq_iff}
use virtio_mem_windows_servi.MemoryRequest.Checks.{validate_at_iff}
use virtio_mem_windows_servi.Journal.{
  MemoryRequestJournal, RequestAdmission, new, replay, admit, record_result,
}
use virtio_mem_windows_servi.Journal.Replay.{
  IsJournal, admit_new_only, admit_replay_only, admit-IsJournal, record_result-Recorded,
}
use virtio_mem_windows_servi.Journal.Terminal.{record_result-IsJournal}

-- One call of the host's journal, with the clock that `admit` reads.
pub data Call : Type 0 where
  admits : (now : ℕ) → MemoryRequest → Call
  records : MemoryResult → Call

abbrev after_admit :
    MemoryRequestJournal
    → Result RequestError (MemoryRequestJournal × RequestAdmission)
    → MemoryRequestJournal
after_admit j (ok (k, a)) = k
after_admit j (err e) = j

abbrev after_record :
    MemoryRequestJournal → Result RequestError MemoryRequestJournal → MemoryRequestJournal
after_record j (ok k) = k
after_record j (err e) = j

-- The request that a call admits as new, in front of the later ones.
abbrev with_new :
    MemoryRequest
    → Result RequestError (MemoryRequestJournal × RequestAdmission)
    → List MemoryRequest
    → List MemoryRequest
with_new r (ok (k, new)) rest = r ∷ rest
with_new r (ok (k, replay)) rest = rest
with_new r (err e) rest = rest

module _ (vm service : Text) (tolerance : ℕ) where
  unfoldable pub step : MemoryRequestJournal → Call → MemoryRequestJournal
  step j (admits now r) = after_admit j (admit vm service now tolerance j r)
  step j (records result) = after_record j (record_result j result)

  pub run : MemoryRequestJournal → List Call → MemoryRequestJournal
  run j [] = j
  run j (c ∷ cs) = run (step j c) cs

  -- The requests admitted as new over a history of calls, in order.
  unfoldable pub admissions : MemoryRequestJournal → List Call → List MemoryRequest
  unfolding step
  admissions j [] = []
  admissions j (admits now r ∷ cs) =
      with_new r (admit vm service now tolerance j r) (admissions (step j (admits now r)) cs)
  admissions j (records result ∷ cs) = admissions (step j (records result)) cs

abbrev pub watermark_of : Option MemoryRequest → ℕ
watermark_of none = 0
watermark_of (some r) = r.issued_unix_millis

abbrev pub watermark : MemoryRequestJournal → ℕ
watermark j = watermark_of j.request

-- Each request issued later than the one before, the first later than `w`.
abbrev pub IssuedAfter : ℕ → List MemoryRequest → Type 0
IssuedAfter w [] = Unit
IssuedAfter w (r ∷ rs) = (w < r.issued_unix_millis) × IssuedAfter r.issued_unix_millis rs

abbrev pub times : MemoryRequest → List MemoryRequest → ℕ
times r [] = 0
times r (s ∷ rs) = (if request_eq s r then 1 else 0) + times r rs

times_early :
    (r : MemoryRequest) (w : ℕ) (rs : List MemoryRequest)
    → IssuedAfter w rs
    → r.issued_unix_millis ≤ w
    → times r rs ≡ 0
times_early r w [] a h = refl
times_early r w (s ∷ rs) a h =
    ground (arith, request_eq_iff s r, times_early r s.issued_unix_millis rs a.1)

times_once :
    (r : MemoryRequest) (w : ℕ) (rs : List MemoryRequest) → IssuedAfter w rs → times r rs ≤ 1
times_once r w [] a = omega arith
times_once r w (s ∷ rs) a = ground (
  arith,
  request_eq_iff s r,
  times_early r s.issued_unix_millis rs a.1,
  times_once r s.issued_unix_millis rs a.1,
)

abbrev pub retained : Option MemoryRequest → List MemoryRequest
retained none = []
retained (some r) = r ∷ []

times-retained :
    (r : MemoryRequest) (o : Option MemoryRequest) (rs : List MemoryRequest)
    → IssuedAfter (watermark_of o) rs
    → times r (retained o ++ rs) ≤ 1
times-retained r none rs a = times_once r 0 rs a
times-retained r (some s) rs a = ground (
  arith,
  request_eq_iff s r,
  times_early r s.issued_unix_millis rs a,
  times_once r s.issued_unix_millis rs a,
)

module _ (vm service : Text) (tolerance : ℕ) where
  step-IsJournal :
      (j : MemoryRequestJournal) (c : Call)
      → IsJournal j
      → IsJournal (step vm service tolerance j c)
  unfolding step
  step-IsJournal j (admits now r) v = go (admit vm service now tolerance j r) refl
    where
      go :
          (o : Result RequestError (MemoryRequestJournal × RequestAdmission))
          → admit vm service now tolerance j r ≡ o
          → IsJournal (after_admit j o)
      go (ok (k, a)) e = admit-IsJournal vm service now tolerance j r k a e
      go (err x) e = v
  step-IsJournal j (records result) v = go (record_result j result) refl
    where
      go :
          (o : Result RequestError MemoryRequestJournal)
          → record_result j result ≡ o
          → IsJournal (after_record j o)
      go (ok k) e = record_result-IsJournal j result k e
      go (err x) e = v

  -- After any history of calls the journal is valid, if it was before.
  pub run-IsJournal :
      (j : MemoryRequestJournal) (cs : List Call)
      → IsJournal j
      → IsJournal (run vm service tolerance j cs)
  unfolding run
  run-IsJournal j [] v = v
  run-IsJournal j (c ∷ cs) v =
      run-IsJournal (step vm service tolerance j c) cs (step-IsJournal j c v)

  record-watermark :
      (j : MemoryRequestJournal) (result : MemoryResult)
      → watermark (step vm service tolerance j (records result)) ≡ watermark j
  unfolding step
  record-watermark j result = go (record_result j result) refl
    where
      go :
          (o : Result RequestError MemoryRequestJournal)
          → record_result j result ≡ o
          → watermark (after_record j o) ≡ watermark j
      go (ok k) e = let c = record_result-Recorded j result k e in ground (arith, c.held, c.kept)
      go (err x) e = refl

  -- The requests that a history admits as new are issued one after the other, and all after the one
  -- that the journal started with.
  pub admissions-IssuedAfter :
      (j : MemoryRequestJournal) (cs : List Call)
      → IssuedAfter (watermark j) (admissions vm service tolerance j cs)
  unfolding admissions
  admissions-IssuedAfter j [] = tt
  admissions-IssuedAfter j (admits now r ∷ cs) =
      go (admit vm service now tolerance j r) refl
        (admissions-IssuedAfter (step vm service tolerance j (admits now r)) cs)
    where
      rest : List MemoryRequest
      rest = admissions vm service tolerance (step vm service tolerance j (admits now r)) cs

      go :
          (o : Result RequestError (MemoryRequestJournal × RequestAdmission))
          → admit vm service now tolerance j r ≡ o
          → IssuedAfter (watermark (step vm service tolerance j (admits now r))) rest
          → IssuedAfter (watermark j) (with_new r o rest)
      go (ok (k, new)) e ih =
          let a = admit_new_only vm service now tolerance j r k e in
          let v = (validate_at_iff r vm service now tolerance).0 a.valid_at in
          let k_eq : step vm service tolerance j (admits now r) ≡ k = rw e in
          (
            ground (arith, a.succeeds, v.0.issued),
            subst (λ w. IssuedAfter w rest) (ground (arith, k_eq, a.request_eq)) ih,
          )
      go (ok (k, replay)) e ih =
          let (same, _) = admit_replay_only vm service now tolerance j r k e in
          let k_eq : step vm service tolerance j (admits now r) ≡ k = rw e in
          subst (λ w. IssuedAfter w rest) (ground (arith, k_eq, same)) ih
      go (err x) e ih =
          let k_eq : step vm service tolerance j (admits now r) ≡ j = rw e in
          subst (λ w. IssuedAfter w rest) (ground (arith, k_eq)) ih
  admissions-IssuedAfter j (records result ∷ cs) =
      subst
        (λ w.
          IssuedAfter w
            (admissions vm service tolerance (step vm service tolerance j (records result)) cs))
        (record-watermark j result)
        (admissions-IssuedAfter (step vm service tolerance j (records result)) cs)

  -- Over any history of calls of a journal, from any state of it, the requests admitted as new are issued
  -- each strictly later than the one before, and the first later than the request that the journal
  -- retained; and no request is admitted as new twice, nor one that the journal retained at the start.
  pub new_at_most_once :
      (j : MemoryRequestJournal) (cs : List Call) (r : MemoryRequest)
      → IssuedAfter (watermark j) (admissions vm service tolerance j cs)
        × (times r (retained j.request ++ admissions vm service tolerance j cs) ≤ 1)
  new_at_most_once j cs r =
      let later = admissions-IssuedAfter j cs in (later, times-retained r j.request _ later)
