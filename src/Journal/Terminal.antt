-- ===== src/Journal/Terminal.antt =====
-- memory_request.rs, `record_result`: the results that it stores, terminal ones among them.
use virtio_mem_windows_servi.Prelude.{
  ◌≤◌, ◌<◌, ◌≡◌, refl, subst, true, false, Option, none, some, ok, arith, is_some_and, map_option,
  Text,
}
use virtio_mem_windows_servi.MemoryRequest.{
  MemoryRequest, MemoryResult, validate_result, terminal, bad_reason,
}
use virtio_mem_windows_servi.MemoryRequest.Checks.{
  validate_iff_IsRequest, validate_result_iff, Means,
}
use virtio_mem_windows_servi.Journal.{
  MemoryRequestJournal, validate_journal, record_result, bound_result, bounded_reason,
}
use virtio_mem_windows_servi.Journal.Reason.{bounded_reason_accepted}
use virtio_mem_windows_servi.Journal.Replay.{IsJournal, record_result-Recorded}

full-IsJournal :
    (r : MemoryRequest) (q : MemoryResult)
    → validate_result q r ≡ ok tt
    → IsJournal (record { request = some r; result = some q })
unfolding validate_journal
full-IsJournal r q h =
    ground (arith, h, (validate_iff_IsRequest r).1 ((validate_result_iff q r).0 h).valid)

-- `record_result` keeps a journal valid.
pub record_result-IsJournal :
    (j : MemoryRequestJournal) (result : MemoryResult) (k : MemoryRequestJournal)
    → record_result j result ≡ ok k
    → IsJournal k
record_result-IsJournal j result k h =
    let c = record_result-Recorded j result k h in
    let e : record { request = some c.request; result = some (bound_result result) } ≡ k =
      ground (arith, c.kept, c.stored) in
    subst IsJournal e (full-IsJournal c.request (bound_result result) c.accepted)

-- A terminal result is never replaced: every later `record_result` that succeeds leaves the journal
-- as it is.
pub terminal_final :
    (j : MemoryRequestJournal) (q result : MemoryResult) (k : MemoryRequestJournal)
    → j.result ≡ some q
    → terminal q ≡ true
    → record_result j result ≡ ok k
    → k ≡ j
terminal_final j q result k held t h =
    let c = record_result-Recorded j result k h in
    ground (arith, c.held, c.kept, c.stored, c.unfinished)

bound_result-reason :
    (o : Option Text) → is_some_and (map_option bounded_reason o) bad_reason ≡ false
bound_result-reason none = refl
bound_result-reason (some t) = bounded_reason_accepted t

-- Whatever the text of its reason, a dated result whose outcome fits the bytes moved is stored for
-- the request of a valid journal that has no result yet.
pub record_result_accepts :
    (j : MemoryRequestJournal) (r : MemoryRequest) (result : MemoryResult)
    → IsJournal j
    → j.request ≡ some r
    → j.result ≡ none
    → result.request ≡ r
    → 0 < result.observed_unix_millis
    → result.actual_bytes ≤ r.bytes
    → Means result.outcome (bound_result result) r
    → record_result j result ≡ ok (record j { result = some (bound_result result) })
unfolding record_result validate_journal
record_result_accepts j r result v held empty same dated most means = ground (
  arith,
  (validate_result_iff (bound_result result) r).1 (record {
    request = same;
    valid = (validate_iff_IsRequest r).0 (ground arith);
    observed = dated;
    at_most = most;
    reason = bound_result-reason result.reason;
    means = means;
  }),
)
