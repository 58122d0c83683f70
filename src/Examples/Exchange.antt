-- ===== src/Examples/Exchange.antt =====
-- Tests of the requests, the journal and its histories.
use virtio_mem_windows_servi.Prelude.{
  ◌≤◌, ◌≡◌, refl, ◌↔◌, List, [], ◌∷◌, ◌++◌, some, ok, arith, codes, text_eq, byte_len, is_control,
  is_whitespace,
}
use virtio_mem_windows_servi.MemoryRequest.{
  validate, validate_at, validate_result, terminal, valid_identity, identity_eq, request_eq,
  result_eq,
}
use virtio_mem_windows_servi.MemoryRequest.Checks.{IsResultOf, validate_result_iff}
use virtio_mem_windows_servi.Journal.{bounded_reason, new, validate_journal, admit, record_result}
use virtio_mem_windows_servi.Journal.Replay.{IsJournal, Admitted, admit_new_only}
use virtio_mem_windows_servi.Journal.Terminal.{terminal_final, record_result_accepts}
use virtio_mem_windows_servi.Journal.History.{
  Call, admits, records, run, admissions, times, IssuedAfter, watermark, retained, new_at_most_once,
  run-IsJournal, step,
}
use virtio_mem_windows_servi.Examples.{
  vm, service, growth, reclaim, grown, empty_journal, admitted_journal, resolved_journal,
}

-- The growth, retransmitted; its result; and the reclaim that follows.
abbrev calls : List Call
calls = admits 1000 growth ∷ admits 1200 growth ∷ records grown ∷ admits 2000 reclaim ∷ []

admissions_test : admissions vm service 5000 empty_journal calls ≡ growth ∷ reclaim ∷ []
unfolding admissions step admit record_result validate_journal validate validate_at validate_result
    valid_identity text_eq identity_eq request_eq terminal
admissions_test = refl

new_at_most_once_example :
    IssuedAfter (watermark admitted_journal) (admissions vm service 5000 admitted_journal calls)
    × (times growth (retained (some growth) ++ admissions vm service 5000 admitted_journal calls)
        ≤ 1)
new_at_most_once_example = new_at_most_once vm service 5000 admitted_journal calls growth

empty-IsJournal : IsJournal empty_journal
unfolding validate_journal
empty-IsJournal = refl

admitted-IsJournal : IsJournal admitted_journal
unfolding validate_journal validate valid_identity
admitted-IsJournal = refl

run-IsJournal_example : IsJournal (run vm service 5000 empty_journal calls)
run-IsJournal_example = run-IsJournal vm service 5000 empty_journal calls empty-IsJournal

growth_admitted : admit vm service 1000 5000 empty_journal growth ≡ ok (admitted_journal, new)
unfolding admit validate_journal validate validate_at valid_identity text_eq
growth_admitted = refl

admit_new_only_example : Admitted vm service 1000 5000 empty_journal growth admitted_journal
admit_new_only_example =
    admit_new_only vm service 1000 5000 empty_journal growth admitted_journal growth_admitted

growth_recorded : record_result resolved_journal grown ≡ ok resolved_journal
unfolding record_result validate_journal validate validate_result terminal bounded_reason
    valid_identity request_eq text_eq result_eq
growth_recorded = refl

terminal_final_example : resolved_journal ≡ resolved_journal
unfolding terminal
terminal_final_example =
    terminal_final resolved_journal grown grown resolved_journal refl refl growth_recorded

record_result_accepts_example : record_result admitted_journal grown ≡ ok resolved_journal
record_result_accepts_example =
    record_result_accepts admitted_journal growth grown admitted-IsJournal refl refl refl
      (omega arith) (omega arith) refl

bounded_reason_test : bounded_reason (codes " no\nspace ") ≡ codes "no space"
unfolding bounded_reason byte_len is_control is_whitespace
bounded_reason_test = refl

validate_result_iff_example : (validate_result grown growth ≡ ok tt) ↔ IsResultOf grown growth
validate_result_iff_example = validate_result_iff grown growth
