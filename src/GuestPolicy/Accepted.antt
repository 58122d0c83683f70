-- ===== src/GuestPolicy/Accepted.antt =====
-- guest_policy.rs against memory_request.rs: the requests that the guest issues, at the host's admission.
use virtio_mem_windows_servi.Prelude.{
  ℕ, ◌+◌, ◌≤◌, ◌<◌, ◌≡◌, ◌⊎◌, inl, inr, true, false, none, some, ok, arith, saturating_add, text_eq,
  text_eq_iff,
}
use virtio_mem_windows_servi.MemoryRequest.{
  MemoryOperation, MemoryRequest, MemoryResult, terminal, identity_eq, is_foreign, validate,
  validate_at,
}
use virtio_mem_windows_servi.MemoryRequest.Equality.{identity_eq_iff}
use virtio_mem_windows_servi.MemoryRequest.Checks.{
  validate_iff_IsRequest, validate_at_iff, is_foreign_iff,
}
use virtio_mem_windows_servi.Journal.{MemoryRequestJournal, new, admit}
use virtio_mem_windows_servi.Journal.Replay.{IsJournal}
use virtio_mem_windows_servi.GuestPolicy.{GuestDecision}
use virtio_mem_windows_servi.GuestPolicy.Requester.{GuestRequester}
use virtio_mem_windows_servi.GuestPolicy.Issue.{Issued}

-- The host's journal lags behind the guest: empty, or with the resolved request of the same VM and
-- service issued no later than the guest's watermark, and earlier in sequence if in its session.
pub record Lags (j : MemoryRequestJournal) (g : GuestRequester) (p : MemoryRequest)
    (q : MemoryResult) : Type 0 where
  pub request : j.request ≡ some p
  pub result : j.result ≡ some q
  pub resolved : terminal q ≡ true
  pub vm : p.identity.vm_name ≡ g.vm_name
  pub service : p.identity.service_name ≡ g.service_name
  pub watermark : p.issued_unix_millis ≤ g.state.last_issued_unix_millis
  pub sequence :
      (text_eq g.session_id p.identity.session_id ≡ false) ⊎ (p.identity.sequence < g.next_sequence)

abbrev pub Behind : MemoryRequestJournal → GuestRequester → Type 0
Behind j g =
    ((j.request ≡ none) × (j.result ≡ none))
    ⊎ ((p : MemoryRequest) × (q : MemoryResult) × Lags j g p q)

module _ (j : MemoryRequestJournal) (g g' : GuestRequester) (op : MemoryOperation)
    (bytes issued_at now tolerance : ℕ) (d : GuestDecision) (r : MemoryRequest) where
  -- A request that the guest issues past its watermark is admitted as new by a host whose valid
  -- journal lags behind the guest, provided that it arrives before it expires and the clocks agree
  -- within the tolerance.
  pub admit-Issued :
      Issued g op bytes issued_at g' d r
      → g.state.last_issued_unix_millis < issued_at
      → IsJournal j
      → Behind j g
      → now < issued_at + g.policy.request_lifetime_millis
      → issued_at ≤ saturating_add now tolerance
      → admit g.vm_name g.service_name now tolerance j r
        ≡ ok (record { request = some r; result = none }, new)
  admit-Issued i late v behind alive clocks = elim behind [
    | inl (none_held, _) ↦ unfold admit in ground (arith, fresh, valid, native, none_held)
    | inr (p, q, l) ↦
        unfold admit in
        ground (
          arith,
          fresh,
          valid,
          native,
          l.request,
          l.result,
          l.resolved,
          native_previous p q l,
          other p q l,
          later p q l,
        )
  ]
    where
      valid : validate r ≡ ok tt
      valid = (validate_iff_IsRequest r).1 i.valid

      native : is_foreign r.identity g.vm_name g.service_name ≡ false
      native = (is_foreign_iff r.identity g.vm_name g.service_name).1 (i.vm, i.service)

      fresh : validate_at r g.vm_name g.service_name now tolerance ≡ ok tt
      fresh =
          (validate_at_iff r g.vm_name g.service_name now tolerance).1
            (i.valid, i.vm, i.service, omega (arith, i.issued), omega (arith, i.expires))

      native_previous :
          (p : MemoryRequest) (q : MemoryResult)
          → Lags j g p q
          → is_foreign p.identity g.vm_name g.service_name ≡ false
      native_previous p q l =
          (is_foreign_iff p.identity g.vm_name g.service_name).1 (l.vm, l.service)

      other :
          (p : MemoryRequest) (q : MemoryResult)
          → Lags j g p q
          → identity_eq p.identity r.identity ≡ false
      other p q l = ground (
        arith,
        identity_eq_iff p.identity r.identity,
        l.sequence,
        i.session,
        i.sequence,
        text_eq_iff g.session_id p.identity.session_id,
      )

      later :
          (p : MemoryRequest) (q : MemoryResult)
          → Lags j g p q
          → (p.issued_unix_millis < r.issued_unix_millis)
            × ((text_eq r.identity.session_id p.identity.session_id ≡ false)
                ⊎ (p.identity.sequence < r.identity.sequence))
      later p q l = ground (arith, l.watermark, i.issued, l.sequence, i.session, i.sequence)
