-- ===== src/GuestPolicy/Issue.antt =====
-- guest_policy.rs, `poll` with no request pending, and the requests it issues.
use virtio_mem_windows_servi.Prelude.{
  ℕ, ◌+◌, ◌<◌, ◌≡◌, refl, sym, ap, ◌∙◌, ◌⊎◌, inl, inr, Bool, true, Option, none, some, ok, arith,
  Option-cases, Result-cases, Bool-cases, checked_add, leb,
}
use virtio_mem_windows_servi.MemoryRequest.{
  MemoryOperation, MemoryRequest, HostMemoryStatus, validate, device_state,
}
use virtio_mem_windows_servi.MemoryRequest.Checks.{IsRequest, validate_iff_IsRequest}
use virtio_mem_windows_servi.Target.{TargetSample, TargetEstimate}
use virtio_mem_windows_servi.GuestPolicy.{GuestDecision, plan_request}
use virtio_mem_windows_servi.GuestPolicy.Requester.{GuestRequester, hold}
use virtio_mem_windows_servi.GuestPolicy.Poll.{
  issue, request_at, urgent, throttled, poll_issue, poll_decide, poll_idle, poll,
}
use virtio_mem_windows_servi.GuestPolicy.Retain.{
  Same, estimated, estimated-Same, poll-cases, fresh_status,
}

-- A request was issued: the durable state holds it as pending with its time as the new watermark.
pub record Issued (g : GuestRequester) (op : MemoryOperation) (amount now : ℕ) (g' : GuestRequester)
    (d : GuestDecision) (r : MemoryRequest) : Type 0 where
  pub published : d ≡ record { request = some r; persist = true; resolved = none }
  pub durable : g'.state ≡ record { pending = some r; last_issued_unix_millis = now }
  pub valid : IsRequest r
  pub vm : r.identity.vm_name ≡ g.vm_name
  pub service : r.identity.service_name ≡ g.service_name
  pub session : r.identity.session_id ≡ g.session_id
  pub sequence : r.identity.sequence ≡ g.next_sequence
  pub next : g'.next_sequence ≡ g.next_sequence + 1
  pub operation : r.operation ≡ op
  pub bytes : r.bytes ≡ amount
  pub issued : r.issued_unix_millis ≡ now
  pub expires : r.expires_unix_millis ≡ now + g.policy.request_lifetime_millis

issue-Issued :
    (g : GuestRequester) (op : MemoryOperation) (bytes now : ℕ) (g' : GuestRequester)
    (d : GuestDecision)
    → issue g op bytes now ≡ (g', ok d)
    → (r : MemoryRequest) × Issued g op bytes now g' d r
unfolding issue
issue-Issued g op bytes now g' d h =
    elim (Option-cases (checked_add now g.policy.request_lifetime_millis)) [
      | inl e ↦ absurd (ground arith)
      | inr (expires, e) ↦
          let r = request_at g op bytes now expires in
          elim (Result-cases (validate r)) [
            | inr (x, v) ↦ absurd (ground arith)
            | inl (_, v) ↦ elim (Option-cases (checked_add g.next_sequence 1)) [
              | inl s ↦ absurd (ground arith)
              | inr (next, s) ↦ (
                r,
                record {
                  published = ground arith;
                  durable = ground arith;
                  valid = (validate_iff_IsRequest r).0 v;
                  vm = refl;
                  service = refl;
                  session = refl;
                  sequence = refl;
                  next = ground arith;
                  operation = refl;
                  bytes = refl;
                  issued = refl;
                  expires = ground arith;
                },
              )
            ]
          ]
    ]

-- Nothing was issued.
pub record Held (g g' : GuestRequester) (d : GuestDecision) : Type 0 where
  pub decision : d ≡ hold
  pub unchanged : g'.state ≡ g.state

-- How a poll with no pending request goes on.
pub data Idle (g : GuestRequester) (sample : TargetSample) (fresh : Option HostMemoryStatus)
    (g' : GuestRequester) (d : GuestDecision) : Type 0 where
  held : Held g g' d → Idle g sample fresh g' d
  asked :
      (s : HostMemoryStatus) (est : TargetEstimate) (op : MemoryOperation) (bytes : ℕ)
      (r : MemoryRequest)
      → fresh ≡ some s
      → plan_request est (device_state s) g.policy ≡ ok (some (op, bytes))
      → g.state.last_issued_unix_millis < sample.observed_unix_millis
      → Issued g op bytes sample.observed_unix_millis g' d r
      → Idle g sample fresh g' d

poll_issue-cases :
    (g : GuestRequester) (sample : TargetSample) (newly : Bool) (op : MemoryOperation) (bytes : ℕ)
    (g' : GuestRequester) (d : GuestDecision)
    → poll_issue g sample newly op bytes ≡ (g', ok d)
    → (Held g g' d)
      ⊎ ((g.state.last_issued_unix_millis < sample.observed_unix_millis)
          × ((r : MemoryRequest) × Issued g op bytes sample.observed_unix_millis g' d r))
unfolding poll_issue
poll_issue-cases g sample newly op bytes g' d h =
    elim (Bool-cases (leb sample.observed_unix_millis g.state.last_issued_unix_millis)) [
      | inl late ↦
          let e = rw (late, poll_issue) at h in
          inl (record { decision = ground arith; unchanged = ground arith })
      | inr early ↦ elim (Bool-cases (throttled g.retry op sample.monotonic_millis newly)) [
        | inl wait ↦
            let e = rw (early, wait, poll_issue) at h in
            inl (record { decision = ground arith; unchanged = ground arith })
        | inr go ↦ inr (
          ground arith,
          issue-Issued g op bytes sample.observed_unix_millis g' d
              (rw (early, go, poll_issue) at h),
        )
      ]
    ]

poll_decide-Idle :
    (g : GuestRequester) (sample : TargetSample) (newly : Bool) (s : HostMemoryStatus)
    (estimate : TargetEstimate) (g' : GuestRequester) (d : GuestDecision)
    → poll_decide g sample newly s estimate ≡ (g', ok d)
    → Idle g sample (some s) g' d
unfolding poll_decide
poll_decide-Idle g sample newly s estimate g' d h =
    let est = urgent g.policy g.native_low s estimate in
    let g1 = record g {
      diagnostics = record (g.diagnostics) { desired_bytes = some est.desired_bytes };
    } in
    elim (Result-cases (plan_request est (device_state s) g.policy)) [
      | inr (x, e) ↦ absurd (ground arith)
      | inl (o, e) ↦ elim (Option-cases o) [
        | inl n ↦
            let run = rw (e ∙ ap ok n, poll_decide) at h in
            held (record { decision = ground arith; unchanged = ground arith })
        | inr ((op, bytes), n) ↦
            elim (poll_issue-cases g1 sample newly op bytes g' d
              (rw (e ∙ ap ok n, poll_decide) at h)) [
                | inl still ↦
                    held (record { decision = still.decision; unchanged = still.unchanged })
                | inr (late, (r, i)) ↦ asked s est op bytes r refl (e ∙ ap ok n) late (record {
                  published = i.published;
                  durable = i.durable;
                  valid = i.valid;
                  vm = i.vm;
                  service = i.service;
                  session = i.session;
                  sequence = i.sequence;
                  next = i.next;
                  operation = i.operation;
                  bytes = i.bytes;
                  issued = i.issued;
                  expires = i.expires;
                })
              ]
      ]
    ]

poll_idle-Idle :
    (g : GuestRequester) (sample : TargetSample) (newly : Bool) (fresh : Option HostMemoryStatus)
    (est : Option TargetEstimate) (g' : GuestRequester) (d : GuestDecision)
    → poll_idle g sample newly fresh est ≡ (g', ok d)
    → Idle g sample fresh g' d
poll_idle-Idle g sample newly (some s) (some est) g' d h =
    poll_decide-Idle g sample newly s est g' d (unfold poll_idle in h)
poll_idle-Idle g sample newly (some s) none g' d h = held (record {
  decision = unfold poll_idle in ground arith;
  unchanged = unfold poll_idle in ground arith;
})
poll_idle-Idle g sample newly none est g' d h = held (record {
  decision = unfold poll_idle in ground arith;
  unchanged = unfold poll_idle in ground arith;
})

same-Idle :
    {g e : GuestRequester} {sample : TargetSample} {fresh : Option HostMemoryStatus}
    {g' : GuestRequester} {d : GuestDecision}
    → Same g e
    → Idle e sample fresh g' d
    → Idle g sample fresh g' d
same-Idle s (held k) = held (record { decision = k.decision; unchanged = k.unchanged ∙ s.state })
same-Idle {g} {e} {sample} s (asked st est op bytes r f p late i) =
    asked st est op bytes r f (rw (← s.policy) p) (ground (arith, s.state)) (record {
      published = i.published;
      durable = i.durable;
      valid = i.valid;
      vm = i.vm ∙ s.vm;
      service = i.service ∙ s.service;
      session = i.session ∙ s.session;
      sequence = i.sequence ∙ s.sequence;
      next = omega (arith, i.next, s.sequence);
      operation = i.operation;
      bytes = i.bytes;
      issued = i.issued;
      expires = ground (arith, i.expires, s.policy);
    })

-- With no request pending, a poll that succeeds either changes no durable state and publishes none,
-- or issues one: planned for the device of a fresh, valid status, later than the last issued, valid,
-- under this VM, service and session with the next sequence number, and made durable at once.
pub poll_idle_issues :
    (g g' : GuestRequester) (sample : TargetSample) (status : Option HostMemoryStatus)
    (d : GuestDecision)
    → g.state.pending ≡ none
    → poll g sample status ≡ (g', ok d)
    → Idle g sample (fresh_status g sample status) g' d
poll_idle_issues g g' sample status d idle h = elim (poll-cases g sample status) [
  | inl (e, run) ↦ absurd (cc)
  | inr (inl (q, waiting, run)) ↦ absurd (cc)
  | inr (inr (est, newly, _, run)) ↦ same-Idle (estimated-Same g sample status) (
      poll_idle-Idle (estimated g sample status) sample newly (fresh_status g sample status) est g'
        d (sym run ∙ h))
]
