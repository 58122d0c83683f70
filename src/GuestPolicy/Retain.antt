-- ===== src/GuestPolicy/Retain.antt =====
-- guest_policy.rs, `poll` with a pending request.
use virtio_mem_windows_servi.Prelude.{
  ℕ, ◌≡◌, refl, sym, ap, ◌∙◌, subst, ◌⊎◌, inl, inr, Bool, true, false, not, ◌&&◌, ◌||◌, Option,
  none, some, ok, err, arith, Option-cases, Result-cases, filter_option, is_ok,
}
use virtio_mem_windows_servi.MemoryRequest.{
  MemoryRequest, MemoryResult, HostMemoryStatus, terminal, validate_status, fresh_at,
}
use virtio_mem_windows_servi.MemoryRequest.Equality.{request_eq_iff}
use virtio_mem_windows_servi.Target.{TargetSample, TargetEstimate}
use virtio_mem_windows_servi.GuestPolicy.{GuestError, GuestRequestState, GuestDecision}
use virtio_mem_windows_servi.GuestPolicy.Requester.{
  GuestRequester, is_low, is_critical, begin_poll, poll_estimate,
}
use virtio_mem_windows_servi.GuestPolicy.Poll.{poll_pending, poll_idle, resolution, poll}

-- What the estimator's part of a poll leaves alone.
pub record Same (g h : GuestRequester) : Type 0 where
  pub policy : h.policy ≡ g.policy
  pub state : h.state ≡ g.state
  pub vm : h.vm_name ≡ g.vm_name
  pub service : h.service_name ≡ g.service_name
  pub session : h.session_id ≡ g.session_id
  pub sequence : h.next_sequence ≡ g.next_sequence

poll_estimate-Same :
    (g : GuestRequester) (sample : TargetSample) (fresh : Option HostMemoryStatus)
    → Same g (poll_estimate g sample fresh).0
unfolding poll_estimate
poll_estimate-Same g sample fresh = ground arith

begin_poll-Same : (g : GuestRequester) (sample : TargetSample) → Same g (begin_poll g sample)
unfolding begin_poll
begin_poll-Same g sample = ground arith

-- The parts of a poll: the status that counts, the fresh one, and the requester after the estimate.
abbrev pub valid_status : GuestRequester → Option HostMemoryStatus → Option HostMemoryStatus
valid_status g status =
    filter_option (λ s. is_ok (validate_status s g.vm_name g.service_name)) status

abbrev pub fresh_status :
    GuestRequester → TargetSample → Option HostMemoryStatus → Option HostMemoryStatus
fresh_status g sample status =
    filter_option (λ s. fresh_at s sample.observed_unix_millis g.policy.host_status_max_age_millis)
      (valid_status g status)

pub estimated : GuestRequester → TargetSample → Option HostMemoryStatus → GuestRequester
estimated g sample status =
    (poll_estimate (begin_poll g sample) sample (fresh_status g sample status)).0

pub estimated-Same :
    (g : GuestRequester) (sample : TargetSample) (status : Option HostMemoryStatus)
    → Same g (estimated g sample status)
unfolding estimated
estimated-Same g sample status =
    let a = begin_poll-Same g sample in
    let b = poll_estimate-Same (begin_poll g sample) sample (fresh_status g sample status) in
    record {
      policy = b.policy ∙ a.policy;
      state = b.state ∙ a.state;
      vm = b.vm ∙ a.vm;
      service = b.service ∙ a.service;
      session = b.session ∙ a.session;
      sequence = b.sequence ∙ a.sequence;
    }

-- The three ways in which a poll goes on after its estimate.
pub poll-cases :
    (g : GuestRequester) (sample : TargetSample) (status : Option HostMemoryStatus)
    → ((e : GuestError) × (poll g sample status ≡ (estimated g sample status, err e)))
      ⊎ (((p : MemoryRequest) × (g.state.pending ≡ some p)
            × (poll g sample status
                ≡ poll_pending
                    (estimated g sample status)
                    p
                    (valid_status g status)
                    sample.monotonic_millis))
          ⊎ ((est : Option TargetEstimate) × (newly : Bool) × (g.state.pending ≡ none)
              × (poll g sample status
                  ≡ poll_idle
                      (estimated g sample status)
                      sample
                      newly
                      (fresh_status g sample status)
                      est)))
unfolding poll estimated
poll-cases g sample status =
    let part = poll_estimate (begin_poll g sample) sample (fresh_status g sample status) in
    let same = estimated-Same g sample status in
    elim (Result-cases
      (poll_estimate (begin_poll g sample) sample (fresh_status g sample status)).1) [
        | inr (e, failed) ↦ inl (e, rw (failed, poll) refl)
        | inl (est, done) ↦ elim (Option-cases g.state.pending) [
          | inl idle ↦
              let e : part.0.state.pending ≡ none =
                ap (λ (x : GuestRequestState). x.pending) same.state ∙ idle in
              inr (
                inr (
                  est,
                  is_low sample.native_pressure && not g.native_low
                      || is_critical g.policy sample.memory && not g.numeric_critical,
                  idle,
                  rw (done, e, poll) refl,
                ))
          | inr (p, waiting) ↦
              let e : part.0.state.pending ≡ some p =
                ap (λ (x : GuestRequestState). x.pending) same.state ∙ waiting in
              inr (inl (p, waiting, rw (done, e, poll) refl))
        ]
      ]

-- How a poll with a pending request goes on.
pub data Pending (p : MemoryRequest) (g g' : GuestRequester) (d : GuestDecision) : Type 0 where
  kept :
      g'.state ≡ g.state
      → d ≡ record { request = some p; persist = false; resolved = none }
      → Pending p g g' d
  resolved :
      (result : MemoryResult)
      → result.request ≡ p
      → terminal result ≡ true
      → g'.state ≡ record (g.state) { pending = none }
      → d ≡ record { request = none; persist = true; resolved = some result }
      → Pending p g g' d

resolution_of :
    (p : MemoryRequest) (status : Option HostMemoryStatus) (result : MemoryResult)
    → resolution p status ≡ some result
    → (result.request ≡ p) × (terminal result ≡ true)
unfolding resolution
resolution_of p none result h = cc
resolution_of p (some s) result h = elim (Option-cases s.result) [
  | inl e ↦ absurd (ground arith)
  | inr (q, e) ↦ ground (arith, request_eq_iff q.request p)
]

poll_pending-Pending :
    (g : GuestRequester) (p : MemoryRequest) (status : Option HostMemoryStatus) (monotonic : ℕ)
    (g' : GuestRequester) (d : GuestDecision)
    → poll_pending g p status monotonic ≡ (g', ok d)
    → Pending p g g' d
unfolding poll_pending
poll_pending-Pending g p status monotonic g' d h = elim (Option-cases (resolution p status)) [
  | inl e ↦ kept (ground arith) (ground arith)
  | inr (result, e) ↦
      let (same, final) = resolution_of p status result e in
      resolved result same final (ground arith) (ground arith)
]

pub poll_pending_no_error :
    (g : GuestRequester) (p : MemoryRequest) (status : Option HostMemoryStatus) (monotonic : ℕ)
    (g' : GuestRequester) (e : GuestError)
    → poll_pending g p status monotonic ≡ (g', err e)
    → ⊥
unfolding poll_pending
poll_pending_no_error g p status monotonic g' e h = elim (Option-cases (resolution p status)) [
  | inl n ↦ ground arith
  | inr (result, n) ↦ ground arith
]

-- While a request is pending, a poll that succeeds either publishes that very request again and
-- leaves the durable state alone, or resolves it by a terminal result for that very request, which
-- clears it and keeps the watermark; it never issues another.
pub pending_retained :
    (g g' : GuestRequester) (sample : TargetSample) (status : Option HostMemoryStatus)
    (d : GuestDecision) (p : MemoryRequest)
    → g.state.pending ≡ some p
    → poll g sample status ≡ (g', ok d)
    → Pending p g g' d
pending_retained g g' sample status d p held h = elim (poll-cases g sample status) [
  | inl (e, run) ↦ absurd (cc)
  | inr (inr (est, newly, idle, run)) ↦ absurd (cc)
  | inr (inl (q, waiting, run)) ↦
      let qp : q ≡ p = cc in
      let same = (estimated-Same g sample status).state in
      subst (λ x. Pending x g g' d) qp
        (moved same (
          poll_pending-Pending (estimated g sample status) q (valid_status g status)
            sample.monotonic_millis g' d (sym run ∙ h)))
]
  where
    moved :
        {q : MemoryRequest} {h : GuestRequester}
        → h.state ≡ g.state
        → Pending q h g' d
        → Pending q g g' d
    moved e (kept a b) = kept (a ∙ e) b
    moved e (resolved r a b c f) =
        resolved r a b (c ∙ ap (λ (x : GuestRequestState). record x { pending = none }) e) f
