-- ===== src/Runtime/Latching.antt =====
-- host/src/runtime.rs, `save`, `latch`, `record_unexecuted` and `resolve_intent`: they keep the invariant.
use virtio_mem_windows_servi.Prelude.{
  ◌≡◌, refl, true, ◌||◌, Option, none, some, arith, Text, Result-cases, Bool-cases, inl, inr,
  is_some,
}
use virtio_mem_windows_servi.MemoryRequest.{MemoryRequest, MemoryResult}
use virtio_mem_windows_servi.Journal.{record_result, bounded_reason}
use virtio_mem_windows_servi.Checkpoint.{is_latched}
use virtio_mem_windows_servi.Runtime.{Environment, Session, now, save}
use virtio_mem_windows_servi.Runtime.Control.{
  with_latch, uncertain_result, journal_result, record_uncertain, latch_first, latch,
}
use virtio_mem_windows_servi.Runtime.Discipline.{last_saved, never_latched, disciplined, answered}
use virtio_mem_windows_servi.Runtime.Holds.{
  Kept, Holds, Ensures, step, weaken, quiet_step, now-Same,
}

-- After a save: it was the control state that was saved.
pub record Saved (s t : Session) : Type 0 where
  pub holds : Holds t
  pub vm : t.vm ≡ s.vm
  pub last : last_saved t.trace ≡ some s.vm.control

module _ (env : Environment) where
  pub save-Saved : (s : Session) → Holds s → Ensures (λ _ t. Saved s t) (save env s)
  unfolding save
  save-Saved s h = elim (Result-cases (env.save s.trace s.vm.control)) [
    | inl (_, e) ↦ rw e (record {
      holds = record {
        commands = unfold disciplined in h.commands;
        quiet = unfold never_latched in ground (arith, h.quiet);
        answers = h.answers;
      };
      vm = refl;
      last = unfold last_saved in refl;
    })
    | inr (m, e) ↦ rw e (unfold disciplined in h.commands)
  ]

-- A result was recorded in the journal, and nothing else has changed.
pub record Resulted (s t : Session) : Type 0 where
  pub trace : t.trace ≡ s.trace
  pub config : t.vm.config ≡ s.vm.config
  pub latch : t.vm.control.latch_reason ≡ s.vm.control.latch_reason
  pub intent : t.vm.control.intent ≡ s.vm.control.intent
  pub result : is_some t.vm.control.journal.result ≡ true

pub journal_result-Resulted :
    (q : MemoryResult) (s : Session) → Kept s → Ensures (λ _ t. Resulted s t) (journal_result q s)
unfolding journal_result
journal_result-Resulted q s h = elim (Result-cases (record_result s.vm.control.journal q)) [
  | inl (j, e) ↦ rw e (record {
    trace = refl;
    config = refl;
    latch = refl;
    intent = refl;
    result = unfold record_result in ground (arith, e);
  })
  | inr (m, e) ↦ rw e h
]

pub Resulted-Holds :
    (s t : Session)
    → Resulted s t
    → Kept s
    → is_latched s.vm.control || never_latched s.trace ≡ true
    → Holds t
unfolding is_latched answered
Resulted-Holds s t r h q = record {
  commands = rw (r.trace, r.config) h;
  quiet = rw (r.latch, r.trace) q;
  answers = rw r.result (ground arith);
}

pub record Latched (s : Session) : Type 0 where
  pub holds : Holds s
  pub latched : is_latched s.vm.control ≡ true

Latched-Holds :
    (s : Session)
    → Kept s
    → is_latched s.vm.control ≡ true
    → answered s.vm.control ≡ true
    → Latched s
Latched-Holds s h l a = record {
  holds = record { commands = h; quiet = rw l refl; answers = a };
  latched = l;
}

module _ (env : Environment) where
  record_uncertain-Latched :
      (reason : Text) (request : Option MemoryRequest) (result : Option MemoryResult) (s : Session)
      → s.vm.control.journal.request ≡ request
      → s.vm.control.journal.result ≡ result
      → Kept s
      → is_latched s.vm.control ≡ true
      → Ensures (λ _ t. Latched t) (record_uncertain env reason request result s)
  unfolding record_uncertain
  record_uncertain-Latched reason none result s p q h l =
      Latched-Holds s h l (unfold answered in ground (arith, p, l))
  record_uncertain-Latched reason (some r) (some _) s p q h l =
      Latched-Holds s h l (unfold answered in ground (arith, q, l))
  record_uncertain-Latched reason (some r) none s p q h l =
      quiet_step (λ _ t. Latched t) s (now env s) _ (now-Same env s) h
        (λ at t same.
          let l' : is_latched t.vm.control ≡ true = rw same.vm l in
          weaken (λ _ u. Resulted t u) (λ _ u. Latched u)
            (journal_result (uncertain_result r at reason) t)
            (journal_result-Resulted (uncertain_result r at reason) t (same.kept h))
            (λ _ u r'. record {
              holds = Resulted-Holds t u r' (same.kept h) (rw l' refl);
              latched = unfold is_latched in rw r'.latch l';
            }))

  latch_first-Latched :
      (reason : Text) (s : Session) → Kept s → Ensures (λ _ t. Latched t) (latch_first env reason s)
  unfolding latch_first
  latch_first-Latched reason s h =
      let s' : Session = record s { vm = with_latch reason s.vm } in
      step (λ _ t. Latched t) (λ _ t. Latched t)
        (record_uncertain env reason s.vm.control.journal.request s.vm.control.journal.result s') _
        (record_uncertain-Latched reason s.vm.control.journal.request s.vm.control.journal.result s'
          refl refl h (unfold is_latched in refl))
        (λ _ t l.
          weaken (λ _ u. Saved t u) (λ _ u. Latched u) (save env t) (save-Saved env t l.holds)
            (λ _ u v. record { holds = v.holds; latched = rw v.vm l.latched }))

  -- After `latch` the latch is set, and was saved unless it was set before.
  pub latch-Latched :
      (reason : Text) (s : Session) → Holds s → Ensures (λ _ t. Latched t) (latch env reason s)
  unfolding latch
  latch-Latched reason s h = elim (Bool-cases (is_latched s.vm.control)) [
    | inl y ↦ rw y (record { holds = h; latched = y })
    | inr n ↦ rw n (latch_first-Latched (bounded_reason reason) s h.commands)
  ]
