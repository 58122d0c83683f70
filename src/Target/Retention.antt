-- ===== src/Target/Retention.antt =====
-- target_controller.rs: what the operations on the history keep.
use virtio_mem_windows_servi.Prelude.{
  ℕ, ◌+◌, ◌≤◌, ◌≡◌, inl, inr, none, some, arith, List, [], ◌∷◌, Bool-cases, Option-cases, ltb, leb,
  length, All,
}
use virtio_mem_windows_servi.Target.History.{
  CandidateHistoryEntry, observe, drop_excess, prune_before, maximum_of, max_target_history_entries,
}

-- The newest entry is there and stands for a sample at least as demanding as `e`.
abbrev pub Newest : CandidateHistoryEntry → List CandidateHistoryEntry → Type 0
Newest e [] = ⊥
Newest e (h ∷ []) =
    (e.desired_now_bytes ≤ h.desired_now_bytes) × (e.floor_now_bytes ≤ h.floor_now_bytes)
Newest e (h ∷ h' ∷ hs) = Newest e (h' ∷ hs)

Newest-push :
    (e h : CandidateHistoryEntry) (hs : List CandidateHistoryEntry)
    → Newest e hs
    → Newest e (h ∷ hs)
Newest-push e h [] n = absurd n
Newest-push e h (h' ∷ hs) n = n

pub observe-Newest :
    (bucket : ℕ) (e : CandidateHistoryEntry) (hs : List CandidateHistoryEntry)
    → Newest e (observe bucket e hs)
unfolding observe
observe-Newest bucket e [] = omega arith
observe-Newest bucket e (last ∷ []) = ground arith
observe-Newest bucket e (h ∷ h' ∷ hs) =
    Newest-push e h (observe bucket e (h' ∷ hs)) (observe-Newest bucket e (h' ∷ hs))

pub drop_excess-Newest :
    (e : CandidateHistoryEntry) (hs : List CandidateHistoryEntry)
    → Newest e hs
    → Newest e (drop_excess hs)
unfolding drop_excess
drop_excess-Newest e [] n = n
drop_excess-Newest e (h ∷ []) n = n
drop_excess-Newest e (h ∷ h' ∷ hs) n =
    elim (Bool-cases (ltb max_target_history_entries (length (h ∷ h' ∷ hs)))) [
      | inl long ↦ rw long n
      | inr short ↦ rw short n
    ]

pub prune_before-Newest :
    (boundary : ℕ) (e : CandidateHistoryEntry) (hs : List CandidateHistoryEntry)
    → Newest e hs
    → Newest e (prune_before boundary hs)
unfolding prune_before
prune_before-Newest boundary e [] n = n
prune_before-Newest boundary e (h ∷ []) n = n
prune_before-Newest boundary e (h ∷ h' ∷ hs) n =
    elim (Bool-cases (leb h'.monotonic_millis boundary)) [
      | inl old ↦ rw old (prune_before-Newest boundary e (h' ∷ hs) n)
      | inr young ↦ rw young n
    ]

-- The maximum over a history with such a newest entry covers that sample.
pub maximum_of-covers :
    (e : CandidateHistoryEntry) (hs : List CandidateHistoryEntry) (m : ℕ)
    → Newest e hs
    → (maximum_of (λ h. h.desired_now_bytes) hs ≡ some m → e.desired_now_bytes ≤ m)
      × (maximum_of (λ h. h.floor_now_bytes) hs ≡ some m → e.floor_now_bytes ≤ m)
unfolding maximum_of
maximum_of-covers e [] m n = absurd n
maximum_of-covers e (h ∷ []) m n = (λ q. ground arith, λ q. ground arith)
maximum_of-covers e (h ∷ h' ∷ hs) m n = (
  λ q. elim (Option-cases (maximum_of (λ x. x.desired_now_bytes) (h' ∷ hs))) [
    | inl z ↦ absurd (none_of (λ x. x.desired_now_bytes) z)
    | inr (k, z) ↦ ground (arith, (maximum_of-covers e (h' ∷ hs) k n).0 z)
  ],
  λ q. elim (Option-cases (maximum_of (λ x. x.floor_now_bytes) (h' ∷ hs))) [
    | inl z ↦ absurd (none_of (λ x. x.floor_now_bytes) z)
    | inr (k, z) ↦ ground (arith, (maximum_of-covers e (h' ∷ hs) k n).1 z)
  ],
)
  where
    none_of : (f : CandidateHistoryEntry → ℕ) → maximum_of f (h' ∷ hs) ≡ none → ⊥
    none_of f z = ground arith

pub length-observe :
    (bucket : ℕ) (e : CandidateHistoryEntry) (hs : List CandidateHistoryEntry)
    → length (observe bucket e hs) ≤ length hs + 1
unfolding observe
length-observe bucket e [] = omega arith
length-observe bucket e (last ∷ []) = ground arith
length-observe bucket e (h ∷ h' ∷ hs) = omega (arith, length-observe bucket e (h' ∷ hs))

pub length-drop_excess :
    (hs : List CandidateHistoryEntry)
    → length hs ≤ max_target_history_entries + 1
    → length (drop_excess hs) ≤ max_target_history_entries
unfolding drop_excess
length-drop_excess [] h = omega arith
length-drop_excess (x ∷ hs) h = ground arith

pub length-prune_before :
    (boundary : ℕ) (hs : List CandidateHistoryEntry) → length (prune_before boundary hs) ≤ length hs
unfolding prune_before
length-prune_before boundary [] = omega arith
length-prune_before boundary (h ∷ []) = omega arith
length-prune_before boundary (h ∷ h' ∷ hs) = ground (arith, length-prune_before boundary (h' ∷ hs))

-- A property of every entry survives whatever drops entries, and the merge if it only reads the
-- entry's time.
pub drop_excess-All {κ} :
    (P : CandidateHistoryEntry → Type κ) (hs : List CandidateHistoryEntry)
    → All P hs
    → All P (drop_excess hs)
unfolding drop_excess
drop_excess-All P [] a = a
drop_excess-All P (h ∷ hs) a =
    elim (Bool-cases (ltb max_target_history_entries (length (h ∷ hs)))) [
      | inl long ↦ rw long a.1
      | inr short ↦ rw short a
    ]

pub prune_before-All {κ} :
    (P : CandidateHistoryEntry → Type κ) (boundary : ℕ) (hs : List CandidateHistoryEntry)
    → All P hs
    → All P (prune_before boundary hs)
unfolding prune_before
prune_before-All P boundary [] a = a
prune_before-All P boundary (h ∷ []) a = a
prune_before-All P boundary (h ∷ h' ∷ hs) a = elim (Bool-cases (leb h'.monotonic_millis boundary)) [
  | inl old ↦ rw old (prune_before-All P boundary (h' ∷ hs) a.1)
  | inr young ↦ rw young a
]
