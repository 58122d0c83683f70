-- ===== src/Target/History.antt =====
-- target_controller.rs: the history of candidates, oldest first.
use virtio_mem_windows_servi.Prelude.{
  ℕ, ◌+◌, ◌-◌, ◌/◌, Bool, false, Option, none, some, List, [], ◌∷◌, max, ltb, leb, if◌then◌else◌,
  length,
}

pub record CandidateHistoryEntry : Type 0 where
  pub monotonic_millis : ℕ
  pub desired_now_bytes : ℕ
  pub floor_now_bytes : ℕ

abbrev pub max_target_history_entries : ℕ
max_target_history_entries = 4096

-- `history_window_millis.div_ceil(MAX_TARGET_HISTORY_ENTRIES - 2).max(1)`.
abbrev pub bucket_millis : ℕ → ℕ
bucket_millis window = max ((window + 4093) / 4094) 1

-- The newest entry takes up a sample of its own time bucket; else the sample is pushed behind it.
unfoldable pub observe :
    ℕ → CandidateHistoryEntry → List CandidateHistoryEntry → List CandidateHistoryEntry
observe bucket e [] = e ∷ []
observe bucket e (last ∷ []) =
    if ltb (e.monotonic_millis - last.monotonic_millis) bucket
    then record last {
      desired_now_bytes = max last.desired_now_bytes e.desired_now_bytes;
      floor_now_bytes = max last.floor_now_bytes e.floor_now_bytes;
    }
      ∷ []
    else last ∷ e ∷ []
observe bucket e (h ∷ h' ∷ hs) = h ∷ observe bucket e (h' ∷ hs)

-- `if history.len() > MAX_TARGET_HISTORY_ENTRIES { history.pop_front(); }`.
unfoldable pub drop_excess : List CandidateHistoryEntry → List CandidateHistoryEntry
drop_excess [] = []
drop_excess (h ∷ hs) = if ltb max_target_history_entries (length (h ∷ hs)) then hs else h ∷ hs

-- The loop of `prune_history`, for a boundary of `now - window`.
unfoldable pub prune_before : ℕ → List CandidateHistoryEntry → List CandidateHistoryEntry
prune_before boundary [] = []
prune_before boundary (h ∷ []) = h ∷ []
prune_before boundary (h ∷ h' ∷ hs) =
    if leb h'.monotonic_millis boundary then prune_before boundary (h' ∷ hs) else h ∷ h' ∷ hs

unfoldable pub prune_history : List CandidateHistoryEntry → ℕ → ℕ → List CandidateHistoryEntry
unfolding prune_before
prune_history history now window = prune_before (now - window) history

unfoldable pub history_is_ready : List CandidateHistoryEntry → ℕ → ℕ → Bool
history_is_ready [] now window = false
history_is_ready (first ∷ rest) now window = leb window (now - first.monotonic_millis)

-- `iter().map(..).max()`.
unfoldable pub maximum_of : (CandidateHistoryEntry → ℕ) → List CandidateHistoryEntry → Option ℕ
maximum_of f [] = none
maximum_of f (h ∷ hs) = elim (maximum_of f hs) [ none ↦ some (f h) | some m ↦ some (max (f h) m) ]
