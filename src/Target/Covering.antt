-- ===== src/Target/Covering.antt =====
-- target_controller.rs: the entries of the history that account for a demand.
use virtio_mem_windows_servi.Prelude.{
  ℕ, ◌+◌, ◌-◌, ◌*◌, ◌≤◌, ◌<◌, ◌≡◌, subst, inl, inr, ◌⊎◌, some, List, [], ◌∷◌, arith, max, ltb, leb,
  Bool-cases, Option-cases, length,
}
use native.Mathlib.Nat.{div-add-mod}
use virtio_mem_windows_servi.Target.History.{
  CandidateHistoryEntry, max_target_history_entries, bucket_millis, observe, drop_excess,
  prune_before, maximum_of,
}

-- The next entry, if any, is later than `at`.
abbrev pub EndsAfter : ℕ → List CandidateHistoryEntry → Type 0
EndsAfter at [] = Unit
EndsAfter at (h ∷ hs) = at < h.monotonic_millis

-- The entry that was the newest at `at` accounts for a demand.
abbrev pub Covers : ℕ → ℕ → List CandidateHistoryEntry → Type 0
Covers at demand [] = ⊥
Covers at demand (h ∷ hs) = ((demand ≤ h.desired_now_bytes) × EndsAfter at hs) ⊎ Covers at demand hs

-- Entries stand at least a bucket apart, and none is later than `now`.
abbrev pub Spaced : ℕ → ℕ → List CandidateHistoryEntry → Type 0
Spaced bucket now [] = Unit
Spaced bucket now (h ∷ []) = h.monotonic_millis ≤ now
Spaced bucket now (h ∷ h' ∷ hs) =
    (h.monotonic_millis + bucket ≤ h'.monotonic_millis) × Spaced bucket now (h' ∷ hs)

pub observe-newest :
    (bucket : ℕ) (e : CandidateHistoryEntry) (hs : List CandidateHistoryEntry)
    → Covers e.monotonic_millis e.desired_now_bytes (observe bucket e hs)
unfolding observe
observe-newest bucket e [] = inl (omega arith, tt)
observe-newest bucket e (h ∷ []) =
    elim (Bool-cases (ltb (e.monotonic_millis - h.monotonic_millis) bucket)) [
      | inl y ↦ rw y (inl (omega arith, tt))
      | inr n ↦ rw n (inr (inl (omega arith, tt)))
    ]
observe-newest bucket e (h ∷ h' ∷ hs) = inr (observe-newest bucket e (h' ∷ hs))

observe-EndsAfter :
    (at bucket : ℕ) (e h : CandidateHistoryEntry) (hs : List CandidateHistoryEntry)
    → at < h.monotonic_millis
    → EndsAfter at (observe bucket e (h ∷ hs))
unfolding observe
observe-EndsAfter at bucket e h [] l =
    elim (Bool-cases (ltb (e.monotonic_millis - h.monotonic_millis) bucket)) [
      | inl y ↦ rw y l
      | inr n ↦ rw n l
    ]
observe-EndsAfter at bucket e h (h' ∷ hs) l = l

pub observe-Covers :
    (at demand bucket : ℕ) (e : CandidateHistoryEntry) (hs : List CandidateHistoryEntry)
    → at < e.monotonic_millis
    → Covers at demand hs
    → Covers at demand (observe bucket e hs)
unfolding observe
observe-Covers at demand bucket e [] l c = absurd c
observe-Covers at demand bucket e (h ∷ []) l c =
    elim (Bool-cases (ltb (e.monotonic_millis - h.monotonic_millis) bucket)) [
      | inl y ↦ rw y (elim c [ inl (d, _) ↦ inl (omega (arith, d), tt) | inr x ↦ absurd x ])
      | inr n ↦ rw n (elim c [ inl (d, _) ↦ inl (d, l) | inr x ↦ absurd x ])
    ]
observe-Covers at demand bucket e (h ∷ h' ∷ hs) l c = elim c [
  | inl (d, before) ↦ inl (d, observe-EndsAfter at bucket e h' hs before)
  | inr deeper ↦ inr (observe-Covers at demand bucket e (h' ∷ hs) l deeper)
]

pub prune_before-Covers :
    (at demand boundary : ℕ) (hs : List CandidateHistoryEntry)
    → boundary ≤ at
    → Covers at demand hs
    → Covers at demand (prune_before boundary hs)
unfolding prune_before
prune_before-Covers at demand boundary [] l c = c
prune_before-Covers at demand boundary (h ∷ []) l c = c
prune_before-Covers at demand boundary (h ∷ h' ∷ hs) l c =
    elim (Bool-cases (leb h'.monotonic_millis boundary)) [
      | inl y ↦ rw y (
          prune_before-Covers at demand boundary (h' ∷ hs) l (elim c [
            | inl (_, before) ↦ absurd (ground (arith, y, before, l))
            | inr deeper ↦ deeper
          ]))
      | inr n ↦ rw n c
    ]

pub maximum_of-Covers :
    (at demand : ℕ) (hs : List CandidateHistoryEntry)
    → Covers at demand hs
    → (m : ℕ) × (maximum_of (λ h. h.desired_now_bytes) hs ≡ some m) × (demand ≤ m)
unfolding maximum_of
maximum_of-Covers at demand [] c = absurd c
maximum_of-Covers at demand (x ∷ hs) c =
    elim (Option-cases (maximum_of (λ h. h.desired_now_bytes) hs)) [
      | inl n ↦ elim c [
        | inl (d, _) ↦ (x.desired_now_bytes, ground (arith, n), d)
        | inr deeper ↦
            let (k, e, _) = maximum_of-Covers at demand hs deeper in absurd (ground (arith, e, n))
      ]
      | inr (k, r) ↦ (
        max x.desired_now_bytes k,
        ground (arith, r),
        elim c [
          | inl (d, _) ↦ omega (arith, d)
          | inr deeper ↦
              let (l, e, below) = maximum_of-Covers at demand hs deeper in
              let same : l ≡ k = ground (arith, e, r) in omega (arith, same, below)
        ],
      )
    ]

-- The span of a spaced history.
span :
    (bucket now : ℕ) (h : CandidateHistoryEntry) (hs : List CandidateHistoryEntry)
    → Spaced bucket now (h ∷ hs)
    → h.monotonic_millis + length hs * bucket ≤ now
span bucket now h [] s = omega (arith, s)
span bucket now h (h' ∷ hs) s = omega (arith, s.0, span bucket now h' hs s.1)

cons-Spaced :
    (bucket now : ℕ) (h : CandidateHistoryEntry) (hs : List CandidateHistoryEntry)
    → 0 < bucket
    → h.monotonic_millis ≤ now
    → EndsAfter (h.monotonic_millis + bucket - 1) hs
    → Spaced bucket now hs
    → Spaced bucket now (h ∷ hs)
cons-Spaced bucket now h [] p l a s = l
cons-Spaced bucket now h (h' ∷ hs) p l a s = (omega (arith, a, p), s)

pub observe-Spaced :
    (bucket now : ℕ) (e : CandidateHistoryEntry) (hs : List CandidateHistoryEntry)
    → 0 < bucket
    → now ≤ e.monotonic_millis
    → Spaced bucket now hs
    → Spaced bucket e.monotonic_millis (observe bucket e hs)
unfolding observe
observe-Spaced bucket now e [] p l s = omega arith
observe-Spaced bucket now e (h ∷ []) p l s =
    elim (Bool-cases (ltb (e.monotonic_millis - h.monotonic_millis) bucket)) [
      | inl y ↦ rw y (omega (arith, s, l))
      | inr n ↦ rw n (ground (arith, n, p), omega arith)
    ]
observe-Spaced bucket now e (h ∷ h' ∷ hs) p l s =
    cons-Spaced bucket e.monotonic_millis h (observe bucket e (h' ∷ hs)) p
      (omega (arith, span bucket now h (h' ∷ hs) s, l))
      (observe-EndsAfter (h.monotonic_millis + bucket - 1) bucket e h' hs (omega (arith, s.0, p)))
      (observe-Spaced bucket now e (h' ∷ hs) p l s.1)

product_le : (k b : ℕ) → 4095 * b ≤ (4095 + k) * b
product_le k b = omega arith

product_mono : (n b : ℕ) → 4095 ≤ n → 4095 * b ≤ n * b
product_mono n b h =
    let e : 4095 + (n - 4095) ≡ n = omega arith in
    subst (λ x. 4095 * b ≤ x * b) e (product_le (n - 4095) b)

window_fits : (window : ℕ) → window ≤ 4094 * bucket_millis window
window_fits window = omega (arith, div-add-mod (window + 4093) 4094)

pub drop_excess-Covers :
    (at demand window now : ℕ) (hs : List CandidateHistoryEntry)
    → now - window ≤ at
    → Spaced (bucket_millis window) now hs
    → Covers at demand hs
    → Covers at demand (drop_excess hs)
unfolding drop_excess
drop_excess-Covers at demand window now [] l s c = c
drop_excess-Covers at demand window now (h ∷ []) l s c = c
drop_excess-Covers at demand window now (h ∷ h' ∷ hs) l s c =
    elim (Bool-cases (ltb max_target_history_entries (length (h ∷ h' ∷ hs)))) [
      | inl y ↦ rw y (elim c [
        | inl (_, before) ↦
            let many : 4095 ≤ length hs = ground (arith, y) in
            absurd (
              omega (
                arith,
                before,
                l,
                window_fits window,
                span (bucket_millis window) now h' hs s.1,
                product_mono (length hs) (bucket_millis window) many,
              ))
        | inr deeper ↦ deeper
      ])
      | inr n ↦ rw n c
    ]

pub drop_excess-Spaced :
    (bucket now : ℕ) (hs : List CandidateHistoryEntry)
    → Spaced bucket now hs
    → Spaced bucket now (drop_excess hs)
unfolding drop_excess
drop_excess-Spaced bucket now [] s = tt
drop_excess-Spaced bucket now (h ∷ []) s = s
drop_excess-Spaced bucket now (h ∷ h' ∷ hs) s =
    elim (Bool-cases (ltb max_target_history_entries (length (h ∷ h' ∷ hs)))) [
      | inl y ↦ rw y s.1
      | inr n ↦ rw n s
    ]

pub prune_before-Spaced :
    (bucket now boundary : ℕ) (hs : List CandidateHistoryEntry)
    → Spaced bucket now hs
    → Spaced bucket now (prune_before boundary hs)
unfolding prune_before
prune_before-Spaced bucket now boundary [] s = tt
prune_before-Spaced bucket now boundary (h ∷ []) s = s
prune_before-Spaced bucket now boundary (h ∷ h' ∷ hs) s =
    elim (Bool-cases (leb h'.monotonic_millis boundary)) [
      | inl y ↦ rw y (prune_before-Spaced bucket now boundary (h' ∷ hs) s.1)
      | inr n ↦ rw n s
    ]
