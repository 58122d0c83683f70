-- ===== src/Journal/Reason.antt =====
-- memory_request.rs: `bounded_reason` against the test of reasons.
use virtio_mem_windows_servi.Prelude.{
  ℕ, ◌-◌, ◌≤◌, ◌≡◌, refl, Bool, true, false, not, List, [], ◌∷◌, ◌++◌, arith, any, is_empty, Text,
  byte_len, char_len, is_control, Bool-cases, inl, inr,
}
use virtio_mem_windows_servi.MemoryRequest.{bad_reason, max_reason_bytes}
use virtio_mem_windows_servi.Journal.{
  glue, split_at, nonempty, join_words, truncate, breaks_word, unspecified, bounded_reason,
}

-- No control character.
abbrev clean : Text → Bool
clean s = not (any is_control s)

clean-append : (s t : Text) → clean s ≡ true → clean t ≡ true → clean (s ++ t) ≡ true
clean-append [] t hs ht = ht
clean-append (c ∷ s) t hs ht = ground (arith, clean-append s t)

abbrev AllClean : List Text → Type 0
AllClean [] = Unit
AllClean (w ∷ ws) = (clean w ≡ true) × AllClean ws

glue-clean : (c : ℕ) (ws : List Text) → is_control c ≡ false → AllClean ws → AllClean (glue c ws)
unfolding glue
glue-clean c [] h a = ground arith
glue-clean c (w ∷ ws) h a = ground arith

split_at-clean : (s : Text) → AllClean (split_at breaks_word s)
unfolding split_at
split_at-clean [] = (refl, tt)
split_at-clean (c ∷ cs) = elim (Bool-cases (breaks_word c)) [
  | inl b ↦ rw b (refl, split_at-clean cs)
  | inr b ↦ rw b (glue-clean c (split_at breaks_word cs) (ground arith) (split_at-clean cs))
]

nonempty-clean : (ws : List Text) → AllClean ws → AllClean (nonempty ws)
unfolding nonempty
nonempty-clean [] a = a
nonempty-clean (w ∷ ws) a = elim (Bool-cases (is_empty w)) [
  | inl b ↦ rw b (nonempty-clean ws a.1)
  | inr b ↦ rw b (a.0, nonempty-clean ws a.1)
]

space-clean : (s : Text) → clean s ≡ true → clean (0x20 ∷ s) ≡ true
unfolding is_control
space-clean s h = h

join_words-clean : (ws : List Text) → AllClean ws → clean (join_words ws) ≡ true
unfolding join_words
join_words-clean [] a = refl
join_words-clean (w ∷ []) a = a.0
join_words-clean (w ∷ v ∷ ws) a =
    clean-append w (0x20 ∷ join_words (v ∷ ws)) a.0
      (space-clean (join_words (v ∷ ws)) (join_words-clean (v ∷ ws) a.1))

truncate-clean : (limit : ℕ) (s : Text) → clean s ≡ true → clean (truncate limit s) ≡ true
unfolding truncate
truncate-clean limit [] h = refl
truncate-clean limit (c ∷ s) h = ground (arith, truncate-clean (limit - char_len c) s)

byte_len-truncate : (limit : ℕ) (s : Text) → byte_len (truncate limit s) ≤ limit
unfolding truncate byte_len
byte_len-truncate limit [] = omega arith
byte_len-truncate limit (c ∷ s) = ground (arith, byte_len-truncate (limit - char_len c) s)

unspecified_fine : bad_reason unspecified ≡ false
unfolding bad_reason byte_len is_control
unspecified_fine = refl

-- A bounded reason is never empty, at most 1024 bytes long and free of control characters.
pub bounded_reason_accepted : (text : Text) → bad_reason (bounded_reason text) ≡ false
unfolding bounded_reason bad_reason
bounded_reason_accepted text = ground (
  arith,
  join_words-clean (nonempty (split_at breaks_word text))
      (nonempty-clean (split_at breaks_word text) (split_at-clean text)),
  truncate-clean max_reason_bytes (join_words (nonempty (split_at breaks_word text))),
  byte_len-truncate max_reason_bytes (join_words (nonempty (split_at breaks_word text))),
  unspecified_fine,
)
