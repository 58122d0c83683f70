-- ===== src/Journal.antt =====
-- crates/virtio-mem-core/src/memory_request.rs, `MemoryRequestJournal`: the host's durable record of
-- the admitted request and its result, and `bounded_reason`.
pub mod Reason
pub mod Replay
pub mod Terminal
pub mod History
use virtio_mem_windows_servi.Prelude.{
  ℕ, ◌+◌, ◌-◌, Bool, true, false, not, ◌&&◌, ◌||◌, Option, none, some, List, [], ◌∷◌, ◌++◌, Result,
  ok, err, ◌>>=◌, ◌>>◌, fail_if, ok_or, ltb, leb, ◌==◌, if◌then◌else◌, map_option, is_none_or,
  is_empty, Text, text_eq, char_len, byte_len, is_control, is_whitespace, codes,
}
use virtio_mem_windows_servi.MemoryRequest.{
  MemoryRequest, MemoryResult, RequestError, result_without_admission, foreign_request,
  foreign_journal, identity_reused, earlier_unresolved, predates_watermark, nothing_admitted,
  terminal_replaced, observation_backwards, max_reason_bytes, identity_eq, request_eq, result_eq,
  validate, validate_at, is_foreign, terminal, validate_result,
}

glue : ℕ → List Text → List Text
glue c [] = (c ∷ []) ∷ []
glue c (w ∷ ws) = (c ∷ w) ∷ ws

-- `str::split` at the characters that pass a test.
split_at : (ℕ → Bool) → Text → List Text
unfolding glue
split_at p [] = [] ∷ []
split_at p (c ∷ cs) = if p c then [] ∷ split_at p cs else glue c (split_at p cs)

nonempty : List Text → List Text
nonempty [] = []
nonempty (w ∷ ws) = if is_empty w then nonempty ws else w ∷ nonempty ws

-- `join(" ")`.
join_words : List Text → Text
join_words [] = []
join_words (w ∷ []) = w
join_words (w ∷ v ∷ ws) = w ++ 0x20 ∷ join_words (v ∷ ws)

-- The whole characters within the first `limit` bytes, where the loop over `is_char_boundary` ends.
truncate : ℕ → Text → Text
truncate limit [] = []
truncate limit (c ∷ cs) =
    if leb (char_len c) limit then c ∷ truncate (limit - char_len c) cs else []

abbrev breaks_word : ℕ → Bool
breaks_word c = is_control c || is_whitespace c

abbrev unspecified : Text
unspecified = codes "unspecified"

unfoldable pub bounded_reason : Text → Text
unfolding split_at nonempty join_words truncate
bounded_reason text =
    let reason = join_words (nonempty (split_at breaks_word text)) in
    let cut =
      if ltb max_reason_bytes (byte_len reason) then truncate max_reason_bytes reason else reason in
    if is_empty cut then unspecified else cut

pub record MemoryRequestJournal : Type 0 where
  pub request : Option MemoryRequest
  pub result : Option MemoryResult

pub data RequestAdmission : Type 0 where
  new replay : RequestAdmission

validate_parts : Option MemoryRequest → Option MemoryResult → Result RequestError (Unit {0})
validate_parts none none = ok tt
validate_parts (some request) none = do validate request; ok tt
validate_parts (some request) (some result) = do validate request; validate_result result request
validate_parts none (some _) = err result_without_admission

-- `MemoryRequestJournal::validate`.
unfoldable pub validate_journal : MemoryRequestJournal → Result RequestError (Unit {0})
unfolding validate_parts
validate_journal j = validate_parts j.request j.result

module _ (vm service : Text) (now future_tolerance_millis : ℕ) where
  -- The end of `admit`: the last check and the two assignments.
  admit_new : MemoryRequest → Result RequestError (MemoryRequestJournal × RequestAdmission)
  admit_new request = do
    validate_at request vm service now future_tolerance_millis
    ok (record { request = some request; result = none }, new)

  -- The `if let Some(previous)` of `admit`, up to its end.
  admit_after :
      MemoryRequestJournal
      → MemoryRequest
      → MemoryRequest
      → Result RequestError (MemoryRequestJournal × RequestAdmission)
  unfolding admit_new
  admit_after j previous request = do
    fail_if (is_foreign previous.identity vm service) foreign_journal
    if identity_eq previous.identity request.identity
        then (do fail_if (not (request_eq previous request)) identity_reused; ok (j, replay))
        else do
          fail_if (is_none_or j.result (λ result. not (terminal result))) earlier_unresolved
          fail_if
              (leb request.issued_unix_millis previous.issued_unix_millis
                || (text_eq request.identity.session_id previous.identity.session_id
                    && leb request.identity.sequence previous.identity.sequence))
              predates_watermark
          admit_new request

  -- `MemoryRequestJournal::admit`: the journal after the call and its result. An error leaves the
  -- journal as it was.
  unfoldable pub admit :
      MemoryRequestJournal
      → MemoryRequest
      → Result RequestError (MemoryRequestJournal × RequestAdmission)
  unfolding admit_new admit_after
  admit j request = do
    validate_journal j
    validate request
    fail_if (is_foreign request.identity vm service) foreign_request
    elim j.request [ none ↦ admit_new request | some previous ↦ admit_after j previous request ]

-- The check against the result on record.
admissible_result : Option MemoryResult → MemoryResult → Result RequestError (Unit {0})
admissible_result none result = ok tt
admissible_result (some previous) result = do
  fail_if (terminal previous && not (result_eq previous result)) terminal_replaced
  fail_if (ltb result.observed_unix_millis previous.observed_unix_millis) observation_backwards

abbrev pub bound_result : MemoryResult → MemoryResult
bound_result result = record result { reason = map_option bounded_reason result.reason }

-- `MemoryRequestJournal::record_result`.
unfoldable pub record_result :
    MemoryRequestJournal → MemoryResult → Result RequestError MemoryRequestJournal
unfolding admissible_result
record_result j result = do
  validate_journal j
  request ← ok_or j.request nothing_admitted
  validate_result (bound_result result) request
  admissible_result j.result (bound_result result)
  ok (record j { result = some (bound_result result) })
