-- ===== src/Examples/Encoding.antt =====
-- An encoding of checkpoint files that the tests put in the place of serde_json's.
use virtio_mem_windows_servi.Prelude.{
  ℕ, zero, suc, ◌≡◌, refl, ap, ◌∙◌, Option, none, some, List, [], ◌∷◌, map_option, Text,
}
use virtio_mem_windows_servi.MemoryRequest.{
  RequestIdentity, MemoryOperation, add, remove, MemoryRequest, MemoryOutcome, completed, partial,
  pool_empty, rejected, uncertain, MemoryResult,
}
use virtio_mem_windows_servi.Journal.{MemoryRequestJournal}
use virtio_mem_windows_servi.Status.{CommandDirection, grow, shrink, settle_shrink, settle_grow}
use virtio_mem_windows_servi.Checkpoint.{CommandIntent, DurableControlState, CheckpointFile}

-- A value put in front of a rest can be taken off again.
pub record Codec (A : Type 0) : Type 0 where
  pub put : A → List ℕ → List ℕ
  pub get : List ℕ → Option (A × List ℕ)
  pub law : (a : A) (rest : List ℕ) → get (put a rest) ≡ some (a, rest)

abbrev get_number : List ℕ → Option (ℕ × List ℕ)
get_number [] = none
get_number (n ∷ ns) = some (n, ns)

abbrev number : Codec ℕ
number = record { put = λ n rest. n ∷ rest; get = get_number; law = λ n rest. refl }

unfoldable pub put_text : Text → List ℕ → List ℕ
put_text [] rest = 0 ∷ rest
put_text (c ∷ cs) rest = 1 ∷ c ∷ put_text cs rest

unfoldable pub cons : ℕ → Option (Text × List ℕ) → Option (Text × List ℕ)
cons c none = none
cons c (some (cs, rest)) = some (c ∷ cs, rest)

unfoldable pub get_text : List ℕ → Option (Text × List ℕ)
unfolding cons
get_text [] = none
get_text (zero ∷ ns) = some ([], ns)
get_text (suc n ∷ []) = none
get_text (suc n ∷ c ∷ ns) = cons c (get_text ns)

pub get_text-put_text : (t : Text) (rest : List ℕ) → get_text (put_text t rest) ≡ some (t, rest)
unfolding get_text put_text cons
get_text-put_text [] rest = refl
get_text-put_text (c ∷ cs) rest = ap (cons c) (get_text-put_text cs rest)

abbrev text : Codec Text
text = record { put = put_text; get = get_text; law = get_text-put_text }

module _ {A B : Type 0} where
  -- The codec of a type that `A` covers.
  abbrev along : (f : A → B) (g : B → A) → ((b : B) → f (g b) ≡ b) → Codec A → Codec B
  along f g section c = record {
    put = λ b. c.put (g b);
    get = λ ns. map_option (λ (a, rest). (f a, rest)) (c.get ns);
    law = λ b rest.
        ap (map_option (λ (a, rest). (f a, rest))) (c.law (g b) rest)
        ∙ ap (λ x. some (x, rest)) (section b);
  }

  abbrev after : Codec B → Option (A × List ℕ) → Option ((A × B) × List ℕ)
  after d none = none
  after d (some (a, ns)) = map_option (λ (b, rest). ((a, b), rest)) (d.get ns)

  abbrev both : Codec A → Codec B → Codec (A × B)
  both c d = record {
    put = λ (a, b) rest. c.put a (d.put b rest);
    get = λ ns. after d (c.get ns);
    law = λ (a, b) rest.
        ap (after d) (c.law a (d.put b rest))
        ∙ ap (map_option (λ (y, ns). ((a, y), ns))) (d.law b rest);
  }

module _ {A : Type 0} (c : Codec A) where
  abbrev put_option : Option A → List ℕ → List ℕ
  put_option none rest = 0 ∷ rest
  put_option (some a) rest = 1 ∷ c.put a rest

  abbrev get_option : List ℕ → Option (Option A × List ℕ)
  get_option [] = none
  get_option (zero ∷ ns) = some (none, ns)
  get_option (suc n ∷ ns) = map_option (λ (a, rest). (some a, rest)) (c.get ns)

  pub get_option-put_option :
      (o : Option A) (rest : List ℕ) → get_option (put_option o rest) ≡ some (o, rest)
  get_option-put_option none rest = refl
  get_option-put_option (some a) rest = ap (map_option (λ (x, ns). (some x, ns))) (c.law a rest)

  abbrev option : Codec (Option A)
  option = record { put = put_option; get = get_option; law = get_option-put_option }

abbrev operation_code : MemoryOperation → ℕ
operation_code add = 0
operation_code remove = 1

abbrev operation_at : ℕ → MemoryOperation
operation_at zero = add
operation_at (suc n) = remove

pub operation_at-operation_code : (o : MemoryOperation) → operation_at (operation_code o) ≡ o
operation_at-operation_code add = refl
operation_at-operation_code remove = refl

abbrev outcome_code : MemoryOutcome → ℕ
outcome_code completed = 0
outcome_code partial = 1
outcome_code pool_empty = 2
outcome_code rejected = 3
outcome_code uncertain = 4

abbrev outcome_at : ℕ → MemoryOutcome
outcome_at zero = completed
outcome_at (suc zero) = partial
outcome_at (suc (suc zero)) = pool_empty
outcome_at (suc (suc (suc zero))) = rejected
outcome_at (suc (suc (suc (suc n)))) = uncertain

pub outcome_at-outcome_code : (o : MemoryOutcome) → outcome_at (outcome_code o) ≡ o
outcome_at-outcome_code completed = refl
outcome_at-outcome_code partial = refl
outcome_at-outcome_code pool_empty = refl
outcome_at-outcome_code rejected = refl
outcome_at-outcome_code uncertain = refl

abbrev direction_code : CommandDirection → ℕ
direction_code grow = 0
direction_code shrink = 1
direction_code settle_shrink = 2
direction_code settle_grow = 3

abbrev direction_at : ℕ → CommandDirection
direction_at zero = grow
direction_at (suc zero) = shrink
direction_at (suc (suc zero)) = settle_shrink
direction_at (suc (suc (suc n))) = settle_grow

pub direction_at-direction_code : (d : CommandDirection) → direction_at (direction_code d) ≡ d
direction_at-direction_code grow = refl
direction_at-direction_code shrink = refl
direction_at-direction_code settle_shrink = refl
direction_at-direction_code settle_grow = refl

abbrev operation : Codec MemoryOperation
operation = along operation_at operation_code operation_at-operation_code number

abbrev outcome : Codec MemoryOutcome
outcome = along outcome_at outcome_code outcome_at-outcome_code number

abbrev direction : Codec CommandDirection
direction = along direction_at direction_code direction_at-direction_code number

abbrev identity : Codec RequestIdentity
identity =
    along
      (λ (v, (n, (s, k))). record { vm_name = v; service_name = n; session_id = s; sequence = k })
      (λ r. (r.vm_name, (r.service_name, (r.session_id, r.sequence)))) (λ r. refl)
      (both text (both text (both text number)))

abbrev request : Codec MemoryRequest
request =
    along
      (λ (v, (i, (o, (b, (s, e))))). record {
        version = v;
        identity = i;
        operation = o;
        bytes = b;
        issued_unix_millis = s;
        expires_unix_millis = e;
      })
      (λ r. (
        r.version,
        (r.identity, (r.operation, (r.bytes, (r.issued_unix_millis, r.expires_unix_millis)))),
      ))
      (λ r. refl) (both number (both identity (both operation (both number (both number number)))))

abbrev result : Codec MemoryResult
result =
    along
      (λ (q, (o, (b, (t, w)))). record {
        request = q;
        outcome = o;
        actual_bytes = b;
        observed_unix_millis = t;
        reason = w;
      })
      (λ r. (r.request, (r.outcome, (r.actual_bytes, (r.observed_unix_millis, r.reason)))))
      (λ r. refl) (both request (both outcome (both number (both number (option text)))))

abbrev intent : Codec CommandIntent
intent =
    along
      (λ (i, (t, (d, (p, (c, b))))). record {
        operation_id = i;
        started_unix_millis = t;
        direction = d;
        prior_requested_bytes = p;
        prior_current_bytes = c;
        target_bytes = b;
      })
      (λ r. (
        r.operation_id,
        (
          r.started_unix_millis,
          (r.direction, (r.prior_requested_bytes, (r.prior_current_bytes, r.target_bytes))),
        ),
      ))
      (λ r. refl) (both text (both number (both direction (both number (both number number)))))

abbrev journal : Codec MemoryRequestJournal
journal =
    along (λ (q, a). record { request = q; result = a }) (λ r. (r.request, r.result)) (λ r. refl)
      (both (option request) (option result))

abbrev control : Codec DurableControlState
control =
    along (λ (w, (i, j)). record { latch_reason = w; intent = i; journal = j })
      (λ r. (r.latch_reason, (r.intent, r.journal))) (λ r. refl)
      (both (option text) (both (option intent) journal))

abbrev file : Codec CheckpointFile
file =
    along
      (λ (v, (m, (a, (f, (c, w))))). record {
        version = v;
        vm_name = m;
        device_alias = a;
        compatibility_fingerprint_sha256 = f;
        control = c;
        last_latch_clear_reason = w;
      })
      (λ r. (
        r.version,
        (
          r.vm_name,
          (
            r.device_alias,
            (r.compatibility_fingerprint_sha256, (r.control, r.last_latch_clear_reason)),
          ),
        ),
      ))
      (λ r. refl) (both number (both text (both text (both text (both control (option text))))))

unfoldable pub encode : CheckpointFile → List ℕ
encode f = file.put f []

unfoldable pub decode : List ℕ → Option CheckpointFile
decode bytes = map_option (λ (f, rest). f) (file.get bytes)

pub decode-encode : (f : CheckpointFile) → decode (encode f) ≡ some f
unfolding encode decode
decode-encode f = ap (map_option (λ (x, rest). x)) (file.law f [])
