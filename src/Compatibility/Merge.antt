-- ===== src/Compatibility/Merge.antt =====
-- compatibility.rs, `merge`: what two sources of evidence say together.
use virtio_mem_windows_servi.Prelude.{◌≡◌, ◌⊎◌, ◌↔◌, ok, ◌>>=◌, arith, >>=-eq-ok}
use virtio_mem_windows_servi.Compatibility.{
  CompatibilityEvidence, confirmed, rejected, unknown, VirtioMemCompatibility, EvidenceField,
  merge_evidence, merge, require_confirmed, validate_for_resize, all_confirmed, dynamic_memslots,
  unplugged_inaccessible, workload_review,
}

-- The value joins what the two sources know: it is one of the two, and the other one is the same or
-- unknown.
abbrev pub Joins : CompatibilityEvidence → CompatibilityEvidence → CompatibilityEvidence → Type 0
Joins a b c = ((c ≡ a) × ((b ≡ a) ⊎ (b ≡ unknown))) ⊎ ((c ≡ b) × (a ≡ unknown))

merge_evidence_iff :
    (a b c : CompatibilityEvidence) (f : EvidenceField)
    → (merge_evidence a b f ≡ ok c) ↔ Joins a b c
unfolding merge_evidence
merge_evidence_iff unknown b c f = ground arith
merge_evidence_iff confirmed unknown c f = ground arith
merge_evidence_iff rejected unknown c f = ground arith
merge_evidence_iff confirmed confirmed c f = ground arith
merge_evidence_iff rejected rejected c f = ground arith
merge_evidence_iff confirmed rejected c f = ground arith
merge_evidence_iff rejected confirmed c f = ground arith

-- Merging succeeds exactly with the evidence that joins the two sources in every field, so a
-- confirmation never overrides a rejection, nor the reverse.
pub merge_iff :
    (a b c : VirtioMemCompatibility)
    → (merge a b ≡ ok c) ↔ (
        Joins a.memslots b.memslots c.memslots
        × Joins a.inaccessible b.inaccessible c.inaccessible
        × Joins a.review b.review c.review)
unfolding merge
merge_iff a b c = (
  λ h.
      let (m, em, h1) = >>=-eq-ok (merge_evidence a.memslots b.memslots dynamic_memslots) _ h in
      let (i, ei, h2) =
        >>=-eq-ok (merge_evidence a.inaccessible b.inaccessible unplugged_inaccessible) _ h1 in
      let (w, ew, h3) = >>=-eq-ok (merge_evidence a.review b.review workload_review) _ h2 in
      ground (
        arith,
        h3,
        (merge_evidence_iff a.memslots b.memslots m dynamic_memslots).0 em,
        (merge_evidence_iff a.inaccessible b.inaccessible i unplugged_inaccessible).0 ei,
        (merge_evidence_iff a.review b.review w workload_review).0 ew,
      ),
  λ (m, i, w). ground (
    arith,
    (merge_evidence_iff a.memslots b.memslots c.memslots dynamic_memslots).1 m,
    (merge_evidence_iff a.inaccessible b.inaccessible c.inaccessible unplugged_inaccessible).1 i,
    (merge_evidence_iff a.review b.review c.review workload_review).1 w,
  ),
)

required_iff :
    (c : CompatibilityEvidence) (f : EvidenceField)
    → (require_confirmed c f ≡ ok tt) ↔ (c ≡ confirmed)
unfolding require_confirmed
required_iff confirmed f = ground arith
required_iff rejected f = ground arith
required_iff unknown f = ground arith

validate_for_resize_iff :
    (c : VirtioMemCompatibility)
    → (validate_for_resize c ≡ ok tt)
      ↔ ((c.memslots ≡ confirmed) × (c.inaccessible ≡ confirmed) × (c.review ≡ confirmed))
unfolding validate_for_resize
validate_for_resize_iff c = ground (
  arith,
  required_iff c.memslots dynamic_memslots,
  required_iff c.inaccessible unplugged_inaccessible,
  required_iff c.review workload_review,
)

-- Both sources allow a resize in this respect: one confirms it and the other one does not reject it.
abbrev pub Backed : CompatibilityEvidence → CompatibilityEvidence → Type 0
Backed a b =
    ((a ≡ confirmed) × ((b ≡ confirmed) ⊎ (b ≡ unknown))) ⊎ ((a ≡ unknown) × (b ≡ confirmed))

Joins-Backed : (a b : CompatibilityEvidence) → Joins a b confirmed ↔ Backed a b
Joins-Backed a b = ground arith

-- Two sources allow a resize together exactly when, in every field, one confirms and the other does
-- not reject.
pub resize_iff :
    (a b : VirtioMemCompatibility)
    → ((merge a b >>= validate_for_resize) ≡ ok tt) ↔ (
        Backed a.memslots b.memslots
        × Backed a.inaccessible b.inaccessible
        × Backed a.review b.review)
resize_iff a b = (
  λ h.
      let (c, e, v) = >>=-eq-ok (merge a b) validate_for_resize h in
      ground (arith, (merge_iff a b c).0 e, (validate_for_resize_iff c).0 v),
  λ (m, i, w).
      let e = (merge_iff a b all_confirmed).1 (
        (Joins-Backed a.memslots b.memslots).1 m,
        (Joins-Backed a.inaccessible b.inaccessible).1 i,
        (Joins-Backed a.review b.review).1 w,
      ) in
      ground (arith, e, (validate_for_resize_iff all_confirmed).1 (ground arith)),
)
