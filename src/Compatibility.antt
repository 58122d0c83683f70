-- ===== src/Compatibility.antt =====
-- crates/virtio-mem-core/src/compatibility.rs: the evidence that a virtio-mem device may be resized,
-- merged from independent sources.
pub mod Merge
use virtio_mem_windows_servi.Prelude.{Result, ok, err, ◌>>=◌, ◌>>◌}

pub data CompatibilityEvidence : Type 0 where
  confirmed rejected unknown : CompatibilityEvidence

-- The field that an error names.
pub data EvidenceField : Type 0 where
  dynamic_memslots unplugged_inaccessible workload_review : EvidenceField

pub record VirtioMemCompatibility : Type 0 where
  pub memslots : CompatibilityEvidence
  pub inaccessible : CompatibilityEvidence
  pub review : CompatibilityEvidence

pub data VirtioMemCompatibilityError : Type 0 where
  insufficient_evidence conflicting_evidence : EvidenceField → VirtioMemCompatibilityError

-- `VirtioMemCompatibility::unknown`, also its `Default`.
abbrev pub nothing_known : VirtioMemCompatibility
nothing_known = record { memslots = unknown; inaccessible = unknown; review = unknown }

-- `VirtioMemCompatibility::confirmed`.
abbrev pub all_confirmed : VirtioMemCompatibility
all_confirmed = record { memslots = confirmed; inaccessible = confirmed; review = confirmed }

unfoldable pub merge_evidence :
    CompatibilityEvidence
    → CompatibilityEvidence
    → EvidenceField
    → Result VirtioMemCompatibilityError CompatibilityEvidence
merge_evidence unknown value field = ok value
merge_evidence confirmed unknown field = ok confirmed
merge_evidence rejected unknown field = ok rejected
merge_evidence confirmed confirmed field = ok confirmed
merge_evidence rejected rejected field = ok rejected
merge_evidence confirmed rejected field = err (conflicting_evidence field)
merge_evidence rejected confirmed field = err (conflicting_evidence field)

unfoldable pub merge :
    VirtioMemCompatibility
    → VirtioMemCompatibility
    → Result VirtioMemCompatibilityError VirtioMemCompatibility
unfolding merge_evidence
merge a b = do
  m ← merge_evidence a.memslots b.memslots dynamic_memslots
  i ← merge_evidence a.inaccessible b.inaccessible unplugged_inaccessible
  w ← merge_evidence a.review b.review workload_review
  ok (record { memslots = m; inaccessible = i; review = w })

-- `if evidence != Confirmed { return Err(..) }`.
unfoldable pub require_confirmed :
    CompatibilityEvidence → EvidenceField → Result VirtioMemCompatibilityError (Unit {0})
require_confirmed confirmed field = ok tt
require_confirmed rejected field = err (insufficient_evidence field)
require_confirmed unknown field = err (insufficient_evidence field)

unfoldable pub validate_for_resize :
    VirtioMemCompatibility → Result VirtioMemCompatibilityError (Unit {0})
unfolding require_confirmed
validate_for_resize c = do
  require_confirmed c.memslots dynamic_memslots
  require_confirmed c.inaccessible unplugged_inaccessible
  require_confirmed c.review workload_review
