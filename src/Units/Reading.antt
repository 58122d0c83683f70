-- ===== src/Units/Reading.antt =====
-- crates/virtio-mem-core/src/units.rs: how `parse_byte_size` reads the number, the unit and the case of
-- its letters.
use virtio_mem_windows_servi.Prelude.{
  ℕ, ◌+◌, ◌<◌, ◌≤◌, ◌≡◌, ◌≢◌, ◌⊎◌, refl, ap, ◌∙◌, true, some, ◌∷◌, [], ◌++◌, map, arith, Text,
  codes, text_eq, text_eq_iff, ◌||◌, Bool-cases, inl, inr,
}
use virtio_mem_windows_servi.Units.Sizes.{lower, is_one_of, unit_shift}

-- Decimal digits.
abbrev pub Digits : Text → Type 0
Digits [] = Unit
Digits (c ∷ cs) = (0x30 ≤ c) × (c ≤ 0x39) × Digits cs

-- Nothing of a number comes first: neither a digit nor a point.
abbrev pub Apart : Text → Type 0
Apart [] = Unit
Apart (c ∷ cs) = ((c < 0x30) ⊎ (0x39 < c)) × (c ≢ 0x2e)

-- A number is written without a point, or has its fraction behind a point.
abbrev pub Pointed : Text → Text → Text → Type 0
Pointed number whole fraction =
    ((number ≡ whole) × (fraction ≡ [])) ⊎ (number ≡ whole ++ 0x2e ∷ fraction)

-- `d` is the letter `c` in lower case, or `c` itself when it is no capital letter.
abbrev pub SameLetter : ℕ → ℕ → Type 0
SameLetter c d = ((0x41 ≤ c) × (c ≤ 0x5a) × (d ≡ c + 0x20)) ⊎ (((c < 0x41) ⊎ (0x5a < c)) × (d ≡ c))

-- The second text is the first in lower case.
abbrev pub SameLetters : Text → Text → Type 0
SameLetters [] [] = Unit
SameLetters [] (d ∷ ds) = ⊥
SameLetters (c ∷ cs) [] = ⊥
SameLetters (c ∷ cs) (d ∷ ds) = SameLetter c d × SameLetters cs ds

-- The names of the units, by the power of two they stand for.
abbrev pub Unnamed : Text → Type 0
Unnamed name = (name ≡ codes "") ⊎ (name ≡ codes "b")

abbrev pub OneOf : Text → Text → Text → Text → Type 0
OneOf name a b c = (name ≡ a) ⊎ ((name ≡ b) ⊎ (name ≡ c))

abbrev pub Names : Text → ℕ → Type 0
Names name shift =
    (Unnamed name × (shift ≡ 0))
    ⊎ ((OneOf name (codes "k") (codes "kb") (codes "kib") × (shift ≡ 10))
        ⊎ ((OneOf name (codes "m") (codes "mb") (codes "mib") × (shift ≡ 20))
            ⊎ ((OneOf name (codes "g") (codes "gb") (codes "gib") × (shift ≡ 30))
                ⊎ (OneOf name (codes "t") (codes "tb") (codes "tib") × (shift ≡ 40)))))

is_one_of-OneOf : (u a b c : Text) → is_one_of u a b c ≡ true → OneOf u a b c
is_one_of-OneOf u a b c h = elim (Bool-cases (text_eq u a)) [
  | inl y ↦ inl ((text_eq_iff u a).0 y)
  | inr n ↦ elim (Bool-cases (text_eq u b)) [
    | inl y ↦ inr (inl ((text_eq_iff u b).0 y))
    | inr n' ↦ inr (inr ((text_eq_iff u c).0 (ground (arith, h, n, n'))))
  ]
]

Unnamed-unit_shift : (u : Text) → Unnamed u → unit_shift u ≡ some 0
unfolding unit_shift text_eq
Unnamed-unit_shift u (inl e) = rw e refl
Unnamed-unit_shift u (inr e) = rw e refl

by_name :
    (a b c : Text) (shift : ℕ)
    → unit_shift a ≡ some shift
    → unit_shift b ≡ some shift
    → unit_shift c ≡ some shift
    → (u : Text) → OneOf u a b c
    → unit_shift u ≡ some shift
by_name a b c shift p q r u (inl e) = ap unit_shift e ∙ p
by_name a b c shift p q r u (inr (inl e)) = ap unit_shift e ∙ q
by_name a b c shift p q r u (inr (inr e)) = ap unit_shift e ∙ r

pub Names-unit_shift : (u : Text) (shift : ℕ) → Names u shift → unit_shift u ≡ some shift
unfolding unit_shift text_eq
Names-unit_shift u shift (inl (n, e)) = rw e (Unnamed-unit_shift u n)
Names-unit_shift u shift (inr (inl (n, e))) =
    rw e (by_name (codes "k") (codes "kb") (codes "kib") 10 refl refl refl u n)
Names-unit_shift u shift (inr (inr (inl (n, e)))) =
    rw e (by_name (codes "m") (codes "mb") (codes "mib") 20 refl refl refl u n)
Names-unit_shift u shift (inr (inr (inr (inl (n, e))))) =
    rw e (by_name (codes "g") (codes "gb") (codes "gib") 30 refl refl refl u n)
Names-unit_shift u shift (inr (inr (inr (inr (n, e))))) =
    rw e (by_name (codes "t") (codes "tb") (codes "tib") 40 refl refl refl u n)

plain-Unnamed : (u : Text) → (text_eq u (codes "") || text_eq u (codes "b")) ≡ true → Unnamed u
plain-Unnamed u h = elim (Bool-cases (text_eq u (codes ""))) [
  | inl y ↦ inl ((text_eq_iff u (codes "")).0 y)
  | inr n ↦ inr ((text_eq_iff u (codes "b")).0 (ground (arith, h, n)))
]

pub unit_shift-Names : (u : Text) (shift : ℕ) → unit_shift u ≡ some shift → Names u shift
unfolding unit_shift
unit_shift-Names u shift h = elim (Bool-cases (text_eq u (codes "") || text_eq u (codes "b"))) [
  | inl y ↦ inl (plain-Unnamed u y, ground (arith, h, y))
  | inr n0 ↦ elim (Bool-cases (is_one_of u (codes "k") (codes "kb") (codes "kib"))) [
    | inl y ↦ inr (inl (is_one_of-OneOf u _ _ _ y, ground (arith, h, n0, y)))
    | inr n1 ↦ elim (Bool-cases (is_one_of u (codes "m") (codes "mb") (codes "mib"))) [
      | inl y ↦ inr (inr (inl (is_one_of-OneOf u _ _ _ y, ground (arith, h, n0, n1, y))))
      | inr n2 ↦ elim (Bool-cases (is_one_of u (codes "g") (codes "gb") (codes "gib"))) [
        | inl y ↦
            inr (inr (inr (inl (is_one_of-OneOf u _ _ _ y, ground (arith, h, n0, n1, n2, y)))))
        | inr n3 ↦ elim (Bool-cases (is_one_of u (codes "t") (codes "tb") (codes "tib"))) [
          | inl y ↦
              inr
                (inr (inr (inr (is_one_of-OneOf u _ _ _ y, ground (arith, h, n0, n1, n2, n3, y)))))
          | inr n4 ↦ absurd (ground (arith, h, n0, n1, n2, n3, n4))
        ]
      ]
    ]
  ]
]

lower-SameLetter : (c : ℕ) → SameLetter c (lower c)
unfolding lower
lower-SameLetter c = ground arith

SameLetter-lower : (c d : ℕ) → SameLetter c d → d ≡ lower c
unfolding lower
SameLetter-lower c d h = ground (arith, h)

pub lower-SameLetters : (u : Text) → SameLetters u (map lower u)
lower-SameLetters [] = tt
lower-SameLetters (c ∷ cs) = (lower-SameLetter c, lower-SameLetters cs)

pub SameLetters-lower : (u v : Text) → SameLetters u v → v ≡ map lower u
SameLetters-lower [] [] h = refl
SameLetters-lower [] (d ∷ ds) h = absurd h
SameLetters-lower (c ∷ cs) [] h = absurd h
SameLetters-lower (c ∷ cs) (d ∷ ds) h =
    rw (SameLetter-lower c d h.0, SameLetters-lower cs ds h.1) refl
