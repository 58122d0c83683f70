-- ===== src/Units/Splitting.antt =====
-- crates/virtio-mem-core/src/units.rs: where `parse_byte_size` splits the number from the unit and the
-- fraction from the whole.
use virtio_mem_windows_servi.Prelude.{
  ℕ, ◌≡◌, refl, sym, ap, Bool, true, false, ◌∷◌, [], ◌++◌, arith, Text, all, ◌||◌, ◌==◌, Bool-cases,
  inl, inr,
}
use virtio_mem_windows_servi.Units.Sizes.{is_digit, split_number, split_point}
use virtio_mem_windows_servi.Units.Reading.{Digits, Apart, Pointed}

abbrev in_number : ℕ → Bool
in_number c = is_digit c || c == 0x2e

in_number-Apart : (c : ℕ) (cs : Text) → in_number c ≡ false → Apart (c ∷ cs)
unfolding is_digit
in_number-Apart c cs h = ground (arith, h)

Apart-in_number : (c : ℕ) (cs : Text) → Apart (c ∷ cs) → in_number c ≡ false
unfolding is_digit
Apart-in_number c cs h = ground (arith, h)

pub all_digits-Digits : (t : Text) → all is_digit t ≡ true → Digits t
unfolding is_digit
all_digits-Digits [] h = tt
all_digits-Digits (c ∷ cs) h =
    let rest = all_digits-Digits cs (ground (arith, h)) in
    (ground (arith, h), ground (arith, h), rest)

pub Digits-all_digits : (t : Text) → Digits t → all is_digit t ≡ true
unfolding is_digit
Digits-all_digits [] h = refl
Digits-all_digits (c ∷ cs) (low, high, rest) = ground (arith, low, high, Digits-all_digits cs rest)

in_number-digits : (t : Text) → Digits t → all in_number t ≡ true
unfolding is_digit
in_number-digits [] h = refl
in_number-digits (c ∷ cs) (low, high, rest) = ground (arith, low, high, in_number-digits cs rest)

in_number-pointed : (s t : Text) → Digits (s ++ t) → all in_number (s ++ 0x2e ∷ t) ≡ true
unfolding is_digit
in_number-pointed [] t h = ground (arith, in_number-digits t h)
in_number-pointed (c ∷ cs) t (low, high, rest) =
    ground (arith, low, high, in_number-pointed cs t rest)

append_nil : (t : Text) → t ++ [] ≡ t
append_nil [] = refl
append_nil (c ∷ cs) = ap (λ x. c ∷ x) (append_nil cs)

in_number-Pointed :
    (number whole fraction : Text)
    → Pointed number whole fraction
    → Digits (whole ++ fraction)
    → all in_number number ≡ true
in_number-Pointed number whole fraction (inl (n, f)) digits =
    rw n (in_number-digits whole (rw (sym (append_nil whole), sym f) digits))
in_number-Pointed number whole fraction (inr n) digits =
    rw n (in_number-pointed whole fraction digits)

split_number_join :
    (number unit : Text)
    → all in_number number ≡ true
    → Apart unit
    → split_number (number ++ unit) ≡ (number, unit)
unfolding split_number
split_number_join [] [] h a = refl
split_number_join [] (c ∷ cs) h a = rw (Apart-in_number c cs a) refl
split_number_join (c ∷ cs) unit h a =
    let first : in_number c ≡ true = ground (arith, h) in
    let rest = split_number_join cs unit (ground (arith, h)) a in rw (first, rest) refl

pub split_number_parts :
    (t : Text) → (t ≡ (split_number t).0 ++ (split_number t).1) × Apart (split_number t).1
unfolding split_number
split_number_parts [] = (refl, tt)
split_number_parts (c ∷ cs) = elim (Bool-cases (in_number c)) [
  | inl y ↦ let (joined, apart) = split_number_parts cs in rw y (ap (λ x. c ∷ x) joined, apart)
  | inr n ↦ rw n (refl, in_number-Apart c cs n)
]

split_point_whole : (t : Text) → Digits t → split_point t ≡ (t, [])
unfolding split_point
split_point_whole [] h = refl
split_point_whole (c ∷ cs) (low, high, rest) =
    let digit : (c == 0x2e) ≡ false = ground (arith, low) in
    rw (digit, split_point_whole cs rest) refl

split_point_join : (s t : Text) → Digits (s ++ t) → split_point (s ++ 0x2e ∷ t) ≡ (s, t)
unfolding split_point
split_point_join [] t h = refl
split_point_join (c ∷ cs) t (low, high, rest) =
    let digit : (c == 0x2e) ≡ false = ground (arith, low) in
    rw (digit, split_point_join cs t rest) refl

pub Pointed-split_point :
    (number whole fraction : Text)
    → Pointed number whole fraction
    → Digits (whole ++ fraction)
    → split_point number ≡ (whole, fraction)
Pointed-split_point number whole fraction (inl (n, f)) digits =
    rw (n, f) (split_point_whole whole (rw (sym (append_nil whole), sym f) digits))
Pointed-split_point number whole fraction (inr n) digits =
    rw n (split_point_join whole fraction digits)

pub split_point-Pointed : (t : Text) → Pointed t (split_point t).0 (split_point t).1
unfolding split_point
split_point-Pointed [] = inl (refl, refl)
split_point-Pointed (c ∷ cs) = elim (Bool-cases (c == 0x2e)) [
  | inl y ↦ let point : c ≡ 0x2e = ground (arith, y) in rw (y, point) (inr refl)
  | inr n ↦ elim (split_point-Pointed cs) [
    | inl (plain, nothing) ↦ rw n (inl (ap (λ x. c ∷ x) plain, nothing))
    | inr joined ↦ rw n (inr (ap (λ x. c ∷ x) joined))
  ]
]

pub Pointed-split_number :
    (number unit whole fraction : Text)
    → Pointed number whole fraction
    → Digits (whole ++ fraction)
    → Apart unit
    → split_number (number ++ unit) ≡ (number, unit)
Pointed-split_number number unit whole fraction pointed digits apart =
    split_number_join number unit (in_number-Pointed number whole fraction pointed digits) apart
