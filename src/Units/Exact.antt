-- ===== src/Units/Exact.antt =====
-- crates/virtio-mem-core/src/units.rs: which texts `parse_byte_size` accepts.
use virtio_mem_windows_servi.Prelude.{
  ℕ, ◌*◌, ◌^◌, ◌<◌, ◌≤◌, ◌≢◌, ◌≡◌, ◌↔◌, refl, sym, ap, ◌∙◌, true, ◌++◌, map, ok, arith, Text, trim,
  byte_len, u64_mod, [], ◌∷◌,
}
use virtio_mem_windows_servi.Units.Reading.{
  Digits, Apart, Pointed, SameLetters, Names, Names-unit_shift, unit_shift-Names, lower-SameLetters,
  SameLetters-lower,
}
use virtio_mem_windows_servi.Units.Splitting.{
  all_digits-Digits, Digits-all_digits, split_number_parts, split_point-Pointed,
  Pointed-split_number, Pointed-split_point,
}
use virtio_mem_windows_servi.Units.Sizes.{
  lower, split_number, split_point, unit_shift, u128_mod, is_number, parse_byte_size,
}
use virtio_mem_windows_servi.Units.Decimal.{decimal, digits_value-decimal}
use virtio_mem_windows_servi.Units.Arithmetic.{parse_byte_size_read}

-- A trimmed text that states a number of bytes. It is a number and a unit that starts with neither a
-- digit nor a point; the number is digits, at least one, with at most 18 of them behind a point; the
-- unit in lower case is the name of a power of two; the number times that power is exactly the bytes.
pub record IsSize (text : Text) (bytes : ℕ) : Type 0 where
  pub number : Text
  pub unit : Text
  pub whole : Text
  pub fraction : Text
  pub name : Text
  pub shift : ℕ
  pub read : text ≡ number ++ unit
  pub apart : Apart unit
  pub pointed : Pointed number whole fraction
  pub digits : Digits (whole ++ fraction)
  pub some_digit : whole ++ fraction ≢ []
  pub short : byte_len fraction ≤ 18
  pub same : SameLetters (trim unit) name
  pub named : Names name shift
  pub exact : bytes * 10 ^ byte_len fraction ≡ decimal (whole ++ fraction) * 2 ^ shift
  pub scaled : decimal (whole ++ fraction) * 2 ^ shift < u128_mod
  pub fits : bytes < u64_mod

is_number_iff :
    (whole fraction : Text)
    → (is_number whole fraction ≡ true)
      ↔ (Digits (whole ++ fraction) × (whole ++ fraction ≢ []) × (byte_len fraction ≤ 18))
unfolding is_number
is_number_iff [] [] = (λ h. absurd (ground (arith, h)), λ k. absurd (k.1 refl))
is_number_iff [] (c ∷ cs) = (
  λ h. (all_digits-Digits (c ∷ cs) (ground (arith, h)), λ e. ground (arith, e), ground (arith, h)),
  λ k. let d = Digits-all_digits (c ∷ cs) k.0 in ground (arith, d, k.2),
)
is_number_iff (c ∷ cs) fraction = (
  λ h. (
    all_digits-Digits ((c ∷ cs) ++ fraction) (ground (arith, h)),
    λ e. ground (arith, e),
    ground (arith, h),
  ),
  λ k. let d = Digits-all_digits ((c ∷ cs) ++ fraction) k.0 in ground (arith, d, k.2),
)

-- A size text is accepted with a number of bytes exactly when, trimmed, it states that number: digits,
-- with at most 18 of them behind a point, and a unit, b, k, m, g or t, the latter four also with b or ib
-- behind it, or none, whatever the case of its letters, such that the number times the unit (2^0,
-- 2^10, 2^20, 2^30 or 2^40) is exactly the bytes, without rounding; the digits times the unit are a
-- `u128` and the bytes a `u64`.
pub parse_byte_size_iff :
    (text : Text) (bytes : ℕ) → (parse_byte_size text ≡ ok bytes) ↔ IsSize (trim text) bytes
parse_byte_size_iff text bytes = (
  λ h.
      let (shift, known, written) = (parse_byte_size_read text bytes).0 h in
      let parts = split_number (trim text) in
      let point = split_point parts.0 in
      let (joined, apart) = split_number_parts (trim text) in
      let value = digits_value-decimal (point.0 ++ point.1) in
      let valid = (is_number_iff point.0 point.1).0 written.number in
      record {
        number = parts.0;
        unit = parts.1;
        whole = point.0;
        fraction = point.1;
        name = map lower (trim parts.1);
        shift = shift;
        read = joined;
        apart = apart;
        pointed = split_point-Pointed parts.0;
        digits = valid.0;
        some_digit = valid.1;
        short = valid.2;
        same = lower-SameLetters (trim parts.1);
        named = unit_shift-Names (map lower (trim parts.1)) shift known;
        exact = rw (sym value) written.exact;
        scaled = rw (sym value) written.scaled;
        fits = written.fits;
      },
  λ k.
      let parts : split_number (trim text) ≡ (k.number, k.unit) =
        rw k.read
          (Pointed-split_number k.number k.unit k.whole k.fraction k.pointed k.digits k.apart) in
      let point = Pointed-split_point k.number k.whole k.fraction k.pointed k.digits in
      let value = digits_value-decimal (k.whole ++ k.fraction) in
      let named = Names-unit_shift k.name k.shift k.named in
      let folded = SameLetters-lower (trim k.unit) k.name k.same in
      (parse_byte_size_read text bytes).1 (
        rw parts (
          k.shift,
          ap unit_shift (sym folded) ∙ named,
          rw point (record {
            number = (is_number_iff k.whole k.fraction).1 (k.digits, k.some_digit, k.short);
            exact = rw value k.exact;
            scaled = rw value k.scaled;
            fits = k.fits;
          }),
        )),
)
