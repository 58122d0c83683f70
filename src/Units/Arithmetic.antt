-- ===== src/Units/Arithmetic.antt =====
-- crates/virtio-mem-core/src/units.rs: the arithmetic of `parse_byte_size`.
use native.Mathlib.Nat.{
  mul-mod_left, div-add-mod, mod-lt, div-mul-le_self, mul-div_left, mod-eq_of_lt, one-le-pow,
}
use virtio_mem_windows_servi.Prelude.{
  ℕ, zero, suc, ◌*◌, ◌/◌, ◌%◌, ◌^◌, ◌<◌, ◌≤◌, ◌≢◌, ◌≡◌, ◌↔◌, refl, sym, ap, subst, ◌∙◌, true, some,
  ◌++◌, map, ok, arith, Text, trim, byte_len, ltb, u64_mod, Bool-cases, Option-cases, inl, inr,
}
use virtio_mem_windows_servi.Units.Sizes.{
  lower, split_number, split_point, unit_shift, digits_value, u128_mod, parse_u128, shift_u128,
  whole_bytes, size_of, is_number, parse_number, parse_parts, parse_byte_size,
}

shift_u128_iff :
    (digits unit scaled : ℕ)
    → 0 < unit
    → (shift_u128 digits unit ≡ some scaled)
      ↔ ((scaled ≡ digits * unit) × (digits * unit < u128_mod))
unfolding shift_u128
shift_u128_iff digits unit scaled pos = elim (Bool-cases (ltb (digits * unit) u128_mod)) [
  | inl y ↦
      let small : digits * unit < u128_mod = ground (arith, y) in
      let kept = mod-eq_of_lt small in
      let whole = mul-div_left digits pos in ground (arith, kept, whole, small)
  | inr n ↦
      let large : u128_mod ≤ digits * unit = ground (arith, n) in
      let x = digits * unit % u128_mod in
      let below : x < u128_mod = mod-lt (digits * unit) (omega arith) in
      let back : x / unit * unit ≤ x = div-mul-le_self x unit in
      let lost : x / unit ≢ digits =
        λ e. absurd (omega (arith, ap (λ v. v * unit) e, back, below, large)) in
      ground (arith, lost, large)
]

whole_bytes_iff :
    (scaled scale bytes : ℕ)
    → 0 < scale
    → (whole_bytes scaled scale ≡ ok bytes) ↔ ((bytes * scale ≡ scaled) × (bytes < u64_mod))
unfolding whole_bytes
whole_bytes_iff scaled scale bytes pos =
    let split = div-add-mod scaled scale in
    (
      λ h.
          let m : scaled % scale ≡ 0 = ground (arith, h) in
          let v : scaled / scale ≡ bytes = ground (arith, h, m) in
          let b : bytes < u64_mod = ground (arith, h, m, v) in
          (omega (arith, ap (λ q. scale * q) v, split, m), b),
      λ k.
          let m : scaled % scale ≡ 0 = ap (λ v. v % scale) (sym k.0) ∙ mul-mod_left bytes scale in
          let v : scaled / scale ≡ bytes = ap (λ v. v / scale) (sym k.0) ∙ mul-div_left bytes pos in
          ground (arith, m, v, k.1),
    )

size_of_iff :
    (digits unit scale bytes : ℕ)
    → 0 < unit
    → 0 < scale
    → (size_of digits unit scale ≡ ok bytes)
      ↔ ((bytes * scale ≡ digits * unit) × (digits * unit < u128_mod) × (bytes < u64_mod))
unfolding size_of
size_of_iff digits unit scale bytes pos_unit pos = elim (Option-cases (shift_u128 digits unit)) [
  | inl e ↦
      let lost : (digits * unit < u128_mod) → ⊥ = λ h.
        absurd
          (ground (arith, e, (shift_u128_iff digits unit (digits * unit) pos_unit).1 (refl, h))) in
      rw e (λ h. absurd (ground (arith, h)), λ k. absurd (lost k.1))
  | inr (scaled, e) ↦
      let shifted = (shift_u128_iff digits unit scaled pos_unit).0 e in
      let w = whole_bytes_iff scaled scale bytes pos in
      rw e (
        λ h. let x = w.0 h in (x.0 ∙ shifted.0, shifted.1, x.1),
        λ k. w.1 (k.0 ∙ sym shifted.0, k.2),
      )
]

-- What an accepted number says.
pub record Written (whole fraction : Text) (shift bytes : ℕ) : Type 0 where
  pub number : is_number whole fraction ≡ true
  pub exact : bytes * 10 ^ byte_len fraction ≡ digits_value 0 (whole ++ fraction) * 2 ^ shift
  pub scaled : digits_value 0 (whole ++ fraction) * 2 ^ shift < u128_mod
  pub fits : bytes < u64_mod

le_product : (d p : ℕ) → 0 < p → d ≤ d * p
le_product d zero pos = omega arith
le_product d (suc q) pos = omega arith

parse_number_iff :
    (whole fraction : Text) (shift bytes : ℕ)
    → (parse_number (whole, fraction) shift ≡ ok bytes) ↔ Written whole fraction shift bytes
unfolding parse_number parse_u128
parse_number_iff whole fraction shift bytes =
    let digits = digits_value 0 (whole ++ fraction) in
    let s =
      size_of_iff digits (2 ^ shift) (10 ^ byte_len fraction) bytes
        (one-le-pow shift 2 (omega arith)) (one-le-pow (byte_len fraction) 10 (omega arith)) in
    elim (Bool-cases (is_number whole fraction)) [
      | inr n ↦ rw n (λ h. absurd (ground (arith, h)), λ k. absurd (ground (arith, n, k.number)))
      | inl y ↦ elim (Bool-cases (ltb digits u128_mod)) [
        | inl small ↦
            rw (y, small)
              (
                λ h. let x = s.0 h in record { number = y; exact = x.0; scaled = x.1; fits = x.2 },
                λ k. s.1 (k.exact, k.scaled, k.fits),
              )
        | inr large ↦
            rw (y, large)
              (
                λ h. absurd (ground (arith, h)),
                λ k. absurd (
                    ground (
                      arith,
                      large,
                      k.scaled,
                      le_product digits (2 ^ shift) (one-le-pow shift 2 (omega arith)),
                    )),
              )
      ]
    ]

pub parse_byte_size_read :
    (text : Text) (bytes : ℕ)
    → (parse_byte_size text ≡ ok bytes) ↔ (
        (shift : ℕ) × (unit_shift (map lower (trim (split_number (trim text)).1)) ≡ some shift)
        × Written
            (split_point (split_number (trim text)).0).0
            (split_point (split_number (trim text)).0).1
            shift
            bytes)
unfolding parse_byte_size parse_parts
parse_byte_size_read text bytes =
    let parts = split_number (trim text) in
    let point = split_point parts.0 in
    elim (Option-cases (unit_shift (map lower (trim parts.1)))) [
      | inl e ↦ rw e (λ h. absurd (ground (arith, h)), λ k. absurd (ground (arith, k.1)))
      | inr (shift, e) ↦
          let n = parse_number_iff point.0 point.1 shift bytes in
          rw e (
            λ h. (shift, refl, n.0 h),
            λ k.
                let same : k.0 ≡ shift = ground (arith, k.1) in
                n.1 (subst (λ v. Written point.0 point.1 v bytes) same k.2),
          )
    ]
