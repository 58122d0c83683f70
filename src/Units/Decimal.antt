-- ===== src/Units/Decimal.antt =====
-- crates/virtio-mem-core/src/units.rs: the number that `parse_byte_size` reads from its digits.
use virtio_mem_windows_servi.Prelude.{
  ℕ, suc, ◌+◌, ◌-◌, ◌*◌, ◌^◌, ◌≡◌, ◌∙◌, ◌∷◌, [], arith, Text, length,
}
use virtio_mem_windows_servi.Units.Sizes.{digits_value}

-- The decimal number that digits write: each digit times ten to the number of digits behind it.
abbrev pub decimal : Text → ℕ
decimal [] = 0
decimal (c ∷ cs) = (c - 0x30) * 10 ^ length cs + decimal cs

shift_digit : (high d p : ℕ) → (high * 10 + d) * p ≡ high * (p * 10) + d * p
shift_digit high d p = omega arith

power_suc : (n : ℕ) → 10 ^ suc n ≡ 10 ^ n * 10
power_suc n = omega arith

digits_value_from : (high : ℕ) (t : Text) → digits_value high t ≡ high * 10 ^ length t + decimal t
unfolding digits_value
digits_value_from high [] = omega arith
digits_value_from high (c ∷ cs) =
    digits_value_from (high * 10 + (c - 0x30)) cs
    ∙ grind (arith, shift_digit high (c - 0x30) (10 ^ length cs), power_suc (length cs))

pub digits_value-decimal : (t : Text) → digits_value 0 t ≡ decimal t
digits_value-decimal t = digits_value_from 0 t ∙ omega arith
