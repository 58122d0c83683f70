-- ===== src/Prelude/Decimal.antt =====
-- The decimal digits in which `format!` prints a `u64`.
use Prim.Native.Nat.{ℕ, zero, suc, ◌+◌, ◌/◌, ◌%◌}
use mathlib.Core.List.{[], ◌∷◌}
use virtio_mem_windows_servi.Prelude.Tests.{ltb, if◌then◌else◌}
use virtio_mem_windows_servi.Prelude.Strings.{Text}

-- The digits of `value` in front of `rest`; a `u64` has at most 20.
digits : ℕ → ℕ → Text → Text
digits zero value rest = rest
digits (suc k) value rest =
    let digit = 0x30 + value % 10 in
    let more = digits k (value / 10) (digit ∷ rest) in if ltb value 10 then digit ∷ rest else more

unfoldable pub decimal : ℕ → Text
unfolding digits
decimal value = digits 20 value []
