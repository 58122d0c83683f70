-- ===== src/Prelude/Words.antt =====
-- The `u64` operations of Rust's standard library that the code uses, on native numbers.
use Prim.Native.Nat.{ℕ, zero, suc, ◌+◌, ◌-◌, ◌*◌, ◌/◌, ◌%◌, ◌^◌, ◌<◌}
use mathlib.Core.Path.{◌≡◌}
use mathlib.Core.Bool.{Bool, true, false, ◌||◌}
use mathlib.Core.Option.{Option, none, some}
use native.Mathlib.Omega.{arith}
use native.Mathlib.Nat.{one-le-pow}
use virtio_mem_windows_servi.Prelude.Tests.{ltb, ◌==◌, if◌then◌else◌}

abbrev pub u64_mod : ℕ
u64_mod = 2 ^ 64

abbrev pub u64_max : ℕ
u64_max = 2 ^ 64 - 1

abbrev pub checked_add : ℕ → ℕ → Option ℕ
checked_add a b = if ltb (a + b) u64_mod then some (a + b) else none

abbrev pub checked_mul : ℕ → ℕ → Option ℕ
checked_mul a b = if ltb (a * b) u64_mod then some (a * b) else none

abbrev pub checked_sub : ℕ → ℕ → Option ℕ
checked_sub a b = if ltb a b then none else some (a - b)

abbrev pub saturating_add : ℕ → ℕ → ℕ
saturating_add a b = if ltb (a + b) u64_mod then a + b else u64_max

abbrev pub saturating_mul : ℕ → ℕ → ℕ
saturating_mul a b = if ltb (a * b) u64_mod then a * b else u64_max

-- `saturating_sub` is the truncated `-`.
abbrev pub abs_diff : ℕ → ℕ → ℕ
abs_diff a b = if ltb a b then b - a else a - b

-- `u64::div_ceil`.
abbrev pub div_ceil : ℕ → ℕ → ℕ
div_ceil a b = if a % b == 0 then a / b else a / b + 1

-- `a.is_multiple_of(b)`; a multiple of 0 is 0, as `n % 0` is `n`.
abbrev pub is_multiple_of : ℕ → ℕ → Bool
is_multiple_of a b = a % b == 0

-- One of 2^0 to 2^(k - 1).
is_power_below : ℕ → ℕ → Bool
is_power_below zero x = false
is_power_below (suc k) x = x == 2 ^ k || is_power_below k x

-- `u64::is_power_of_two`.
unfoldable pub is_power_of_two : ℕ → Bool
unfolding is_power_below
is_power_of_two x = is_power_below 64 x

is_power_below-pos : (k x : ℕ) → is_power_below k x ≡ true → 0 < x
unfolding is_power_below
is_power_below-pos zero x h = ground arith
is_power_below-pos (suc k) x h =
    ground (arith, is_power_below-pos k x, one-le-pow k 2 (omega arith))

pub is_power_of_two-pos : (x : ℕ) → is_power_of_two x ≡ true → 0 < x
unfolding is_power_of_two
is_power_of_two-pos x h = is_power_below-pos 64 x h
