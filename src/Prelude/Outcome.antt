-- ===== src/Prelude/Outcome.antt =====
-- `Result<A, E>`, with `do` for the `?` operator.
use mathlib.Core.Path.{◌≡◌, refl}
use mathlib.Core.Logic.{◌⊎◌, inl, inr}
use mathlib.Core.Bool.{Bool, true, false}
use mathlib.Core.Option.{Option, none, some}

pub data Result {ℓ κ} (E : Type ℓ) (A : Type κ) : Type (ℓ ⊔ κ) where
  ok : A → Result E A
  err : E → Result E A

infixl 5 ◌>>=◌ ◌>>◌
abbrev pub ◌>>=◌ {ε ℓ κ} :
    {E : Type ε} {A : Type ℓ} {B : Type κ}
    → (outcome : Result E A) (next : A → Result E B) → Result E B
err failure >>= next = err failure
ok value >>= next = next value

abbrev pub ◌>>◌ {ε κ} :
    {E : Type ε} {B : Type κ} → (check : Result E (Unit {0})) (rest : Result E B) → Result E B
check >> rest = check >>= λ _. rest

-- `if test { return Err(e) }`.
abbrev pub fail_if {ε} : {E : Type ε} → Bool → E → Result E (Unit {0})
fail_if true e = err e
fail_if false e = ok tt

-- `Option::ok_or`.
abbrev pub ok_or {ε ℓ} : {E : Type ε} {A : Type ℓ} → Option A → E → Result E A
ok_or none e = err e
ok_or (some a) e = ok a

-- `Result::map_err`.
abbrev pub map_err {ε φ ℓ} :
    {E : Type ε} {F : Type φ} {A : Type ℓ} → (E → F) → Result E A → Result F A
map_err f (ok a) = ok a
map_err f (err e) = err (f e)

-- `Result::is_ok`.
abbrev pub is_ok {ε ℓ} : {E : Type ε} {A : Type ℓ} → Result E A → Bool
is_ok (ok a) = true
is_ok (err e) = false

pub Result-cases {ε ℓ} :
    {E : Type ε} {A : Type ℓ} (r : Result E A) → ((a : A) × (r ≡ ok a)) ⊎ ((e : E) × (r ≡ err e))
Result-cases (ok a) = inl (a, refl)
Result-cases (err e) = inr (e, refl)

-- The parts of a chain that succeeds.
pub >>=-eq-ok {ε ℓ κ} :
    {E : Type ε} {A : Type ℓ} {B : Type κ} (outcome : Result E A) (next : A → Result E B) {last : B}
    → (outcome >>= next) ≡ ok last
    → (value : A) × (outcome ≡ ok value) × (next value ≡ ok last)
>>=-eq-ok (err failure) next h = cc
>>=-eq-ok (ok value) next h = (value, refl, h)

pub >>-eq-ok {ε κ} :
    {E : Type ε} {B : Type κ} (m : Result E (Unit {0})) (k : Result E B) {b : B}
    → (m >> k) ≡ ok b
    → (m ≡ ok tt) × (k ≡ ok b)
>>-eq-ok (ok tt) k h = (refl, h)
>>-eq-ok (err e) k h = cc

pub fail_if-eq-ok {ε} : {E : Type ε} (b : Bool) (e : E) → fail_if b e ≡ ok tt → b ≡ false
fail_if-eq-ok true e h = cc
fail_if-eq-ok false e h = refl

-- The parts of a chain after an early return.
pub guard-eq-ok {ε κ} :
    {E : Type ε} {B : Type κ} (b : Bool) (e : E) (k : Result E B) {x : B}
    → (fail_if b e >> k) ≡ ok x
    → (b ≡ false) × (k ≡ ok x)
guard-eq-ok true e k h = cc
guard-eq-ok false e k h = (refl, h)

pub ok-injective {ε ℓ} :
    {E : Type ε} {A : Type ℓ} (a b : A) → ◌≡◌ {A = Result E A} (ok a) (ok b) → a ≡ b
ok-injective a b h = cc
