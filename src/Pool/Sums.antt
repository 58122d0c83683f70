-- ===== src/Pool/Sums.antt =====
-- Sums over lists and over indices, for the accounting of pool.rs.
use virtio_mem_windows_servi.Prelude.{
  ℕ, zero, suc, ◌+◌, ◌<◌, ◌≡◌, ◌≢◌, refl, List, [], ◌∷◌, arith, length, get_elem?, none, some,
}

module _ {ℓ} {A : Type ℓ} where
  abbrev pub sum_by : (A → ℕ) → List A → ℕ
  sum_by f [] = 0
  sum_by f (x ∷ xs) = f x + sum_by f xs

  -- `f` of the element at an index, and 0 past the end.
  abbrev pub at : (A → ℕ) → List A → ℕ → ℕ
  at f xs k = elim (get_elem? xs k) [ none ↦ 0 | some x ↦ f x ]

abbrev pub sum_below : ℕ → (ℕ → ℕ) → ℕ
sum_below zero f = 0
sum_below (suc n) f = f 0 + sum_below n (λ k. f (suc k))

pub sum_below-at {ℓ} :
    {A : Type ℓ} (f : A → ℕ) (xs : List A) → sum_below (length xs) (at f xs) ≡ sum_by f xs
sum_below-at f [] = refl
sum_below-at f (x ∷ xs) = omega (arith, sum_below-at f xs)

pub sum_below-congr :
    (n : ℕ) (f g : ℕ → ℕ) → ((k : ℕ) → k < n → f k ≡ g k) → sum_below n f ≡ sum_below n g
sum_below-congr zero f g h = refl
sum_below-congr (suc n) f g h = omega (
  arith,
  h 0 (omega arith),
  sum_below-congr n (λ k. f (suc k)) (λ k. g (suc k)) (λ k p. h (suc k) (omega arith)),
)

-- Where `g` differs from `f` at one index, and by `d`, so do the sums.
pub sum_below-change :
    (n : ℕ) (f g : ℕ → ℕ) (i d : ℕ)
    → i < n
    → ((k : ℕ) → k ≢ i → f k ≡ g k)
    → f i + d ≡ g i
    → sum_below n f + d ≡ sum_below n g
sum_below-change zero f g i d lt same e = absurd (omega arith)
sum_below-change (suc n) f g zero d lt same e =
    omega (
      arith,
      sum_below-congr n (λ k. f (suc k)) (λ k. g (suc k)) (λ k p. same (suc k) (omega arith)),
    )
sum_below-change (suc n) f g (suc i) d lt same e = omega (
  arith,
  same 0 (omega arith),
  sum_below-change n (λ k. f (suc k)) (λ k. g (suc k)) i d (omega arith)
      (λ k p. same (suc k) (omega arith)) e,
)
