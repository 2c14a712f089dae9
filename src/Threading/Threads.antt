-- ===== src/Threading/Threads.antt =====
-- Threads 0, 1, … with a value for each, such as where it stands in its code: change of one thread,
-- and the number of the first `n` threads that stand somewhere.
use fredlib.Base.{
  ltb, min, Bool-cases, inl, inr, ℕ, zero, suc, ◌+◌, ◌<◌, ◌≤◌, ◌≡◌, refl, Bool, true, false, ◌==◌,
  if◌then◌else◌, arith,
}

abbrev pub at_thread {ℓ} : {A : Type ℓ} → ℕ → A → (ℕ → A) → ℕ → A
at_thread i a f j = if j == i then a else f j

abbrev pub bit : Bool → ℕ
bit true = 1
bit false = 0

module _ {ℓ} {A : Type ℓ} (p : A → Bool) where
  pub how_many : ℕ → (ℕ → A) → ℕ
  how_many zero f = 0
  how_many (suc n) f = bit (p (f n)) + how_many n f

  pub how_many-suc : (n : ℕ) (f : ℕ → A) → how_many (suc n) f ≡ bit (p (f n)) + how_many n f
  unfolding how_many
  how_many-suc n f = refl

  pub how_many-le : (n : ℕ) (f : ℕ → A) → how_many n f ≤ n
  unfolding how_many
  how_many-le zero f = omega arith
  how_many-le (suc n) f = ground (arith, how_many-le n f)

  -- A thread from `n` on does not count.
  how_many-beyond :
      (n : ℕ) (f : ℕ → A) (i : ℕ) (a : A) → n ≤ i → how_many n (at_thread i a f) ≡ how_many n f
  unfolding how_many
  how_many-beyond zero f i a h = refl
  how_many-beyond (suc n) f i a h = ground (arith, how_many-beyond n f i a)

  pub how_many-at_thread :
      (n : ℕ) (f : ℕ → A) (i : ℕ) (a : A)
      → i < n
      → how_many n (at_thread i a f) + bit (p (f i)) ≡ how_many n f + bit (p a)
  unfolding how_many
  how_many-at_thread zero f i a h = absurd (omega arith)
  how_many-at_thread (suc n) f i a h =
      ground (arith, how_many-at_thread n f i a, how_many-beyond n f i a)

  pub how_many-zero : (n : ℕ) (f : ℕ → A) (i : ℕ) → how_many n f ≡ 0 → i < n → p (f i) ≡ false
  unfolding how_many
  how_many-zero zero f i e h = absurd (omega arith)
  how_many-zero (suc n) f i e h = ground (arith, how_many-zero n f i)

  pub how_many-all : (n : ℕ) (f : ℕ → A) (i : ℕ) → how_many n f ≡ n → i < n → p (f i) ≡ true
  unfolding how_many
  how_many-all zero f i e h = absurd (omega arith)
  how_many-all (suc n) f i e h = ground (arith, how_many-all n f i, how_many-le n f)

  pub how_many-none : (n : ℕ) (f : ℕ → A) → ((i : ℕ) → i < n → p (f i) ≡ false) → how_many n f ≡ 0
  unfolding how_many
  how_many-none zero f h = refl
  how_many-none (suc n) f h =
      ground (arith, h n (omega arith), how_many-none n f (λ i lt. h i (omega arith)))

  pub how_many-every : (n : ℕ) (f : ℕ → A) → ((i : ℕ) → i < n → p (f i) ≡ true) → how_many n f ≡ n
  unfolding how_many
  how_many-every zero f h = refl
  how_many-every (suc n) f h =
      ground (arith, h n (omega arith), how_many-every n f (λ i lt. h i (omega arith)))

  -- A change of all threads that the test does not see.
  pub how_many-map :
      (n : ℕ) (f : ℕ → A) (g : A → A)
      → ((a : A) → p (g a) ≡ p a)
      → how_many n (λ i. g (f i)) ≡ how_many n f
  unfolding how_many
  how_many-map zero f g h = refl
  how_many-map (suc n) f g h = ground (arith, h (f n), how_many-map n f g h)

-- The threads below `k`.
pub how_many-first :
    (p : Bool → Bool) (n k : ℕ)
    → p true ≡ true
    → p false ≡ false
    → how_many p n (λ i. ltb i k) ≡ min n k
unfolding how_many
how_many-first p zero k t f = omega arith
how_many-first p (suc n) k t f = elim (Bool-cases (ltb n k)) [
  | inl low ↦ rw (low, t) (ground (arith, how_many-first p n k t f))
  | inr high ↦ rw (high, f) (ground (arith, how_many-first p n k t f))
]

-- Two ways to count the same threads.
pub how_many_same {ℓ κ} :
    {A : Type ℓ} {B : Type κ} (p : A → Bool) (q : B → Bool) (n : ℕ) (f : ℕ → A) (g : ℕ → B)
    → ((i : ℕ) → p (f i) ≡ q (g i))
    → how_many p n f ≡ how_many q n g
unfolding how_many
how_many_same p q zero f g h = refl
how_many_same p q (suc n) f g h = ground (arith, h n, how_many_same p q n f g h)
