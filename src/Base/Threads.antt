-- ===== src/Base/Threads.antt =====
-- Threads by their number: a family of thread states, one of which changes at a step, and sums over
-- the first n of them.
use Prim.Native.Nat.{ℕ, zero, suc, ◌+◌, ◌*◌, ◌≤◌, ◌<◌}
use mathlib.Core.Path.{◌≡◌, refl, sym}
use mathlib.Core.Bool.{false}
use mathlib.Core.Logic.{inl, inr}
use native.Mathlib.Omega.{arith}
use ws2425_bs_praktikum.Base.Tests.{Bool-cases, ◌==◌, if◌then◌else◌}

module _ {ℓ} {A : Type ℓ} where
  abbrev pub put_at : (ℕ → A) → ℕ → A → ℕ → A
  put_at threads i a j = if j == i then a else threads j

  -- The sum of `weight` over the threads 0, ..., n - 1.
  pub sum_of : (A → ℕ) → ℕ → (ℕ → A) → ℕ
  sum_of weight zero threads = 0
  sum_of weight (suc n) threads = weight (threads n) + sum_of weight n threads

  sum_of-outside :
      (weight : A → ℕ) (n : ℕ) (threads : ℕ → A) (i : ℕ) (a : A)
      → n ≤ i
      → sum_of weight n (put_at threads i a) ≡ sum_of weight n threads
  unfolding sum_of
  sum_of-outside weight zero threads i a h = refl
  sum_of-outside weight (suc n) threads i a h = ground (arith, sum_of-outside weight n threads i a)

  -- A step of thread i changes the sum by what it changes of its own weight.
  pub sum_of-put_at :
      (weight : A → ℕ) (n : ℕ) (threads : ℕ → A) (i : ℕ) (a : A)
      → i < n
      → sum_of weight n (put_at threads i a) + weight (threads i)
        ≡ sum_of weight n threads + weight a
  unfolding sum_of
  sum_of-put_at weight zero threads i a h = elim h [ ]
  sum_of-put_at weight (suc n) threads i a h =
      ground (arith, sum_of-put_at weight n threads i a, sum_of-outside weight n threads i a)

  pub sum_of-const : (weight : A → ℕ) (n : ℕ) (a : A) → sum_of weight n (λ _. a) ≡ n * weight a
  unfolding sum_of
  sum_of-const weight zero a = omega arith
  sum_of-const weight (suc n) a = omega (arith, sum_of-const weight n a)

  -- One thread's share of a sum.
  pub sum_of-share :
      (weight : A → ℕ) (n : ℕ) (threads : ℕ → A) (i : ℕ)
      → i < n
      → weight (threads i) ≤ sum_of weight n threads
  unfolding sum_of
  sum_of-share weight zero threads i h = elim h [ ]
  sum_of-share weight (suc n) threads i h = elim (Bool-cases (i == n)) [
    | inl same ↦ ground arith
    | inr other ↦ ground (arith, sum_of-share weight n threads i)
  ]

  -- A sum that is not 0 has a thread that counts.
  pub sum_of-some :
      (weight : A → ℕ) (n : ℕ) (threads : ℕ → A)
      → 0 < sum_of weight n threads
      → (i : ℕ) × (i < n) × (0 < weight (threads i))
  unfolding sum_of
  sum_of-some weight zero threads h = absurd (omega arith)
  sum_of-some weight (suc n) threads h = elim (Bool-cases (weight (threads n) == 0)) [
    | inl none ↦
        let (i, lt, counts) = sum_of-some weight n threads (ground arith) in
        (i, omega arith, counts)
    | inr some ↦ (n, omega arith, ground arith)
  ]

  pub sum_of-same :
      (weight other : A → ℕ) (n : ℕ) (threads : ℕ → A)
      → ((i : ℕ) → i < n → weight (threads i) ≡ other (threads i))
      → sum_of weight n threads ≡ sum_of other n threads
  unfolding sum_of
  sum_of-same weight other zero threads e = refl
  sum_of-same weight other (suc n) threads e =
      omega
        (arith, e n (omega arith), sum_of-same weight other n threads (λ i h. e i (omega arith)))

sum_of-le :
    (n : ℕ) (f g : ℕ → ℕ)
    → ((j : ℕ) → j < n → f j ≤ g j)
    → sum_of (λ x. x) n f ≤ sum_of (λ x. x) n g
unfolding sum_of
sum_of-le zero f g h = omega arith
sum_of-le (suc n) f g h =
    omega (arith, h n (omega arith), sum_of-le n f g (λ j lt. h j (omega arith)))

pub sum_of-most : (n k : ℕ) (f : ℕ → ℕ) → ((j : ℕ) → j < n → f j ≤ k) → sum_of (λ x. x) n f ≤ n * k
unfolding sum_of
sum_of-most zero k f h = omega arith
sum_of-most (suc n) k f h =
    omega (arith, h n (omega arith), sum_of-most n k f (λ j lt. h j (omega arith)))

-- One summand is less, and no other is more.
pub sum_of-less :
    (n : ℕ) (f g : ℕ → ℕ) (i : ℕ)
    → ((j : ℕ) → j < n → (j == i) ≡ false → f j ≤ g j)
    → i < n
    → f i < g i
    → sum_of (λ x. x) n f < sum_of (λ x. x) n g
unfolding sum_of
sum_of-less zero f g i h lt less = absurd (omega arith)
sum_of-less (suc n) f g i h lt less = elim (Bool-cases (n == i)) [
  | inl same ↦
      let e : n ≡ i = ground arith in
      let less' : f n < g n = rw e less in
      omega (arith, sum_of-le n f g (λ j small. h j (omega arith) (ground arith)))
  | inr other ↦ omega (
    arith,
    h n (omega arith) other,
    sum_of-less n f g i (λ j small. h j (omega arith)) (ground arith) less,
  )
]

-- Only one summand changes.
pub sum_of-swap :
    (n : ℕ) (f g : ℕ → ℕ) (i : ℕ)
    → ((j : ℕ) → j < n → (j == i) ≡ false → f j ≡ g j)
    → i < n
    → sum_of (λ x. x) n f + g i ≡ sum_of (λ x. x) n g + f i
unfolding sum_of
sum_of-swap zero f g i h lt = absurd (omega arith)
sum_of-swap (suc n) f g i h lt = elim (Bool-cases (n == i)) [
  | inl same ↦
      let e : n ≡ i = ground arith in
      let below =
        sum_of-le n f g (λ j small. let k = h j (omega arith) (ground arith) in omega arith) in
      let above =
        sum_of-le n g f (λ j small. let k = h j (omega arith) (ground arith) in omega arith) in
      rw (sym e) (omega arith)
  | inr other ↦ omega (
    arith,
    h n (omega arith) other,
    sum_of-swap n f g i (λ j small. h j (omega arith)) (ground arith),
  )
]
