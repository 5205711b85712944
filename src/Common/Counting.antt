-- ===== src/Common/Counting.antt =====
-- Lists of numbers below a bound, each at most once.
use Prim.Native.Nat.{ℕ, zero, suc, ◌+◌, ◌≤◌, ◌<◌}
use mathlib.Core.Path.{◌≡◌, refl, ap, subst}
use mathlib.Core.Logic.{inl, inr}
use mathlib.Core.Bool.{Bool, true, false, ◌||◌}
use mathlib.Core.List.{List, [], ◌∷◌, ◌++◌}
use native.Mathlib.Omega.{arith}
use bio_auth.Common.Tests.{◌==◌, if◌then◌else◌, Bool-cases}
use bio_auth.Common.Lists.{All, length}

unfoldable pub mem : ℕ → List ℕ → Bool
mem k [] = false
mem k (x ∷ xs) = x == k || mem k xs

abbrev pub IsDistinct : List ℕ → Type 0
IsDistinct [] = Unit
IsDistinct (x ∷ xs) = (mem x xs ≡ false) × IsDistinct xs

abbrev pub AreBelow : ℕ → List ℕ → Type 0
AreBelow n = All (λ k. k < n)

unfoldable pub without : ℕ → List ℕ → List ℕ
without k [] = []
without k (x ∷ xs) = let rest = without k xs in if x == k then rest else x ∷ rest

mem-without : (j k : ℕ) (xs : List ℕ) → mem j xs ≡ false → mem j (without k xs) ≡ false
unfolding mem without
mem-without j k [] h = refl
mem-without j k (x ∷ xs) h = ground (arith, mem-without j k xs)

without-IsDistinct : (k : ℕ) (xs : List ℕ) → IsDistinct xs → IsDistinct (without k xs)
unfolding without
without-IsDistinct k [] d = tt
without-IsDistinct k (x ∷ xs) (new, d) = elim (Bool-cases (x == k)) [
  | inl same ↦ rw same (without-IsDistinct k xs d)
  | inr other ↦ rw other (mem-without x k xs new, without-IsDistinct k xs d)
]

without-AreBelow : (n : ℕ) (xs : List ℕ) → AreBelow (suc n) xs → AreBelow n (without n xs)
unfolding without
without-AreBelow n [] h = tt
without-AreBelow n (x ∷ xs) (first, h) = elim (Bool-cases (x == n)) [
  | inl same ↦ rw same (without-AreBelow n xs h)
  | inr other ↦ let low : x < n = ground (arith, first) in rw other (low, without-AreBelow n xs h)
]

without_absent : (k : ℕ) (xs : List ℕ) → mem k xs ≡ false → without k xs ≡ xs
unfolding mem without
without_absent k [] h = refl
without_absent k (x ∷ xs) h = ground (arith, without_absent k xs)

module _ (w : ℕ → ℕ) where
  unfoldable pub weight : List ℕ → ℕ
  weight [] = 0
  weight (x ∷ xs) = w x + weight xs

  unfoldable pub weight_below : ℕ → ℕ
  weight_below zero = 0
  weight_below (suc n) = weight_below n + w n

  weight-without : (k : ℕ) (xs : List ℕ) → IsDistinct xs → weight xs ≤ w k + weight (without k xs)
  unfolding weight without
  weight-without k [] d = omega arith
  weight-without k (x ∷ xs) (new, d) = elim (Bool-cases (x == k)) [
    | inl same ↦
        let key : x ≡ k = ground arith in
        let absent : mem k xs ≡ false = subst (λ (z : ℕ). mem z xs ≡ false) key new in
        rw (same, without_absent k xs absent) (omega (arith, ap w key))
    | inr other ↦ rw other (omega (arith, weight-without k xs d))
  ]

  no_weight : (xs : List ℕ) → AreBelow 0 xs → weight xs ≡ 0
  unfolding weight
  no_weight [] h = refl
  no_weight (x ∷ xs) h = absurd (omega arith)

  -- Distinct numbers below `n` weigh at most what all of them do.
  pub weight-le : (n : ℕ) (xs : List ℕ) → IsDistinct xs → AreBelow n xs → weight xs ≤ weight_below n
  unfolding weight_below
  weight-le zero xs d h = omega (arith, no_weight xs h)
  weight-le (suc n) xs d h = omega (
    arith,
    weight-without n xs d,
    weight-le n (without n xs) (without-IsDistinct n xs d) (without-AreBelow n xs h),
  )

weight_one : (xs : List ℕ) → weight (λ k. 1) xs ≡ length xs
unfolding weight
weight_one [] = refl
weight_one (x ∷ xs) = omega (arith, weight_one xs)

weight_one_below : (n : ℕ) → weight_below (λ k. 1) n ≡ n
unfolding weight_below
weight_one_below zero = refl
weight_one_below (suc n) = omega (arith, weight_one_below n)

pub length-distinct : (n : ℕ) (xs : List ℕ) → IsDistinct xs → AreBelow n xs → length xs ≤ n
length-distinct n xs d h =
    omega (arith, weight_one xs, weight_one_below n, weight-le (λ k. 1) n xs d h)

-- As many distinct numbers below `n` as there are, are all of them.
pub all_present :
    (n : ℕ) (xs : List ℕ)
    → IsDistinct xs
    → AreBelow n xs
    → length xs ≡ n
    → (k : ℕ) → k < n
    → mem k xs ≡ true
all_present n xs d h full k below = elim (Bool-cases (mem k xs)) [
  | inl there ↦ there
  | inr absent ↦ absurd (omega (arith, length-distinct n (k ∷ xs) (absent, d) (below, h)))
]

mem-without_ne :
    (j k : ℕ) (xs : List ℕ) → mem j xs ≡ true → (k == j) ≡ false → mem j (without k xs) ≡ true
unfolding mem without
mem-without_ne j k [] h ne = cc
mem-without_ne j k (x ∷ xs) h ne = ground (arith, mem-without_ne j k xs)

module _ (w : ℕ → ℕ) where
  weight-split :
      (k : ℕ) (xs : List ℕ) → mem k xs ≡ true → w k + weight w (without k xs) ≤ weight w xs
  unfolding weight mem without
  weight-split k [] h = cc
  weight-split k (x ∷ xs) h = elim (Bool-cases (x == k)) [
    | inl same ↦
        let key : x ≡ k = ground arith in rw same (omega (arith, ap w key, without_lighter k xs))
    | inr other ↦ rw other (omega (arith, weight-split k xs (ground arith)))
  ]
    where
      without_lighter : (k : ℕ) (xs : List ℕ) → weight w (without k xs) ≤ weight w xs
      without_lighter k [] = omega arith
      without_lighter k (x ∷ xs) = elim (Bool-cases (x == k)) [
        | inl same ↦ rw same (omega (arith, without_lighter k xs))
        | inr other ↦ rw other (omega (arith, without_lighter k xs))
      ]

  -- What has all numbers below `n` weighs at least what they do.
  pub weight-ge :
      (n : ℕ) (xs : List ℕ) → ((k : ℕ) → k < n → mem k xs ≡ true) → weight_below w n ≤ weight w xs
  unfolding weight_below
  weight-ge zero xs h = omega arith
  weight-ge (suc n) xs h = omega (
    arith,
    weight-split n xs (h n (omega arith)),
    weight-ge n (without n xs)
        (λ k below. mem-without_ne k n xs (h k (omega arith)) (ground (arith, below))),
  )

mem-snoc :
    (j k : ℕ) (xs : List ℕ) → mem j xs ≡ false → (k == j) ≡ false → mem j (xs ++ k ∷ []) ≡ false
unfolding mem
mem-snoc j k [] h ne = ground arith
mem-snoc j k (x ∷ xs) h ne = ground (arith, mem-snoc j k xs)

pub snoc-IsDistinct :
    (k : ℕ) (xs : List ℕ) → IsDistinct xs → mem k xs ≡ false → IsDistinct (xs ++ k ∷ [])
unfolding mem
snoc-IsDistinct k [] d h = (refl, tt)
snoc-IsDistinct k (x ∷ xs) (new, d) h =
    (mem-snoc x k xs new (ground (arith, h)), snoc-IsDistinct k xs d (ground arith))

mem-prefix : (j : ℕ) (xs ys : List ℕ) → mem j (xs ++ ys) ≡ false → mem j xs ≡ false
unfolding mem
mem-prefix j [] ys h = refl
mem-prefix j (x ∷ xs) ys h = ground (arith, mem-prefix j xs ys)

pub prefix-IsDistinct : (xs ys : List ℕ) → IsDistinct (xs ++ ys) → IsDistinct xs
prefix-IsDistinct [] ys d = tt
prefix-IsDistinct (x ∷ xs) ys (new, d) = (mem-prefix x xs ys new, prefix-IsDistinct xs ys d)

mem-middle : (j k : ℕ) (xs ys : List ℕ) → mem j (xs ++ k ∷ ys) ≡ false → (k == j) ≡ false
unfolding mem
mem-middle j k [] ys h = ground arith
mem-middle j k (x ∷ xs) ys h = mem-middle j k xs ys (ground arith)

-- A number of a distinct list is not among those before it.
pub not_before : (k : ℕ) (xs ys : List ℕ) → IsDistinct (xs ++ k ∷ ys) → mem k xs ≡ false
unfolding mem
not_before k [] ys d = refl
not_before k (x ∷ xs) ys (new, d) =
    let other : (x == k) ≡ false = ground (arith, mem-middle x k xs ys new) in
    ground (arith, not_before k xs ys d)

pub weight-snoc : (w : ℕ → ℕ) (xs : List ℕ) (k : ℕ) → weight w (xs ++ k ∷ []) ≡ weight w xs + w k
unfolding weight
weight-snoc w [] k = omega arith
weight-snoc w (x ∷ xs) k = omega (arith, weight-snoc w xs k)

pub weight_below_shift :
    (w : ℕ → ℕ) (n : ℕ) → weight_below w (suc n) ≡ w 0 + weight_below (λ k. w (suc k)) n
unfolding weight_below
weight_below_shift w zero = omega arith
weight_below_shift w (suc n) = omega (arith, weight_below_shift w n)
