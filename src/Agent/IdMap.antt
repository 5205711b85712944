-- ===== src/Agent/IdMap.antt =====
-- The `HashMap` and the `BTreeMap` of phone-auth-agent/src/ble_framing.rs, keyed by numbers.
use bio_auth.Common.{
  ℕ, ◌≡◌, ◌≤◌, refl, ap, arith, List, [], ◌∷◌, ◌++◌, Bool, true, false, ◌||◌, Option, none, some,
  if◌then◌else◌, ◌==◌, All, length, suc, Bool-cases, inl, inr, subst,
}

module _ {ℓ} {V : Type ℓ} where
  unfoldable pub get : ℕ → List (ℕ × V) → Option V
  get k [] = none
  get k ((j, v) ∷ m) = if j == k then some v else get k m

  unfoldable pub contains : ℕ → List (ℕ × V) → Bool
  contains k [] = false
  contains k ((j, v) ∷ m) = j == k || contains k m

  unfoldable pub put : ℕ → V → List (ℕ × V) → List (ℕ × V)
  put k v [] = (k, v) ∷ []
  put k v ((j, w) ∷ m) = if j == k then (k, v) ∷ m else (j, w) ∷ put k v m

  unfoldable pub remove : ℕ → List (ℕ × V) → List (ℕ × V)
  remove k [] = []
  remove k ((j, w) ∷ m) = let rest = remove k m in if j == k then rest else (j, w) ∷ rest

  -- `entry(k).or_insert(v)`, as a value.
  abbrev pub get_or : ℕ → V → List (ℕ × V) → V
  get_or k v m = elim (get k m) [ none ↦ v | some w ↦ w ]

  pub get-put :
      (j k : ℕ) (v : V) (m : List (ℕ × V))
      → get j (put k v m) ≡ (if k == j then some v else get j m)
  unfolding get put
  get-put j k v [] = refl
  get-put j k v ((i, w) ∷ m) = ground (arith, get-put j k v m)

  pub get-remove :
      (j k : ℕ) (m : List (ℕ × V)) → get j (remove k m) ≡ (if k == j then none else get j m)
  unfolding get remove
  get-remove j k [] = ground arith
  get-remove j k ((i, w) ∷ m) = ground (arith, get-remove j k m)

  pub length-put :
      (k : ℕ) (v : V) (m : List (ℕ × V))
      → length (put k v m) ≡ (if contains k m then length m else suc (length m))
  unfolding put contains
  length-put k v [] = refl
  length-put k v ((i, w) ∷ m) = ground (arith, length-put k v m)

  pub length-remove : (k : ℕ) (m : List (ℕ × V)) → length (remove k m) ≤ length m
  unfolding remove
  length-remove k [] = omega arith
  length-remove k ((i, w) ∷ m) = ground (arith, length-remove k m)

  pub get-contains : (k : ℕ) (m : List (ℕ × V)) → contains k m ≡ false → get k m ≡ none
  unfolding get contains
  get-contains k [] h = refl
  get-contains k ((i, w) ∷ m) h = ground (arith, get-contains k m)

  pub contains-put : (k : ℕ) (v : V) (m : List (ℕ × V)) → contains k (put k v m) ≡ true
  unfolding put contains
  contains-put k v [] = ground arith
  contains-put k v ((i, w) ∷ m) = ground (arith, contains-put k v m)

  pub get_or-put : (k : ℕ) (v w : V) (m : List (ℕ × V)) → get_or k w (put k v m) ≡ v
  get_or-put k v w m =
      let found : get k (put k v m) ≡ some v = ground (arith, get-put k k v m) in
      ap (λ (o : Option V). elim o [ none ↦ w | some u ↦ u ]) found

  -- A key that is new goes to the end.
  pub put_new :
      (k : ℕ) (v : V) (m : List (ℕ × V)) → contains k m ≡ false → put k v m ≡ m ++ (k, v) ∷ []
  unfolding put contains
  put_new k v [] h = refl
  put_new k v ((i, w) ∷ m) h = ground (arith, put_new k v m)

  pub put-All {κ} :
      (P : ℕ × V → Type κ) (k : ℕ) (v : V) (m : List (ℕ × V))
      → P (k, v)
      → All P m
      → All P (put k v m)
  unfolding put
  put-All P k v [] new old = (new, tt)
  put-All P k v ((i, w) ∷ m) new (first, old) = elim (Bool-cases (i == k)) [
    | inl same ↦ rw same (new, old)
    | inr other ↦ rw other (first, put-All P k v m new old)
  ]

  pub remove-All {κ} :
      (P : ℕ × V → Type κ) (k : ℕ) (m : List (ℕ × V)) → All P m → All P (remove k m)
  unfolding remove
  remove-All P k [] old = tt
  remove-All P k ((i, w) ∷ m) (first, old) = elim (Bool-cases (i == k)) [
    | inl same ↦ rw same (remove-All P k m old)
    | inr other ↦ rw other (first, remove-All P k m old)
  ]

  pub get-All {κ} :
      (P : ℕ × V → Type κ) (k : ℕ) (v : V) (m : List (ℕ × V))
      → All P m
      → get k m ≡ some v
      → P (k, v)
  unfolding get
  get-All P k v [] old e = cc
  get-All P k v ((i, w) ∷ m) (first, old) e = elim (Bool-cases (i == k)) [
    | inl same ↦
        let key : i ≡ k = ground arith in
        let value : w ≡ v = ground arith in
        subst (λ (z : V). P (k, z)) value (subst (λ (z : ℕ). P (z, w)) key first)
    | inr other ↦ get-All P k v m old (ground arith)
  ]
