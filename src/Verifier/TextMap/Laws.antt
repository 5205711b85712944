-- ===== src/Verifier/TextMap/Laws.antt =====
-- Looking up, putting in and taking out, for the map of phone-auth-verifier/src/pairing.rs.
use bio_auth.Common.{
  ℕ, ◌≡◌, refl, ap, sym, subst, ◌∙◌, true, List, [], ◌∷◌, none, some, arith, if◌then◌else◌, text_eq,
  text_eq→eq, Bool-cases, Option-cases, inl, inr,
}
use bio_auth.Verifier.TextMap.{text_ltb, get, place, replace, insert, remove, Distinct}

text_eq_comm : (i j : List ℕ) → text_eq i j ≡ text_eq j i
text_eq_comm [] [] = refl
text_eq_comm [] (y ∷ ys) = refl
text_eq_comm (x ∷ xs) [] = refl
text_eq_comm (x ∷ xs) (y ∷ ys) = ground (arith, text_eq_comm xs ys)

text_eq-same : (i j k : List ℕ) → text_eq i j ≡ true → text_eq i k ≡ text_eq j k
text_eq-same i j k e = ap (λ (z : List ℕ). text_eq z k) (text_eq→eq i j e)

module _ {ℓ} {V : Type ℓ} where
  absent :
      (j : List ℕ) (v : V) (m : List (List ℕ × V)) → get j m ≡ none → insert j v m ≡ place j v m
  unfolding insert
  absent j v m e = ground arith

  present :
      (j : List ℕ) (v w : V) (m : List (List ℕ × V))
      → get j m ≡ some w
      → insert j v m ≡ replace j v m
  unfolding insert
  present j v w m e = ground arith

  get-place :
      (j k : List ℕ) (v : V) (m : List (List ℕ × V))
      → get j m ≡ none
      → get k (place j v m) ≡ (if text_eq j k then some v else get k m)
  unfolding get place
  get-place j k v [] h = refl
  get-place j k v ((i, w) ∷ m) h = elim (Bool-cases (text_ltb j i)) [
    | inl e ↦ rw e refl
    | inr e ↦ rw e (
        ground (
          arith,
          get-place j k v m,
          text_eq-same i k j,
          text_eq_comm k j,
          text_eq-same j k i,
          text_eq_comm k i,
        ))
  ]

  get-replace :
      (j k : List ℕ) (v w : V) (m : List (List ℕ × V))
      → get j m ≡ some w
      → get k (replace j v m) ≡ (if text_eq j k then some v else get k m)
  unfolding get replace
  get-replace j k v w [] h = ground arith
  get-replace j k v w ((i, u) ∷ m) h = elim (Bool-cases (text_eq i j)) [
    | inl e ↦ rw e (ground (arith, text_eq-same i j k))
    | inr e ↦ rw e (ground (arith, get-replace j k v w m, text_eq-same i k j, text_eq_comm k j))
  ]

  pub get-insert :
      (j k : List ℕ) (v : V) (m : List (List ℕ × V))
      → get k (insert j v m) ≡ (if text_eq j k then some v else get k m)
  get-insert j k v m = elim (Option-cases (get j m)) [
    | inl e ↦ ap (get k) (absent j v m e) ∙ get-place j k v m e
    | inr (w, e) ↦ ap (get k) (present j v w m e) ∙ get-replace j k v w m e
  ]

  pub get-remove :
      (j k : List ℕ) (m : List (List ℕ × V))
      → get k (remove j m) ≡ (if text_eq j k then none else get k m)
  unfolding get remove
  get-remove j k [] = ground arith
  get-remove j k ((i, w) ∷ m) = elim (Bool-cases (text_eq i j)) [
    | inl e ↦ rw e (ground (arith, get-remove j k m, text_eq-same i j k))
    | inr e ↦ rw e (ground (arith, get-remove j k m, text_eq-same i k j, text_eq_comm k j))
  ]

  place-Distinct :
      (k : List ℕ) (v : V) (m : List (List ℕ × V))
      → get k m ≡ none
      → Distinct m
      → Distinct (place k v m)
  unfolding get place
  place-Distinct k v [] h d = (refl, tt)
  place-Distinct k v ((j, w) ∷ m) h d = elim (Bool-cases (text_ltb k j)) [
    | inl e ↦ rw e (h, d)
    | inr e ↦ rw e (
      ground (arith, get-place k j v m, text_eq_comm k j),
      place-Distinct k v m (ground arith) d.1,
    )
  ]

  replace-missing :
      (k : List ℕ) (v : V) (m : List (List ℕ × V)) → get k m ≡ none → replace k v m ≡ m
  unfolding get replace
  replace-missing k v [] h = refl
  replace-missing k v ((j, w) ∷ m) h = elim (Bool-cases (text_eq j k)) [
    | inl e ↦ ground arith
    | inr e ↦ rw e (ap (◌∷◌ (j, w)) (replace-missing k v m (ground arith)))
  ]

  replace-Distinct :
      (k : List ℕ) (v : V) (m : List (List ℕ × V)) → Distinct m → Distinct (replace k v m)
  unfolding get replace
  replace-Distinct k v [] d = tt
  replace-Distinct k v ((j, w) ∷ m) d = elim (Bool-cases (text_eq j k)) [
    | inl e ↦ rw e (subst (λ (z : List ℕ). get z m ≡ none) (text_eq→eq j k e) d.0, d.1)
    | inr e ↦ rw e (
      elim (Option-cases (get k m)) [
        | inl f ↦ rw (replace-missing k v m f) d.0
        | inr (u, f) ↦ ground (arith, get-replace k j v u m, text_eq_comm k j)
      ],
      replace-Distinct k v m d.1,
    )
  ]

  pub insert-Distinct :
      (k : List ℕ) (v : V) (m : List (List ℕ × V)) → Distinct m → Distinct (insert k v m)
  insert-Distinct k v m d = elim (Option-cases (get k m)) [
    | inl e ↦ subst Distinct (sym (absent k v m e)) (place-Distinct k v m e d)
    | inr (w, e) ↦ subst Distinct (sym (present k v w m e)) (replace-Distinct k v m d)
  ]

  pub remove-Distinct : (k : List ℕ) (m : List (List ℕ × V)) → Distinct m → Distinct (remove k m)
  unfolding get remove
  remove-Distinct k [] d = tt
  remove-Distinct k ((j, w) ∷ m) d = elim (Bool-cases (text_eq j k)) [
    | inl e ↦ rw e (remove-Distinct k m d.1)
    | inr e ↦ rw e (ground (arith, get-remove k j m, text_eq_comm k j), remove-Distinct k m d.1)
  ]
