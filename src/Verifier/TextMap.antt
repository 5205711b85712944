-- ===== src/Verifier/TextMap.antt =====
-- Rust's `BTreeMap<String, V>`, as a list of entries in the order of their keys.
pub mod Laws
use bio_auth.Common.{
  ℕ, ◌≡◌, refl, Bool, true, false, List, [], ◌∷◌, Option, none, some, arith, if◌then◌else◌, ltb,
  ◌==◌, text_eq, text_eq_refl, text_eq→eq, map,
}

-- The order of strings: by their bytes.
abbrev pub text_ltb : List ℕ → List ℕ → Bool
text_ltb xs [] = false
text_ltb [] (y ∷ ys) = true
text_ltb (x ∷ xs) (y ∷ ys) = if x == y then text_ltb xs ys else ltb x y

abbrev pub TextMap {ℓ} : Type ℓ → Type ℓ
TextMap V = List (List ℕ × V)

module _ {ℓ} {V : Type ℓ} where
  unfoldable pub get : List ℕ → List (List ℕ × V) → Option V
  get k [] = none
  get k ((j, v) ∷ m) = if text_eq j k then some v else get k m

  unfoldable pub place : List ℕ → V → List (List ℕ × V) → List (List ℕ × V)
  place k v [] = (k, v) ∷ []
  place k v ((j, w) ∷ m) = if text_ltb k j then (k, v) ∷ (j, w) ∷ m else (j, w) ∷ place k v m

  unfoldable pub replace : List ℕ → V → List (List ℕ × V) → List (List ℕ × V)
  replace k v [] = []
  replace k v ((j, w) ∷ m) = if text_eq j k then (k, v) ∷ m else (j, w) ∷ replace k v m

  unfoldable pub insert : List ℕ → V → List (List ℕ × V) → List (List ℕ × V)
  insert k v m = elim (get k m) [ none ↦ place k v m | some _ ↦ replace k v m ]

  unfoldable pub remove : List ℕ → List (List ℕ × V) → List (List ℕ × V)
  remove k [] = []
  remove k ((j, w) ∷ m) = if text_eq j k then remove k m else (j, w) ∷ remove k m

  abbrev pub values : List (List ℕ × V) → List V
  values [] = []
  values ((k, v) ∷ m) = v ∷ values m

  -- No key stands twice.
  abbrev pub Distinct : List (List ℕ × V) → Type ℓ
  Distinct [] = Unit
  Distinct ((k, v) ∷ m) = (get k m ≡ none) × Distinct m
