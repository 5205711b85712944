-- ===== src/Verifier/Pairing/Merge.antt =====
-- The lists of credentials that `insert` of phone-auth-verifier/src/pairing.rs merges.
use bio_auth.Common.{
  ℕ, ◌≡◌, refl, sym, ap, subst, ◌∙◌, false, List, [], ◌∷◌, ◌++◌, Option, none, some, arith, any,
  text_eq, text_eq→eq, Bool-cases, Option-cases, inl, inr, ◌⊎◌,
}
use bio_auth.Verifier.TextMap.{get}
use bio_auth.Verifier.Pairing.{
  PairedDevice, PairedCredential, PairingStore, credential, find_in, kept, merged, conflicts,
  first_conflict,
}

-- The first of two outcomes.
unfoldable pub or_else {ℓ} : {A : Type ℓ} → Option A → Option A → Option A
or_else (some a) o = some a
or_else none o = o

find_in-append :
    (id : List ℕ) (xs ys : List PairedCredential)
    → find_in id (xs ++ ys) ≡ or_else (find_in id xs) (find_in id ys)
unfolding or_else
find_in-append id [] ys = refl
find_in-append id (x ∷ xs) ys = ground (arith, find_in-append id xs ys)

not_replaced :
    (id : List ℕ) (xs : List PairedCredential)
    → find_in id xs ≡ none
    → any (λ i. text_eq i.credential_id id) xs ≡ false
not_replaced id [] h = refl
not_replaced id (x ∷ xs) h = ground (arith, not_replaced id xs)

find_in-kept :
    (id : List ℕ) (xs ys : List PairedCredential)
    → find_in id xs ≡ none
    → find_in id (kept xs ys) ≡ find_in id ys
unfolding kept
find_in-kept id xs [] h = refl
find_in-kept id xs (y ∷ ys) h = elim (Bool-cases (text_eq y.credential_id id)) [
  | inl e ↦
      let same = text_eq→eq y.credential_id id e in
      let stays : any (λ i. text_eq i.credential_id y.credential_id) xs ≡ false =
        rw same (not_replaced id xs h) in
      ground (arith, stays)
  | inr e ↦ ground (arith, find_in-kept id xs ys h)
]

-- The credentials that a phone had, none if it is new.
unfoldable pub existing : PairingStore → List ℕ → List ℕ → Option PairedCredential
existing store device_id id = elim (get device_id store.devices) [
  | none ↦ none
  | some d ↦ credential d id
]

-- A phone that is paired again keeps each credential that the new list does not name, and takes those
-- that it names from that list.
pub credential-merged :
    (store : PairingStore) (device : PairedDevice) (id : List ℕ)
    → credential (merged store device) id
      ≡ or_else (credential device id) (existing store device.device_id id)
unfolding credential merged existing or_else
credential-merged store device id = elim (Option-cases (get device.device_id store.devices)) [
  | inl e ↦ elim (Option-cases (find_in id device.credentials)) [
    | inl none_here ↦ ground arith
    | inr (c, here) ↦ ground arith
  ]
  | inr (d, e) ↦ ground (
    arith,
    find_in-append id device.credentials (kept device.credentials d.credentials),
    second d (Option-cases (find_in id device.credentials)),
  )
]
  where
    second :
        (d : PairedDevice)
        → (find_in id device.credentials ≡ none)
          ⊎ ((c : PairedCredential) × (find_in id device.credentials ≡ some c))
        → or_else
            (find_in id device.credentials)
            (find_in id (kept device.credentials d.credentials))
          ≡ or_else (find_in id device.credentials) (find_in id d.credentials)
    second d (inl none_here) =
        ap (or_else (find_in id device.credentials))
          (find_in-kept id device.credentials d.credentials none_here)
    second d (inr (c, here)) = rw here refl

-- When no conflict is found, each credential of the list is free of conflicts.
pub first_conflict-none :
    (store : PairingStore) (device_id id : List ℕ) (cs : List PairedCredential)
    (c : PairedCredential)
    → first_conflict store device_id cs ≡ none
    → find_in id cs ≡ some c
    → (conflicts store device_id c ≡ false) × (c.credential_id ≡ id)
unfolding first_conflict
first_conflict-none store device_id id [] c h f = ground arith
first_conflict-none store device_id id (x ∷ cs) c h f =
    elim (Bool-cases (text_eq x.credential_id id)) [
      | inl e ↦
          let same : x ≡ c = ground arith in
          (
            subst (λ (z : PairedCredential). conflicts store device_id z ≡ false) same
                (ground arith),
            ap (λ (z : PairedCredential). z.credential_id) (sym same)
                ∙ text_eq→eq x.credential_id id e,
          )
      | inr e ↦ first_conflict-none store device_id id cs c (ground arith) (ground arith)
    ]
