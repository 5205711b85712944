-- ===== src/Verifier/Pairing/Removal.antt =====
-- `remove` of phone-auth-verifier/src/pairing.rs.
use bio_auth.Common.{
  ℕ, ◌≡◌, ◌↔◌, refl, ap, subst, ◌∙◌, false, List, none, some, arith, Result, text_eq, text_eq→eq,
  Bool-cases, Option-cases, inl, inr, if◌then◌else◌,
}
use bio_auth.Verifier.TextMap.{TextMap, get, Distinct}
use bio_auth.Verifier.TextMap
use bio_auth.Verifier.TextMap.Laws.{get-remove, remove-Distinct}
use bio_auth.Verifier.Pairing.{
  PairedDevice, PairedCredential, PairingStore, PairingError, find_credential, remove,
}
use bio_auth.Verifier.Pairing.Lookup.{IsSound, find_credential_iff}

remove-known :
    (store : PairingStore) (device_id : List ℕ) (written : Result PairingError (Unit {0}))
    (d : PairedDevice)
    → get device_id store.devices ≡ some d
    → (remove store device_id written).0.devices ≡ TextMap.remove device_id store.devices
unfolding remove
remove-known store device_id written d e = ground arith

remove-unknown :
    (store : PairingStore) (device_id : List ℕ) (written : Result PairingError (Unit {0}))
    → get device_id store.devices ≡ none
    → (remove store device_id written).0.devices ≡ store.devices
unfolding remove
remove-unknown store device_id written e = ground arith

get-remove_phone :
    (store : PairingStore) (device_id k : List ℕ) (written : Result PairingError (Unit {0}))
    → get k (remove store device_id written).0.devices
      ≡ (if text_eq device_id k then none else get k store.devices)
get-remove_phone store device_id k written = elim (Option-cases (get device_id store.devices)) [
  | inr (d, e) ↦
      ap (get k) (remove-known store device_id written d e) ∙ get-remove device_id k store.devices
  | inl e ↦ ap (get k) (remove-unknown store device_id written e) ∙ missing e
]
  where
    missing :
        get device_id store.devices ≡ none
        → get k store.devices ≡ (if text_eq device_id k then none else get k store.devices)
    missing e = elim (Bool-cases (text_eq device_id k)) [
      | inl same ↦
          rw same
            (subst (λ (z : List ℕ). get z store.devices ≡ none) (text_eq→eq device_id k same) e)
      | inr other ↦ rw other refl
    ]

-- Taking a phone out leaves every phone under its own id and every credential with at most one phone.
pub remove-IsSound :
    (store : PairingStore) (device_id : List ℕ) (written : Result PairingError (Unit {0}))
    → IsSound store.devices
    → IsSound (remove store device_id written).0.devices
remove-IsSound store device_id written s = record {
  distinct = elim (Option-cases (get device_id store.devices)) [
    | inr (d, e) ↦
        rw (remove-known store device_id written d e)
          (remove-Distinct device_id store.devices s.distinct)
    | inl e ↦ rw (remove-unknown store device_id written e) s.distinct
  ];
  keyed = λ k d h. s.keyed k d (before k d h);
  unique = λ j k id d e c f gj gk. s.unique j k id d e c f (before j d gj) (before k e gk);
}
  where
    before :
        (k : List ℕ) (d : PairedDevice)
        → get k (remove store device_id written).0.devices ≡ some d
        → get k store.devices ≡ some d
    before k d h = ground (arith, get-remove_phone store device_id k written)

-- After a phone was taken out, the credentials that are found are those that were found before and stand
-- with another phone: none of its credentials is left, and no other is lost.
pub remove_iff :
    (store : PairingStore) (device_id id : List ℕ) (written : Result PairingError (Unit {0}))
    (d : PairedDevice) (c : PairedCredential)
    → IsSound store.devices
    → (find_credential (remove store device_id written).0 id ≡ some (d, c))
      ↔ ((find_credential store id ≡ some (d, c)) × (text_eq device_id d.device_id ≡ false))
remove_iff store device_id id written d c s =
    let after =
      find_credential_iff (remove store device_id written).0 id d c
        (remove-IsSound store device_id written s) in
    let before = find_credential_iff store id d c s in
    let moved = get-remove_phone store device_id d.device_id written in
    (
      λ h.
          let (own, here) = after.0 h in
          (before.1 (ground (arith, moved, own), here), ground (arith, moved, own)),
      λ (h, other). let (own, here) = before.0 h in after.1 (ground (arith, moved, own), here),
    )
