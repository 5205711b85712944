-- ===== src/Verifier/Pairing/Keep.antt =====
-- The credentials that are there before `insert` of phone-auth-verifier/src/pairing.rs, after it.
use bio_auth.Common.{
  ℕ, ◌≡◌, refl, sym, ◌∙◌, false, List, none, some, arith, Result, text_eq, text_eq_refl, text_eq→eq,
  Bool-cases, Option-cases, inl, inr,
}
use bio_auth.Verifier.TextMap.{get}
use bio_auth.Verifier.TextMap.Laws.{get-insert}
use bio_auth.Verifier.Pairing.{
  PairedDevice, PairedCredential, PairingStore, PairingError, credential, find_credential, merged,
  first_conflict, insert,
}
use bio_auth.Verifier.Pairing.Lookup.{IsSound, find_credential_iff}
use bio_auth.Verifier.Pairing.Merge.{or_else, existing, credential-merged}
use bio_auth.Verifier.Pairing.Unique.{
  conflict-free, with_device, merged-device_id, insert-devices, insert-conflict, insert-IsSound,
}

get-own :
    (store : PairingStore) (device : PairedDevice)
    → get (merged store device).device_id (with_device store device) ≡ some (merged store device)
unfolding with_device
get-own store device = ground (
  arith,
  get-insert device.device_id (merged store device).device_id (merged store device) store.devices,
  merged-device_id store device,
  text_eq_refl device.device_id,
)

get-other :
    (store : PairingStore) (device : PairedDevice) (k : List ℕ)
    → text_eq device.device_id k ≡ false
    → get k (with_device store device) ≡ get k store.devices
unfolding with_device
get-other store device k e =
    ground (arith, get-insert device.device_id k (merged store device) store.devices)

merged-given :
    (store : PairingStore) (device : PairedDevice) (id : List ℕ) (c : PairedCredential)
    → credential device id ≡ some c
    → credential (merged store device) id ≡ some c
unfolding or_else
merged-given store device id c e = ground (arith, credential-merged store device id)

merged-kept :
    (store : PairingStore) (device d : PairedDevice) (id : List ℕ) (c : PairedCredential)
    → credential device id ≡ none
    → get device.device_id store.devices ≡ some d
    → credential d id ≡ some c
    → credential (merged store device) id ≡ some c
unfolding or_else existing
merged-kept store device d id c e g h = ground (arith, credential-merged store device id)

keeps :
    (store : PairingStore) (device d : PairedDevice) (id : List ℕ) (c : PairedCredential)
    → IsSound store.devices
    → first_conflict store device.device_id device.credentials ≡ none
    → find_credential store id ≡ some (d, c)
    → (e : PairedDevice) × (f : PairedCredential) × (get e.device_id (with_device store device)
        ≡ some e)
      × (credential e id ≡ some f)
      × (e.device_id ≡ d.device_id)
      × (f.public_key ≡ c.public_key)
keeps store device d id c s free found =
    let (own, here) = (find_credential_iff store id d c s).0 found in
    elim (Bool-cases (text_eq device.device_id d.device_id)) [
      | inr other ↦ (d, c, get-other store device d.device_id other ∙ own, here, refl, refl)
      | inl e ↦
          let same = text_eq→eq device.device_id d.device_id e in
          elim (Option-cases (credential device id)) [
            | inr (x, given) ↦ (
              merged store device,
              x,
              get-own store device,
              merged-given store device id x given,
              merged-device_id store device ∙ same,
              sym (conflict-free store device d id x c free given found).1,
            )
            | inl missing ↦ (
              merged store device,
              c,
              get-own store device,
              merged-kept store device d id c missing (rw same own) here,
              merged-device_id store device ∙ same,
              refl,
            )
          ]
    ]

-- Pairing a phone never binds a known credential to another key or another phone: whatever list of
-- credentials is given, and whether it is accepted or not, a credential that could be found is found
-- afterwards with the same phone and the same public key.
pub insert-keeps :
    (store : PairingStore) (device d : PairedDevice) (written : Result PairingError (Unit {0}))
    (id : List ℕ) (c : PairedCredential)
    → IsSound store.devices
    → find_credential store id ≡ some (d, c)
    → (e : PairedDevice) × (f : PairedCredential) × (find_credential
          (insert store device written).0
          id
        ≡ some (e, f))
      × (e.device_id ≡ d.device_id)
      × (f.public_key ≡ c.public_key)
insert-keeps store device d written id c s found =
    elim (Option-cases (first_conflict store device.device_id device.credentials)) [
      | inr (bad, e) ↦ (d, c, rw (insert-conflict store device written bad e) found, refl, refl)
      | inl e ↦
          let (x, f, own, here, same, key) = keeps store device d id c s e found in
          (
            x,
            f,
            (find_credential_iff (insert store device written).0 id x f
                  (insert-IsSound store device written s)).1
                (rw (insert-devices store device written e) own, here),
            same,
            key,
          )
    ]
