-- ===== src/Verifier/Pairing/Unique.antt =====
-- `insert` of phone-auth-verifier/src/pairing.rs.
use bio_auth.Common.{
  ℕ, ◌≡◌, ◌⊎◌, sym, ap, subst, ◌∙◌, false, List, none, some, arith, Result, err, text_eq,
  text_eq→eq, Bool-cases, Option-cases, inl, inr,
}
use bio_auth.Verifier.TextMap.{get, Distinct}
use bio_auth.Verifier.TextMap
use bio_auth.Verifier.TextMap.Laws.{get-insert, insert-Distinct}
use bio_auth.Verifier.Pairing.{
  PairedDevice, PairedCredential, PairingStore, PairingError, credential, find_credential, merged,
  in_memory, credential_conflict, conflicts, first_conflict, insert,
}
use bio_auth.Verifier.Pairing.Lookup.{IsSound, find_credential_iff}
use bio_auth.Verifier.Pairing.Merge.{or_else, existing, credential-merged, first_conflict-none}

-- No phone is paired at first.
pub in_memory-IsSound : IsSound in_memory.devices
unfolding in_memory get
in_memory-IsSound = record {
  distinct = tt;
  keyed = λ k d h. ground arith;
  unique = λ j k id d e c f gj gk cd ce. ground arith;
}

-- Where a credential of the merged phone comes from.
merged-source :
    (store : PairingStore) (device : PairedDevice) (id : List ℕ) (c : PairedCredential)
    → credential (merged store device) id ≡ some c
    → (credential device id ≡ some c)
      ⊎ ((d : PairedDevice) × (get device.device_id store.devices ≡ some d)
          × (credential d id ≡ some c))
unfolding or_else existing
merged-source store device id c h = elim (Option-cases (credential device id)) [
  | inr (x, e) ↦ inl (ground (arith, credential-merged store device id))
  | inl e ↦ elim (Option-cases (get device.device_id store.devices)) [
    | inl f ↦ ground (arith, credential-merged store device id)
    | inr (d, f) ↦ inr (d, f, ground (arith, credential-merged store device id))
  ]
]

-- A credential that an accepted list names stands nowhere but on that phone, with that key.
pub conflict-free :
    (store : PairingStore) (device d : PairedDevice) (id : List ℕ) (c x : PairedCredential)
    → first_conflict store device.device_id device.credentials ≡ none
    → credential device id ≡ some c
    → find_credential store id ≡ some (d, x)
    → (d.device_id ≡ device.device_id) × (x.public_key ≡ c.public_key)
unfolding conflicts credential
conflict-free store device d id c x free here found =
    let (clean, name) =
      first_conflict-none store device.device_id id device.credentials c free here in
    let there : find_credential store c.credential_id ≡ some (d, x) = rw name found in
    ground (
      arith,
      clean,
      there,
      text_eq→eq d.device_id device.device_id,
      text_eq→eq x.public_key c.public_key,
    )

-- The stored phones after an insertion that no conflict stops.
unfoldable pub with_device : PairingStore → PairedDevice → List (List ℕ × PairedDevice)
with_device store device = TextMap.insert device.device_id (merged store device) store.devices

pub merged-device_id :
    (store : PairingStore) (device : PairedDevice)
    → (merged store device).device_id ≡ device.device_id
unfolding merged
merged-device_id store device = ground arith

get-with_device :
    (store : PairingStore) (device d : PairedDevice) (k : List ℕ)
    → get k (with_device store device) ≡ some d
    → ((device.device_id ≡ k) × (merged store device ≡ d))
      ⊎ ((text_eq device.device_id k ≡ false) × (get k store.devices ≡ some d))
unfolding with_device
get-with_device store device d k h = elim (Bool-cases (text_eq device.device_id k)) [
  | inl e ↦ inl (
    text_eq→eq device.device_id k e,
    ground (arith, get-insert device.device_id k (merged store device) store.devices),
  )
  | inr e ↦
      inr (e, ground (arith, get-insert device.device_id k (merged store device) store.devices))
]

-- An old phone that holds a credential of the merged one is that one.
merged-owner :
    (store : PairingStore) (device e : PairedDevice) (k id : List ℕ) (c f : PairedCredential)
    → IsSound store.devices
    → first_conflict store device.device_id device.credentials ≡ none
    → credential (merged store device) id ≡ some c
    → get k store.devices ≡ some e
    → credential e id ≡ some f
    → device.device_id ≡ k
merged-owner store device e k id c f s free h g i = elim (merged-source store device id c h) [
  | inl here ↦
      let own : get e.device_id store.devices ≡ some e =
        subst (λ (z : List ℕ). get z store.devices ≡ some e) (sym (s.keyed k e g)) g in
      let found = (find_credential_iff store id e f s).1 (own, i) in
      sym (conflict-free store device e id c f free here found).0 ∙ s.keyed k e g
  | inr (d, at, there) ↦ s.unique device.device_id k id d e c f at g there i
]

pub with_device-IsSound :
    (store : PairingStore) (device : PairedDevice)
    → IsSound store.devices
    → first_conflict store device.device_id device.credentials ≡ none
    → IsSound (with_device store device)
with_device-IsSound store device s free = record {
  distinct =
      unfold with_device in
      insert-Distinct device.device_id (merged store device) store.devices s.distinct;
  keyed = λ k d h. elim (get-with_device store device d k h) [
    | inl (e, m) ↦
        ap (λ (z : PairedDevice). z.device_id) (sym m) ∙ merged-device_id store device ∙ e
    | inr (n, g) ↦ s.keyed k d g
  ];
  unique = λ j k id d e c f gj gk cd ce. elim (get-with_device store device d j gj) [
    | inl (dj, mj) ↦ elim (get-with_device store device e k gk) [
      | inl (dk, mk) ↦ sym dj ∙ dk
      | inr (nk, ok_) ↦ sym dj ∙ merged-owner store device e k id c f s free (rw mj cd) ok_ ce
    ]
    | inr (nj, oj) ↦ elim (get-with_device store device e k gk) [
      | inl (dk, mk) ↦ sym (merged-owner store device d j id f c s free (rw mk ce) oj cd) ∙ dk
      | inr (nk, ok_) ↦ s.unique j k id d e c f oj ok_ cd ce
    ]
  ];
}

pub insert-devices :
    (store : PairingStore) (device : PairedDevice) (written : Result PairingError (Unit {0}))
    → first_conflict store device.device_id device.credentials ≡ none
    → (insert store device written).0.devices ≡ with_device store device
unfolding insert with_device
insert-devices store device written e = ground arith

pub insert-conflict :
    (store : PairingStore) (device : PairedDevice) (written : Result PairingError (Unit {0}))
    (id : List ℕ)
    → first_conflict store device.device_id device.credentials ≡ some id
    → insert store device written ≡ (store, err (credential_conflict id))
unfolding insert
insert-conflict store device written id e = ground arith

-- Pairing a phone, whether it is refused for a conflict or not, leaves every phone under its own id and
-- every credential with at most one phone.
pub insert-IsSound :
    (store : PairingStore) (device : PairedDevice) (written : Result PairingError (Unit {0}))
    → IsSound store.devices
    → IsSound (insert store device written).0.devices
insert-IsSound store device written s =
    elim (Option-cases (first_conflict store device.device_id device.credentials)) [
      | inr (id, e) ↦ rw (insert-conflict store device written id e) s
      | inl e ↦ rw (insert-devices store device written e) (with_device-IsSound store device s e)
    ]
