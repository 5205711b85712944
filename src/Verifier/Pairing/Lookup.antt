-- ===== src/Verifier/Pairing/Lookup.antt =====
-- `find_credential` of phone-auth-verifier/src/pairing.rs, and the invariant of the store.
use bio_auth.Common.{
  ℕ, ◌≡◌, sym, ap, subst, List, [], ◌∷◌, some, arith, text_eq_refl, text_eq→eq, Option-cases, inl,
  inr, ◌↔◌,
}
use bio_auth.Verifier.TextMap.{TextMap, get, values, Distinct}
use bio_auth.Verifier.Pairing.{
  PairedDevice, PairedCredential, PairingStore, credential, find_in_devices, find_credential,
}

-- Each phone stands under its own id, once, and no two phones hold a credential of one id.
pub record IsSound (devices : TextMap PairedDevice) : Type 0 where
  pub distinct : Distinct devices
  pub keyed : (k : List ℕ) (d : PairedDevice) → get k devices ≡ some d → d.device_id ≡ k
  pub unique :
      (j k id : List ℕ) (d e : PairedDevice) (c f : PairedCredential)
      → get j devices ≡ some d
      → get k devices ≡ some e
      → credential d id ≡ some c
      → credential e id ≡ some f
      → j ≡ k

found_at :
    (id : List ℕ) (m : List (List ℕ × PairedDevice)) (d : PairedDevice) (c : PairedCredential)
    → Distinct m
    → find_in_devices id (values m) ≡ some (d, c)
    → (k : List ℕ) × (get k m ≡ some d) × (credential d id ≡ some c)
unfolding find_in_devices get
found_at id [] d c u h = ground arith
found_at id ((j, w) ∷ m) d c u h = elim (Option-cases (credential w id)) [
  | inr (f, e) ↦ (j, ground (arith, text_eq_refl j), ground arith)
  | inl e ↦
      let (k, g, i) = found_at id m d c u.1 (ground arith) in
      (k, ground (arith, g, ap (λ (z : List ℕ). get z m), text_eq→eq j k), i)
]

held_by :
    (id k : List ℕ) (m : List (List ℕ × PairedDevice)) (d : PairedDevice) (c : PairedCredential)
    → get k m ≡ some d
    → credential d id ≡ some c
    → (e : PairedDevice) × (f : PairedCredential) × (find_in_devices id (values m) ≡ some (e, f))
unfolding find_in_devices get
held_by id k [] d c g i = ground arith
held_by id k ((j, w) ∷ m) d c g i = elim (Option-cases (credential w id)) [
  | inr (f, e) ↦ (w, f, ground arith)
  | inl e ↦ let (x, f, h) = held_by id k m d c (ground arith) i in (x, f, ground arith)
]

-- In a sound store a search over all phones finds a credential exactly where it stands.
pub find_credential_iff :
    (store : PairingStore) (id : List ℕ) (d : PairedDevice) (c : PairedCredential)
    → IsSound store.devices
    → (find_credential store id ≡ some (d, c))
      ↔ ((get d.device_id store.devices ≡ some d) × (credential d id ≡ some c))
unfolding find_credential
find_credential_iff store id d c s = (
  λ h.
      let (k, g, i) = found_at id store.devices d c s.distinct h in
      (subst (λ (z : List ℕ). get z store.devices ≡ some d) (sym (s.keyed k d g)) g, i),
  λ (g, i).
      let (e, f, h) = held_by id d.device_id store.devices d c g i in
      let (k, g2, i2) = found_at id store.devices e f s.distinct h in
      let same : d.device_id ≡ k = s.unique d.device_id k id d e c f g g2 i i2 in
      let device : d ≡ e = ground (arith, g, g2, ap (λ (z : List ℕ). get z store.devices) same) in
      let cred : c ≡ f = ground (arith, i, i2, ap (λ (z : PairedDevice). credential z id) device) in
      ground (arith, h, device, cred),
)
