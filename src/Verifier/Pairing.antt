-- ===== src/Verifier/Pairing.antt =====
-- phone-auth-verifier/src/pairing.rs: the paired phones and their credentials.
pub mod Lookup
pub mod Unique
pub mod Keep
pub mod Merge
pub mod Removal
use bio_auth.Common.{
  ℕ, List, [], ◌∷◌, ◌++◌, Bool, true, false, not, ◌||◌, Option, none, some, Result, ok, err,
  text_eq, str, is_empty, if◌then◌else◌, any, map,
}
use bio_auth.Common.Int.{ℤ}
use bio_auth.Verifier.TextMap.{TextMap, get, insert as map_insert, remove as map_remove, values}
use bio_auth.Verifier.Policy.{Permission}

pub data KeyKind : Type 0 where
  strong_box hardware software : KeyKind

unfoldable pub allowed_at_boot : KeyKind → Bool
allowed_at_boot strong_box = true
allowed_at_boot hardware = true
allowed_at_boot software = false

pub data CredentialPurpose : Type 0 where
  authorization disk_unlock web_authn vault file_locker ssh : CredentialPurpose

pub CredentialPurpose-discrete : Discrete CredentialPurpose
CredentialPurpose-discrete = hlevel

unfoldable pub for_service : List ℕ → CredentialPurpose
for_service service =
    if text_eq service (str "luks")
    then disk_unlock
    else (if text_eq service (str "webauthn")
        then web_authn
        else (if text_eq service (str "vault")
            then vault
            else (if text_eq service (str "locker")
                then file_locker
                else (if text_eq service (str "ssh") then ssh else authorization))))

pub record PairedCredential : Type 0 where
  pub credential_id : List ℕ
  pub algorithm : List ℕ
  pub public_key : List ℕ
  pub key_kind : KeyKind
  pub purpose : CredentialPurpose
  pub permissions : List Permission
  pub permissions_revision : ℕ

pub record PairedDevice : Type 0 where
  pub device_id : List ℕ
  pub display_name : List ℕ
  pub paired_at_ms : ℤ
  pub session_identity_public_key : List ℕ
  pub credentials : List PairedCredential

abbrev pub find_in : List ℕ → List PairedCredential → Option PairedCredential
find_in id [] = none
find_in id (c ∷ cs) = elim (text_eq c.credential_id id) [ true ↦ some c | false ↦ find_in id cs ]

unfoldable pub credential : PairedDevice → List ℕ → Option PairedCredential
credential device id = find_in id device.credentials

pub data PairingError : Type 0 where
  io corrupt : PairingError
  credential_conflict unknown_device : List ℕ → PairingError

pub record PairingStore : Type 0 where
  pub path : List ℕ
  pub devices : TextMap PairedDevice

unfoldable pub in_memory : PairingStore
in_memory = record { path = []; devices = [] }

-- What the file holds, as far as `fs::read` and `serde_json` could make it out.
pub data StoreFile : Type 0 where
  present : List PairedDevice → StoreFile
  not_found unreadable malformed : StoreFile

unfoldable pub collect : List PairedDevice → TextMap PairedDevice → TextMap PairedDevice
collect [] m = m
collect (d ∷ ds) m = collect ds (map_insert d.device_id d m)

unfoldable pub load : List ℕ → StoreFile → Result PairingError PairingStore
unfolding collect
load path (present devices) = ok (record { path = path; devices = collect devices [] })
load path not_found = ok (record { path = path; devices = [] })
load path unreadable = err io
load path malformed = err corrupt

unfoldable pub find_in_devices :
    List ℕ → List PairedDevice → Option (PairedDevice × PairedCredential)
find_in_devices id [] = none
find_in_devices id (d ∷ ds) = elim (credential d id) [
  | none ↦ find_in_devices id ds
  | some c ↦ some (d, c)
]

unfoldable pub find_credential : PairingStore → List ℕ → Option (PairedDevice × PairedCredential)
find_credential store id = find_in_devices id (values store.devices)

-- The outcome of writing the file is the environment's; a store in memory is not written.
unfoldable pub persist :
    PairingStore → Result PairingError (Unit {0}) → Result PairingError (Unit {0})
persist store written = if is_empty store.path then ok tt else written

-- Whether a credential is bound to another key or another phone.
unfoldable pub conflicts : PairingStore → List ℕ → PairedCredential → Bool
conflicts store device_id c = elim (find_credential store c.credential_id) [
  | none ↦ false
  | some (owner, existing) ↦
      not (text_eq owner.device_id device_id) || not (text_eq existing.public_key c.public_key)
]

unfoldable pub first_conflict : PairingStore → List ℕ → List PairedCredential → Option (List ℕ)
first_conflict store device_id [] = none
first_conflict store device_id (c ∷ cs) = elim (conflicts store device_id c) [
  | true ↦ some c.credential_id
  | false ↦ first_conflict store device_id cs
]

-- The credentials of `existing` that no incoming one replaces.
unfoldable pub kept : List PairedCredential → List PairedCredential → List PairedCredential
kept incoming [] = []
kept incoming (c ∷ cs) = elim (any (λ i. text_eq i.credential_id c.credential_id) incoming) [
  | true ↦ kept incoming cs
  | false ↦ c ∷ kept incoming cs
]

unfoldable pub merged : PairingStore → PairedDevice → PairedDevice
merged store device = elim (get device.device_id store.devices) [
  | none ↦ device
  | some existing ↦ record device {
    credentials = device.credentials ++ kept device.credentials existing.credentials;
  }
]

unfoldable pub insert :
    PairingStore
    → PairedDevice
    → Result PairingError (Unit {0})
    → PairingStore × Result PairingError (Unit {0})
insert store device written = elim (first_conflict store device.device_id device.credentials) [
  | some id ↦ (store, err (credential_conflict id))
  | none ↦
      let store' = record store {
        devices = map_insert device.device_id (merged store device) store.devices;
      } in
      (store', persist store' written)
]

unfoldable pub remove :
    PairingStore
    → List ℕ
    → Result PairingError (Unit {0})
    → PairingStore × Result PairingError PairedDevice
remove store device_id written = elim (get device_id store.devices) [
  | none ↦ (store, err (unknown_device device_id))
  | some device ↦
      let store' = record store { devices = map_remove device_id store.devices } in
      (store', elim (persist store' written) [ ok u ↦ ok device | err e ↦ err e ])
]
