-- ===== src/Verifier/Examples/Pairings.antt =====
-- The theorems on the pairing store, at the example.
use bio_auth.Common.{◌≡◌, ◌∷◌, [], refl, some, ok, str}
use bio_auth.Verifier.Pairing.{
  PairingStore, PairedDevice, PairedCredential, insert, remove, find_credential, merged, kept,
  first_conflict, conflicts, find_in_devices, credential, persist,
}
use bio_auth.Verifier.TextMap.{insert as map_insert, place, get, replace}
use bio_auth.Verifier.Pairing.Lookup.{IsSound}
use bio_auth.Verifier.Pairing.Unique.{insert-IsSound}
use bio_auth.Verifier.Pairing.Keep.{insert-keeps}
use bio_auth.Verifier.Pairing.Removal.{remove_iff}
use bio_auth.Verifier.Examples.{phone, sudo_credential, paired_store}
use bio_auth.Verifier.Examples.Runs.{found, paired-IsSound}

-- Another phone that claims the credential.
abbrev thief : PairedDevice
thief = record phone { device_id = str "phone-2" }

-- The phone with a second credential.
abbrev again : PairedDevice
again = record phone { credentials = record sudo_credential { credential_id = str "cred-2" } ∷ [] }

insert-keeps_example :
    (e : PairedDevice) × (f : PairedCredential) × (find_credential
        (insert paired_store thief (ok tt)).0
        (str "cred-1")
      ≡ some (e, f))
    × (e.device_id ≡ str "phone-1")
    × (f.public_key ≡ sudo_credential.public_key)
insert-keeps_example =
    insert-keeps paired_store thief phone (ok tt) (str "cred-1") sudo_credential paired-IsSound
      found

insert-IsSound_example : IsSound (insert paired_store again (ok tt)).0.devices
insert-IsSound_example = insert-IsSound paired_store again (ok tt) paired-IsSound

-- A second phone beside the first, which is then taken out.
abbrev second : PairedDevice
second = record again { device_id = str "phone-2" }

abbrev second_credential : PairedCredential
second_credential = record sudo_credential { credential_id = str "cred-2" }

abbrev two_phones : PairingStore
two_phones = (insert paired_store second (ok tt)).0

second_found : find_credential two_phones (str "cred-2") ≡ some (second, second_credential)
unfolding insert merged kept first_conflict conflicts find_credential find_in_devices credential
    persist map_insert place get replace
second_found = refl

remove_iff_example :
    find_credential (remove two_phones (str "phone-1") (ok tt)).0 (str "cred-2")
    ≡ some (second, second_credential)
remove_iff_example =
    (remove_iff two_phones (str "phone-1") (str "cred-2") (ok tt) second second_credential
        (insert-IsSound paired_store second (ok tt) paired-IsSound)).1
      (second_found, refl)
