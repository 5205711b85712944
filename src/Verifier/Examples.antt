-- ===== src/Verifier/Examples.antt =====
-- One phone, one request and one answer, on which the theorems on the verifier are run.
pub mod Runs
pub mod Decisions
pub mod Pairings
use bio_auth.Common.{
  ℕ, zero, suc, ◌≡◌, refl, List, [], ◌∷◌, ◌++◌, Bool, true, false, Option, some, none, Result, ok,
  err, take, text_eq, str, String, arith, all,
}
use bio_auth.Common.Int.{ℤ, pos}
use bio_auth.Common.Int.{◌+ℤ◌, ◌-ℤ◌, checked_sub, saturating_add}
use bio_auth.Common.Bytes.{to_be, from_be, AreBytes, is_byte, all→AreBytes}
use bio_auth.Encoding.{digit, to_hex}
use bio_auth.Text.{is_blank, utf16_len, chars, chars_from, feed, is_utf8}
use bio_auth.Cbor.Reader
use bio_auth.Cbor.Writer
use bio_auth.Protocol.Defs.{check_text, check_window, check_frame_size, bytes_equal, zip_equal}
use bio_auth.Protocol.Parser.{header, coded}
use bio_auth.Protocol.Codec.{decode_with}
use bio_auth.Protocol.Response.Decode.{decode, fields}
use bio_auth.Protocol.Request
use bio_auth.Protocol.Request.{AuthRequest}
use bio_auth.Protocol.Response
use bio_auth.Protocol.Response.{AuthResponse, authorized}
use bio_auth.Verifier.Policy.{Permission, wildcard, permits, allows, allows_fields, matches}
use bio_auth.Verifier.Pairing.{
  in_memory, insert, merged, kept, first_conflict, conflicts, persist, PairedDevice,
  PairedCredential, PairingStore, authorization, hardware, strong_box, find_credential,
  find_in_devices, credential, for_service, allowed_at_boot,
}
use bio_auth.Verifier.TextMap.{insert as map_insert, place, get, replace}
use bio_auth.Verifier.Pairing.Lookup
use bio_auth.Verifier.Pairing.Unique.{in_memory-IsSound, insert-IsSound}
use bio_auth.Verifier.Replay.Invariant.{IsSound as IsSoundGuard, with_capacity-IsSound}
use bio_auth.Protocol.Response.Laws.{response-decode_iff}
use bio_auth.Verifier.Accept.Sound.{Matches, Deserves}
use bio_auth.Verifier.Accept.Honest.{accept_iff, accept_state, IsHonest}
use bio_auth.Verifier.Accept.EndToEnd.{issue-accept}
use bio_auth.Verifier.Accept.Once.{Attempt, attempt, serve, answered, accept_once, serve-replay}
use bio_auth.Verifier.Issue.Sound.{IsDue, issue_iff}
use bio_auth.Verifier.Replay.{
  with_capacity, ReplayGuard, consume, trim, evict, erase, member, contains,
}
use bio_auth.Verifier.Session.{SecureSession, TransportSecurity, suitable_for_authorization}
use bio_auth.Verifier.Signature.{
  P256, verify_authorization, algorithm_ecdsa_p256_sha256, public_key_ec_p256_spki,
}
use bio_auth.Verifier.State.{VerifierIdentity, RequestSpec, PendingAuthorization, Grant, Verifier}
use bio_auth.Verifier.Issue.{issue, build_request, check_boot, clamp_validity, request_id}
use bio_auth.Verifier.Accept.{accept, match_response, decide}

abbrev pub repeat : ℕ → ℕ → List ℕ
repeat zero x = []
repeat (suc n) x = x ∷ repeat n x

-- A proof is the key, followed by the first bytes of what it is over.
abbrev pub toy_p256 : P256
toy_p256 = record {
  Key = List ℕ;
  Proof = List ℕ;
  key_from_der = some;
  proof_from_der = some;
  verifies = λ key payload proof. text_eq proof (key ++ take 6 payload);
}

abbrev pub phone_key : List ℕ
phone_key = 48 ∷ 89 ∷ 7 ∷ []

abbrev pub sudo_credential : PairedCredential
sudo_credential = record {
  credential_id = str "cred-1";
  algorithm = public_key_ec_p256_spki;
  public_key = phone_key;
  key_kind = hardware;
  purpose = authorization;
  permissions =
      record { service = str "sudo"; action = wildcard; resource = wildcard; user = str "ana" }
      ∷ [];
  permissions_revision = 1;
}

abbrev pub phone : PairedDevice
phone = record {
  device_id = str "phone-1";
  display_name = str "Pixel";
  paired_at_ms = pos 500;
  session_identity_public_key = repeat 4 9;
  credentials = sudo_credential ∷ [];
}

abbrev pub paired_store : PairingStore
paired_store = record { path = []; devices = (str "phone-1", phone) ∷ [] }

abbrev pub laptop : VerifierIdentity
laptop = record { verifier_id = str "laptop-1"; verifier_name = str "Laptop" }

abbrev pub fresh_guard : ReplayGuard
fresh_guard = record { capacity = 2; seen = []; order = [] }

abbrev pub laptop_verifier : Verifier
laptop_verifier = record { identity = laptop; store = paired_store; replay = fresh_guard }

abbrev pub session : SecureSession
session = record {
  origin_label = str "LAN";
  session_binding = repeat 32 17;
  security = record {
    transport_name = str "lan";
    confidential = true;
    peer_authenticated = true;
    requires_network = true;
    proximity_signal = false;
    is_development = false;
  };
}

abbrev pub sudo_spec : RequestSpec
sudo_spec = record {
  credential_id = str "cred-1";
  service = str "sudo";
  action = str "run";
  resource = str "apt update";
  user = str "ana";
  validity_ms = pos 60000;
}

abbrev pub request : AuthRequest
request = record {
  version = 1;
  request_id = str "0a0b";
  verifier_id = str "laptop-1";
  verifier_name = str "Laptop";
  credential_id = str "cred-1";
  challenge = repeat 32 3;
  service = str "sudo";
  action = str "run";
  resource = str "apt update";
  user = str "ana";
  issued_at_ms = pos 1000;
  expires_at_ms = pos 61000;
  session_binding = repeat 32 17;
}

abbrev pub pending : PendingAuthorization
pending = record { request = request; origin = str "LAN"; session_binding = repeat 32 17 }

-- What the phone signs starts with the head of a list of 14 items, the type 0 and the version.
abbrev pub answer : AuthResponse
answer = record {
  version = 1;
  request_id = str "0a0b";
  verifier_id = str "laptop-1";
  credential_id = str "cred-1";
  decision = authorized;
  algorithm = algorithm_ecdsa_p256_sha256;
  signature = phone_key ++ 142 ∷ 1 ∷ 1 ∷ 100 ∷ 48 ∷ 97 ∷ [];
}

abbrev pub answer_frame : List ℕ
answer_frame = Response.encode answer

abbrev pub grant : Grant
grant = record {
  request_id = str "0a0b";
  device_id = str "phone-1";
  device_name = str "Pixel";
  credential_id = str "cred-1";
  service = str "sudo";
  action = str "run";
  resource = str "apt update";
  user = str "ana";
  origin = str "LAN";
  granted_at_ms = pos 2000;
}

abbrev pub first_try : Attempt
first_try = record {
  pending = pending;
  response_frame = answer_frame;
  session = session;
  now_ms = pos 2000;
}

abbrev pub second_try : Attempt
second_try = record first_try { now_ms = pos 3000 }
