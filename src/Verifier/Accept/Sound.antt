-- ===== src/Verifier/Accept/Sound.antt =====
-- `Verifier::accept` of phone-auth-verifier/src/verifier.rs, from a grant back to its reasons.
use bio_auth.Common.{
  ℕ, ◌≡◌, refl, List, true, ok, arith, some, Result-cases, inl, inr, text_eq→eq, Option-cases,
}
use bio_auth.Common.Int.{ℤ, ◌≤ℤ◌}
use bio_auth.Protocol.Request.{AuthRequest, is_expired_at, encode, signing_payload}
use bio_auth.Protocol.Response.{AuthResponse, Decision, authorized, is_authorized}
use bio_auth.Protocol.Response.Decode.{decode}
use bio_auth.Verifier.Policy.{permits}
use bio_auth.Verifier.Pairing.{PairedDevice, PairedCredential, PairingStore, find_credential}
use bio_auth.Verifier.Replay.{consume}
use bio_auth.Verifier.Session.{SecureSession, suitable_for_authorization}
use bio_auth.Verifier.Signature.{
  P256, verify_authorization, algorithm_ecdsa_p256_sha256, public_key_ec_p256_spki,
}
use bio_auth.Verifier.State.{PendingAuthorization, Grant, Verifier}
use bio_auth.Verifier.Accept.{match_response, decide, accept}

-- The answer that was sent, as far as the verifier must know it before it looks at the proof.
pub record Matches (pending : PendingAuthorization) (frame : List ℕ) (session : SecureSession)
    (response : AuthResponse) : Type 0 where
  pub channel : suitable_for_authorization session.security ≡ true
  pub binding : session.session_binding ≡ pending.session_binding
  pub decoded : decode frame ≡ ok response
  pub request_id : response.request_id ≡ pending.request.request_id
  pub verifier_id : response.verifier_id ≡ pending.request.verifier_id
  pub credential_id : response.credential_id ≡ pending.request.credential_id
  pub version : response.version ≡ pending.request.version

-- A proof of the request by the key of a credential.
pub record IsSigned (lib : P256) (credential : PairedCredential) (request : AuthRequest)
    (response : AuthResponse) : Type 0 where
  pub key : lib.Key
  pub proof : lib.Proof
  pub algorithm : response.algorithm ≡ algorithm_ecdsa_p256_sha256
  pub encoding : credential.algorithm ≡ public_key_ec_p256_spki
  pub parsed_key : lib.key_from_der credential.public_key ≡ some key
  pub parsed_proof : lib.proof_from_der response.signature ≡ some proof
  pub verified : lib.verifies key (encode request) proof ≡ true

-- All that holds when a grant is given.
pub record Deserves (lib : P256) (store : PairingStore) (pending : PendingAuthorization)
    (response : AuthResponse) (now_ms : ℤ) (g : Grant) : Type 0 where
  pub device : PairedDevice
  pub credential : PairedCredential
  pub alive : ¬ (pending.request.expires_at_ms ≤ℤ now_ms)
  pub approved : response.decision ≡ authorized
  pub paired : find_credential store pending.request.credential_id ≡ some (device, credential)
  pub covered : permits credential.permissions pending.request ≡ true
  pub signed : IsSigned lib credential pending.request response
  pub echoes : g ≡ record {
    request_id = pending.request.request_id;
    device_id = device.device_id;
    device_name = device.display_name;
    credential_id = pending.request.credential_id;
    service = pending.request.service;
    action = pending.request.action;
    resource = pending.request.resource;
    user = pending.request.user;
    origin = pending.origin;
    granted_at_ms = now_ms;
  }

pub match_response_ok :
    (pending : PendingAuthorization) (frame : List ℕ) (session : SecureSession)
    (response : AuthResponse)
    → match_response pending frame session ≡ ok response
    → Matches pending frame session response
unfolding match_response
match_response_ok pending frame session response e = ground (
  arith,
  text_eq→eq session.session_binding pending.session_binding,
  text_eq→eq response.request_id pending.request.request_id,
  text_eq→eq response.verifier_id pending.request.verifier_id,
  text_eq→eq response.credential_id pending.request.credential_id,
)

verify_ok :
    (lib : P256) (credential : PairedCredential) (request : AuthRequest) (response : AuthResponse)
    {u : Unit {0}}
    → verify_authorization lib credential.algorithm credential.public_key response.algorithm
        (signing_payload request)
        response.signature
      ≡ ok u
    → IsSigned lib credential request response
unfolding verify_authorization signing_payload
verify_ok lib credential request response e =
    elim (Option-cases (lib.key_from_der credential.public_key)) [
      | inl none_key ↦ ground arith
      | inr (key, k) ↦ elim (Option-cases (lib.proof_from_der response.signature)) [
        | inl none_proof ↦ ground arith
        | inr (proof, p) ↦ record {
          key = key;
          proof = proof;
          algorithm = ground (arith, text_eq→eq response.algorithm algorithm_ecdsa_p256_sha256);
          encoding = ground (arith, text_eq→eq credential.algorithm public_key_ec_p256_spki);
          parsed_key = k;
          parsed_proof = p;
          verified = ground arith;
        }
      ]
    ]

pub decide_ok :
    (lib : P256) (store : PairingStore) (pending : PendingAuthorization) (response : AuthResponse)
    (now_ms : ℤ) (g : Grant)
    → decide lib store pending response now_ms ≡ ok g
    → Deserves lib store pending response now_ms g
unfolding decide is_expired_at
decide_ok lib store pending response now_ms g e =
    elim (Option-cases (find_credential store pending.request.credential_id)) [
      | inl unknown ↦ ground arith
      | inr ((device, credential), found) ↦
          elim (Result-cases (
            verify_authorization lib credential.algorithm credential.public_key response.algorithm
              (signing_payload pending.request) response.signature)) [
                | inl (u, verified) ↦ record {
                  device = device;
                  credential = credential;
                  alive = ground arith;
                  approved = approval response.decision (ground arith);
                  paired = found;
                  covered = ground arith;
                  signed = verify_ok lib credential pending.request response verified;
                  echoes = ground arith;
                }
                | inr (x, refused) ↦ ground arith
              ]
    ]
  where
    approval : (d : Decision) → is_authorized d ≡ true → d ≡ authorized
    approval Decision.authorized h = refl
    approval Decision.denied h = cc

-- A grant is given only over a confidential channel to an authenticated peer, for an answer that names
-- the pending request and its session, approves it before it expires, and whose proof the key of a
-- credential that is paired and permitted has made over the exact bytes of the request. The request id
-- was new to the replay guard, and is recorded. The grant repeats the request.
pub accept_sound :
    (lib : P256) (v v' : Verifier) (pending : PendingAuthorization) (frame : List ℕ)
    (session : SecureSession) (now_ms : ℤ) (g : Grant)
    → accept lib v pending frame session now_ms ≡ (v', ok g)
    → (response : AuthResponse) × Matches pending frame session response
      × Deserves lib v.store pending response now_ms g
      × (consume v.replay pending.request.request_id ≡ (v'.replay, true))
      × (v'.store ≡ v.store)
unfolding accept
accept_sound lib v v' pending frame session now_ms g e =
    elim (Result-cases (match_response pending frame session)) [
      | inr (x, m) ↦ ground arith
      | inl (response, m) ↦ (
        response,
        match_response_ok pending frame session response m,
        decide_ok lib v.store pending response now_ms g (ground arith),
        ground arith,
        ground arith,
      )
    ]
