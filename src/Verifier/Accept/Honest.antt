-- ===== src/Verifier/Accept/Honest.antt =====
-- `Verifier::accept` of phone-auth-verifier/src/verifier.rs: the answers that it grants, and its
-- state behind every answer.
use bio_auth.Common.{
  ℕ, ◌≡◌, ◌↔◌, refl, ap, sym, List, false, ok, arith, ◌⊎◌, inl, inr, Result-cases, err, text_eq_iff,
  ==_iff,
}
use bio_auth.Common.Int.{ℤ, lebℤ}
use bio_auth.Protocol.Request.{AuthRequest, is_expired_at, signing_payload}
use bio_auth.Protocol.Response.{AuthResponse, Decision, authorized, is_authorized}
use bio_auth.Protocol.Response
use bio_auth.Protocol.Response.Laws.{IsTyped}
use bio_auth.Verifier.Pairing.{PairedCredential, PairingStore}
use bio_auth.Verifier.Replay.{consume, contains}
use bio_auth.Verifier.Session.{SecureSession}
use bio_auth.Verifier.Signature.{
  P256, verify_authorization, algorithm_ecdsa_p256_sha256, public_key_ec_p256_spki,
}
use bio_auth.Verifier.State.{PendingAuthorization, Grant, Verifier, AuthorizationError}
use bio_auth.Verifier.Accept.{match_response, decide, accept}
use bio_auth.Verifier.Accept.Sound.{IsSigned, Matches, Deserves, match_response_ok, decide_ok}

match_response_complete :
    (pending : PendingAuthorization) (frame : List ℕ) (session : SecureSession)
    (response : AuthResponse)
    → Matches pending frame session response
    → match_response pending frame session ≡ ok response
unfolding match_response
match_response_complete pending frame session response m =
    rw
      (
        m.channel,
        (text_eq_iff session.session_binding pending.session_binding).1 m.binding,
        m.decoded,
        (text_eq_iff response.request_id pending.request.request_id).1 m.request_id,
        (text_eq_iff response.verifier_id pending.request.verifier_id).1 m.verifier_id,
        (text_eq_iff response.credential_id pending.request.credential_id).1 m.credential_id,
        (==_iff response.version pending.request.version).1 m.version,
      )
      refl

verify_complete :
    (lib : P256) (credential : PairedCredential) (request : AuthRequest) (response : AuthResponse)
    → IsSigned lib credential request response
    → verify_authorization lib credential.algorithm credential.public_key response.algorithm
        (signing_payload request)
        response.signature
      ≡ ok tt
unfolding verify_authorization signing_payload
verify_complete lib credential request response s =
    rw
      (
        (text_eq_iff response.algorithm algorithm_ecdsa_p256_sha256).1 s.algorithm,
        (text_eq_iff credential.algorithm public_key_ec_p256_spki).1 s.encoding,
        s.parsed_key,
        s.parsed_proof,
        s.verified,
      )
      refl

decide_complete :
    (lib : P256) (store : PairingStore) (pending : PendingAuthorization) (response : AuthResponse)
    (now_ms : ℤ) (g : Grant)
    → Deserves lib store pending response now_ms g
    → decide lib store pending response now_ms ≡ ok g
unfolding decide is_expired_at
decide_complete lib store pending response now_ms g d =
    let alive : lebℤ pending.request.expires_at_ms now_ms ≡ false = ground (arith, d.alive) in
    rw
      (
        alive,
        d.approved,
        d.paired,
        d.covered,
        verify_complete lib d.credential pending.request response d.signed,
      )
      (ap ok (sym d.echoes))

-- `accept` grants a request exactly if some answer is what the frame decodes to, it came over a
-- confidential channel to an authenticated peer, names the request and its session, approves it before
-- it expires, the credential is paired and permitted, its key made the proof over the exact bytes of the
-- request, and the request id is not one that the replay guard remembers. The grant then repeats the
-- request and names the phone.
pub accept_iff :
    (lib : P256) (v : Verifier) (pending : PendingAuthorization) (frame : List ℕ)
    (session : SecureSession) (now_ms : ℤ) (g : Grant)
    → ((accept lib v pending frame session now_ms).1 ≡ ok g) ↔ (
        (response : AuthResponse) × Matches pending frame session response
        × Deserves lib v.store pending response now_ms g
        × (contains v.replay pending.request.request_id ≡ false))
unfolding accept consume contains
accept_iff lib v pending frame session now_ms g = (
  granted,
  λ (response, m, d, new).
      let matched = match_response_complete pending frame session response m in
      let decided = decide_complete lib v.store pending response now_ms g d in ground arith,
)
  where
    granted :
        (accept lib v pending frame session now_ms).1 ≡ ok g
        → (response : AuthResponse) × Matches pending frame session response
          × Deserves lib v.store pending response now_ms g
          × (contains v.replay pending.request.request_id ≡ false)
    granted e = elim (Result-cases (match_response pending frame session)) [
      | inr (x, m) ↦ ground arith
      | inl (response, m) ↦ (
        response,
        match_response_ok pending frame session response m,
        decide_ok lib v.store pending response now_ms g (ground arith),
        ground arith,
      )
    ]

-- Whatever comes of an answer, the pairing store and the identity stay, and the replay guard takes up
-- the request id exactly if the answer could be matched with the request.
pub accept_state :
    (lib : P256) (v : Verifier) (pending : PendingAuthorization) (frame : List ℕ)
    (session : SecureSession) (now_ms : ℤ)
    → ((e : AuthorizationError) × (match_response pending frame session ≡ err e)
        × (accept lib v pending frame session now_ms ≡ (v, err e)))
      ⊎ ((response : AuthResponse) × Matches pending frame session response
          × ((accept lib v pending frame session now_ms).0
              ≡ record v { replay = (consume v.replay pending.request.request_id).0 }))
unfolding accept
accept_state lib v pending frame session now_ms =
    elim (Result-cases (match_response pending frame session)) [
      | inr (x, m) ↦ inl (x, m, ground arith)
      | inl (response, m) ↦
          inr (response, match_response_ok pending frame session response m, ground arith)
    ]

-- What an honest phone does: it repeats the request's names, approves, and signs the request with the
-- key of its credential.
pub record IsHonest (lib : P256) (credential : PairedCredential) (request : AuthRequest)
    (response : AuthResponse) : Type 0 where
  pub typed : IsTyped response
  pub valid : Response.validate response ≡ ok tt
  pub request_id : response.request_id ≡ request.request_id
  pub verifier_id : response.verifier_id ≡ request.verifier_id
  pub credential_id : response.credential_id ≡ request.credential_id
  pub approved : response.decision ≡ authorized
  pub signed : IsSigned lib credential request response
