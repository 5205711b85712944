-- ===== src/Verifier/Issue/Sound.antt =====
-- `Verifier::issue` of phone-auth-verifier/src/verifier.rs: the requests that it makes.
use bio_auth.Common.{
  ℕ, zero, suc, ◌≡◌, ◌↔◌, ==_iff, refl, ap, sym, ◌∙◌, List, true, false, ok, arith, inl, inr, some,
  Option-cases, Bool-cases,
}
use bio_auth.Common.Int.{ℤ}
use bio_auth.Protocol.Request.{AuthRequest, validate}
use bio_auth.Verifier.Policy.{permits}
use bio_auth.Verifier.Pairing.{
  PairedDevice, PairedCredential, CredentialPurpose, disk_unlock, authorization, web_authn, vault,
  file_locker, ssh, allowed_at_boot, for_service, find_credential,
}
use bio_auth.Verifier.Session.{SecureSession, TransportSecurity, suitable_for_authorization}
use bio_auth.Verifier.State.{RequestSpec, PendingAuthorization, Verifier}
use bio_auth.Verifier.Issue.{same_purpose, check_boot, build_request, issue, purpose_number}

numbered : ℕ → CredentialPurpose
numbered zero = authorization
numbered (suc zero) = disk_unlock
numbered (suc (suc zero)) = web_authn
numbered (suc (suc (suc zero))) = vault
numbered (suc (suc (suc (suc zero)))) = file_locker
numbered _ = ssh

numbered-purpose_number : (p : CredentialPurpose) → numbered (purpose_number p) ≡ p
unfolding numbered
numbered-purpose_number authorization = refl
numbered-purpose_number disk_unlock = refl
numbered-purpose_number web_authn = refl
numbered-purpose_number vault = refl
numbered-purpose_number file_locker = refl
numbered-purpose_number ssh = refl

same_purpose_iff : (p q : CredentialPurpose) → (same_purpose p q ≡ true) ↔ (p ≡ q)
same_purpose_iff p q = (
  λ h.
      sym (numbered-purpose_number p)
      ∙ ap numbered ((==_iff (purpose_number p) (purpose_number q)).0 h)
      ∙ numbered-purpose_number q,
  λ e. (==_iff (purpose_number p) (purpose_number q)).1 (ap purpose_number e),
)

check_boot_iff :
    (id : List ℕ) (c : PairedCredential) (s : TransportSecurity) (p : CredentialPurpose)
    → (check_boot id c s p ≡ ok tt)
      ↔ (p ≡ disk_unlock → (allowed_at_boot c.key_kind ≡ true) × (s.is_development ≡ false))
unfolding check_boot
check_boot_iff id c s p = elim (Bool-cases (same_purpose p disk_unlock)) [
  | inl e ↦ let boot = (same_purpose_iff p disk_unlock).0 e in ground arith
  | inr e ↦ ground (arith, (same_purpose_iff p disk_unlock).1)
]

-- All that holds of a request that is sent out.
pub record IsDue (v : Verifier) (spec : RequestSpec) (session : SecureSession)
    (request : AuthRequest) : Type 0 where
  pub device : PairedDevice
  pub credential : PairedCredential
  pub channel : suitable_for_authorization session.security ≡ true
  pub paired : find_credential v.store spec.credential_id ≡ some (device, credential)
  pub purpose : credential.purpose ≡ for_service spec.service
  pub boot :
      for_service spec.service ≡ disk_unlock
      → (allowed_at_boot credential.key_kind ≡ true) × (session.security.is_development ≡ false)
  pub valid : validate request ≡ ok tt
  pub covered : permits credential.permissions request ≡ true

issue_ok :
    (v : Verifier) (spec : RequestSpec) (session : SecureSession) (now_ms : ℤ)
    (random_id challenge : List ℕ) (pending : PendingAuthorization)
    → issue v spec session now_ms random_id challenge ≡ ok pending
    → IsDue v spec session (build_request v.identity spec session now_ms random_id challenge)
      × (pending ≡ record {
        request = build_request v.identity spec session now_ms random_id challenge;
        origin = session.origin_label;
        session_binding = session.session_binding;
      })
unfolding issue
issue_ok v spec session now_ms random_id challenge pending e =
    elim (Option-cases (find_credential v.store spec.credential_id)) [
      | inl unknown ↦ ground arith
      | inr ((device, credential), found) ↦
          let boot =
            check_boot_iff spec.credential_id credential session.security
              (for_service spec.service) in
          let purpose = same_purpose_iff credential.purpose (for_service spec.service) in
          (
            record {
              device = device;
              credential = credential;
              channel = ground arith;
              paired = found;
              purpose = purpose.0 (ground arith);
              boot = boot.0 (ground arith);
              valid = ground arith;
              covered = ground arith;
            },
            ground arith,
          )
    ]

issue_due :
    (v : Verifier) (spec : RequestSpec) (session : SecureSession) (now_ms : ℤ)
    (random_id challenge : List ℕ)
    → IsDue v spec session (build_request v.identity spec session now_ms random_id challenge)
    → issue v spec session now_ms random_id challenge
      ≡ ok (record {
        request = build_request v.identity spec session now_ms random_id challenge;
        origin = session.origin_label;
        session_binding = session.session_binding;
      })
unfolding issue
issue_due v spec session now_ms random_id challenge due =
    let boot =
      (check_boot_iff spec.credential_id due.credential session.security
          (for_service spec.service)).1
        due.boot in
    let purpose =
      (same_purpose_iff due.credential.purpose (for_service spec.service)).1 due.purpose in
    rw (due.channel, due.paired, purpose, boot, due.valid, due.covered) refl

-- A request is issued exactly over a confidential channel to an authenticated peer, for a paired
-- credential of the purpose that the service calls for, whose permissions cover it, and if it passes the
-- checks of the protocol; a disk unlock asks besides for a key in hardware and no development transport.
-- What is issued carries the binding and the origin of its session.
pub issue_iff :
    (v : Verifier) (spec : RequestSpec) (session : SecureSession) (now_ms : ℤ)
    (random_id challenge : List ℕ) (pending : PendingAuthorization)
    → (issue v spec session now_ms random_id challenge ≡ ok pending) ↔ (
        IsDue v spec session (build_request v.identity spec session now_ms random_id challenge)
        × (pending ≡ record {
          request = build_request v.identity spec session now_ms random_id challenge;
          origin = session.origin_label;
          session_binding = session.session_binding;
        }))
issue_iff v spec session now_ms random_id challenge pending = (
  issue_ok v spec session now_ms random_id challenge pending,
  λ (due, same). issue_due v spec session now_ms random_id challenge due ∙ ap ok (sym same),
)
