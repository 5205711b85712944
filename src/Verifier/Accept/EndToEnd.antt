-- ===== src/Verifier/Accept/EndToEnd.antt =====
-- `Verifier::issue` and `Verifier::accept` of phone-auth-verifier/src/verifier.rs, with an honest phone in between.
use bio_auth.Common.{ℕ, ◌≡◌, refl, ap, sym, ◌∙◌, List, false, ok, arith, some, ◌↔◌, subst, true}
use bio_auth.Common.Int.{ℤ, ◌≤ℤ◌}
use bio_auth.Common.Bytes.{AreBytes}
use bio_auth.Encoding.{to_hex}
use bio_auth.Protocol.Codec.{Fits}
use bio_auth.Verifier.Issue.{issue, build_request, request_id}
use bio_auth.Verifier.Issue.Sound.{issue_iff}
use bio_auth.Protocol.Request.{AuthRequest}
use bio_auth.Protocol.Response.{AuthResponse, Decision, authorized, is_authorized}
use bio_auth.Protocol.Response
use bio_auth.Protocol.Defs.{protocol_version}
use bio_auth.Protocol.Response.Laws.{response-decode_iff}
use bio_auth.Verifier.Pairing.{PairedDevice, PairedCredential, find_credential}
use bio_auth.Verifier.Replay.{contains}
use bio_auth.Verifier.Session.{SecureSession}
use bio_auth.Verifier.Signature.{P256}
use bio_auth.Verifier.State.{RequestSpec, PendingAuthorization, Grant, Verifier}
use bio_auth.Verifier.Accept.{accept}
use bio_auth.Verifier.Policy.{permits}
use bio_auth.Verifier.Accept.Honest.{accept_iff, IsHonest}

validate-version : (m : AuthResponse) → Response.validate m ≡ ok tt → m.version ≡ protocol_version
unfolding Response.validate
validate-version m e = ground arith

-- The grant that answers what `issue` was asked for.
abbrev pub granted :
    RequestSpec → SecureSession → PairedDevice → (random_id : List ℕ) → (later_ms : ℤ) → Grant
granted spec session device random_id later_ms = record {
  request_id = to_hex random_id;
  device_id = device.device_id;
  device_name = device.display_name;
  credential_id = spec.credential_id;
  service = spec.service;
  action = spec.action;
  resource = spec.resource;
  user = spec.user;
  origin = session.origin_label;
  granted_at_ms = later_ms;
}

-- A request that `issue` made, and that an honest phone with the credential answered in a frame that fits,
-- over the same session, is granted by a verifier whose store and replay guard may have changed in the
-- meantime, with the same credential paired, exactly if the permissions that the credential has by then
-- cover the request, its id is new to the guard, and it has not expired. The grant then repeats what was
-- asked for: nothing else in the answer or the session stands in the way.
pub issue-accept :
    (lib : P256) (v later : Verifier) (spec : RequestSpec) (session : SecureSession)
    (now_ms later_ms : ℤ) (random_id challenge : List ℕ) (pending : PendingAuthorization)
    (device : PairedDevice) (credential : PairedCredential) (response : AuthResponse)
    → issue v spec session now_ms random_id challenge ≡ ok pending
    → find_credential later.store spec.credential_id ≡ some (device, credential)
    → IsHonest lib credential pending.request response
    → AreBytes (Response.encode response)
    → Fits (Response.encode response)
    → ((accept lib later pending (Response.encode response) session later_ms).1
        ≡ ok (granted spec session device random_id later_ms))
      ↔ ((permits credential.permissions pending.request ≡ true)
          × (contains later.replay pending.request.request_id ≡ false)
          × ¬ (pending.request.expires_at_ms ≤ℤ later_ms))
unfolding build_request request_id
issue-accept lib v later spec session now_ms later_ms random_id challenge pending device credential
      response issued paired honest clean fits =
    let (due, same) = (issue_iff v spec session now_ms random_id challenge pending).0 issued in
    let request = build_request v.identity spec session now_ms random_id challenge in
    let requested : pending.request ≡ request = ap (λ (p : PendingAuthorization). p.request) same in
    let paired_now : find_credential later.store pending.request.credential_id
        ≡ some (device, credential) =
      rw requested paired in
    let exact =
      accept_iff lib later pending (Response.encode response) session later_ms
        (granted spec session device random_id later_ms) in
    (
      λ e.
          let (answer, matched, d, new) = exact.0 e in
          let same_credential : d.credential ≡ credential = ground (arith, d.paired, paired_now) in
          (
            subst (λ (c : PairedCredential). permits c.permissions pending.request ≡ true)
                same_credential d.covered,
            new,
            d.alive,
          ),
      λ (covered, new, alive). exact.1 (
        response,
        record {
          channel = due.channel;
          binding = ap (λ (p : PendingAuthorization). p.session_binding) (sym same);
          decoded =
              (response-decode_iff (Response.encode response) response clean).1
                (refl, honest.typed, honest.valid, fits);
          request_id = honest.request_id;
          verifier_id = honest.verifier_id;
          credential_id = honest.credential_id;
          version =
              validate-version response honest.valid
              ∙ sym (ap (λ (r : AuthRequest). r.version) requested);
        },
        record {
          device = device;
          credential = credential;
          alive = alive;
          approved = honest.approved;
          paired = paired_now;
          covered = covered;
          signed = honest.signed;
          echoes = rw same refl;
        },
        new,
      ),
    )
