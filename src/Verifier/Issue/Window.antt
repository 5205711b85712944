-- ===== src/Verifier/Issue/Window.antt =====
-- The validity that `Verifier::issue` of phone-auth-verifier/src/verifier.rs gives its requests.
use bio_auth.Common.{ℕ, ◌≡◌, ◌<◌, ◌+◌, ◌^◌, List, false, ok, arith}
use bio_auth.Common.Int.{
  ℤ, pos, negsuc, pos_part, IsI64, lebℤ, ◌+ℤ◌, ◌-ℤ◌, saturating_add, checked_sub,
}
use bio_auth.Protocol.Defs.{check_window}
use bio_auth.Protocol.Request.{is_expired_at}
use bio_auth.Verifier.Session.{SecureSession}
use bio_auth.Verifier.State.{VerifierIdentity, RequestSpec}
use bio_auth.Verifier.Issue.{clamp_validity, build_request}

window_holds :
    (now v : ℤ)
    → IsI64 now
    → pos_part now + 120000 < 2 ^ 63
    → (check_window now (saturating_add now (clamp_validity v)) ≡ ok tt)
      × (lebℤ (saturating_add now (clamp_validity v)) now ≡ false)
unfolding check_window saturating_add clamp_validity ◌+ℤ◌ ◌-ℤ◌ checked_sub
window_holds (pos n) (pos v) range early = ground arith
window_holds (pos n) (negsuc v) range early = ground arith
window_holds (negsuc n) (pos v) range early = ground arith
window_holds (negsuc n) (negsuc v) range early = ground arith

-- Whatever validity is asked for, a request that is made more than two minutes before the end of time
-- has a window that the protocol accepts, and is not expired when it is issued.
pub build_request_window :
    (identity : VerifierIdentity) (spec : RequestSpec) (session : SecureSession) (now_ms : ℤ)
    (random_id challenge : List ℕ)
    → IsI64 now_ms
    → pos_part now_ms + 120000 < 2 ^ 63
    → (check_window now_ms
          (build_request identity spec session now_ms random_id challenge).expires_at_ms
        ≡ ok tt)
      × (is_expired_at (build_request identity spec session now_ms random_id challenge) now_ms
          ≡ false)
unfolding build_request is_expired_at
build_request_window identity spec session now_ms random_id challenge range early =
    window_holds now_ms spec.validity_ms range early
