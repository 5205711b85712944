-- ===== src/Verifier/Accept/Once.antt =====
-- Several calls of `Verifier::accept` of phone-auth-verifier/src/verifier.rs, one after another.
use bio_auth.Common.{
  ℕ, ◌≡◌, ◌<◌, refl, ap, sym, ◌∙◌, List, [], ◌∷◌, true, false, Result, ok, err, arith, Result-cases,
  inl, inr, length, not,
}
use bio_auth.Common.Int.{ℤ}
use bio_auth.Protocol.Response.{AuthResponse}
use bio_auth.Verifier.Replay.{ReplayGuard, consume, contains}
use bio_auth.Verifier.Replay.Window.{consume_all, consume_twice}
use bio_auth.Verifier.Replay.Invariant.{IsSound, consume_iff}
use bio_auth.Verifier.Session.{SecureSession}
use bio_auth.Verifier.Signature.{P256}
use bio_auth.Verifier.State.{PendingAuthorization, Grant, Verifier, AuthorizationError}
use bio_auth.Verifier.Accept.{match_response, accept}

-- One call of `accept`.
pub record Attempt : Type 0 where
  pub pending : PendingAuthorization
  pub response_frame : List ℕ
  pub session : SecureSession
  pub now_ms : ℤ

unfoldable pub attempt : P256 → Verifier → Attempt → Verifier × Result AuthorizationError Grant
attempt lib v a = accept lib v a.pending a.response_frame a.session a.now_ms

-- The calls of `accept` that one verifier serves, one after another.
unfoldable pub serve : P256 → Verifier → List Attempt → Verifier
unfolding attempt
serve lib v [] = v
serve lib v (a ∷ rest) = serve lib (attempt lib v a).0 rest

-- The request ids that these calls look up.
unfoldable pub answered : List Attempt → List (List ℕ)
answered [] = []
answered (a ∷ rest) = elim (match_response a.pending a.response_frame a.session) [
  | ok response ↦ a.pending.request.request_id ∷ answered rest
  | err e ↦ answered rest
]

attempt-replay :
    (lib : P256) (v : Verifier) (a : Attempt) (rest : List Attempt)
    → consume_all (attempt lib v a).0.replay (answered rest)
      ≡ consume_all v.replay (answered (a ∷ rest))
unfolding attempt accept answered consume_all
attempt-replay lib v a rest =
    elim (Result-cases (match_response a.pending a.response_frame a.session)) [
      | inl (response, m) ↦ ground arith
      | inr (e, m) ↦ ground arith
    ]

nothing : (v : Verifier) → consume_all v.replay (answered []) ≡ v.replay
unfolding answered consume_all
nothing v = refl

-- Whatever calls of `accept` a verifier serves, its replay guard ends where consuming the request ids of the
-- answers that could be matched, in their order, would bring it: nothing else moves the guard.
pub serve-replay :
    (lib : P256) (v : Verifier) (rest : List Attempt)
    → (serve lib v rest).replay ≡ consume_all v.replay (answered rest)
unfolding serve
serve-replay lib v [] = sym (nothing v)
serve-replay lib v (a ∷ rest) =
    serve-replay lib (attempt lib v a).0 rest ∙ attempt-replay lib v a rest

accept_refused :
    (lib : P256) (v : Verifier) (a : Attempt)
    → (consume v.replay a.pending.request.request_id).1 ≡ false
    → (g : Grant) → ¬ ((attempt lib v a).1 ≡ ok g)
unfolding attempt accept
accept_refused lib v a used g e =
    elim (Result-cases (match_response a.pending a.response_frame a.session)) [
      | inl (response, m) ↦ ground arith
      | inr (x, m) ↦ ground arith
    ]

attempt-consumed :
    (lib : P256) (v : Verifier) (a : Attempt) (response : AuthResponse)
    → match_response a.pending a.response_frame a.session ≡ ok response
    → (attempt lib v a).0.replay ≡ (consume v.replay a.pending.request.request_id).0
unfolding attempt accept
attempt-consumed lib v a response m = ground arith

-- In a replay guard that is sound, once an answer to a request was looked up whose id the guard did not
-- hold yet, granted or not, no later call of `accept` grants a request of that id, as long as fewer than
-- `capacity` answers were looked up in between.
pub accept_once :
    (lib : P256) (v : Verifier) (first again : Attempt) (between : List Attempt)
    (response : AuthResponse)
    → IsSound v.replay
    → match_response first.pending first.response_frame first.session ≡ ok response
    → contains v.replay first.pending.request.request_id ≡ false
    → length (answered between) < v.replay.capacity
    → again.pending.request.request_id ≡ first.pending.request.request_id
    → (g : Grant) → ¬ ((attempt lib (serve lib (attempt lib v first).0 between) again).1 ≡ ok g)
accept_once lib v first again between response sound m new few same =
    let id = first.pending.request.request_id in
    let after = serve lib (attempt lib v first).0 between in
    let fresh : (consume v.replay id).1 ≡ true = consume_iff v.replay id sound ∙ ap not new in
    let state : after.replay ≡ consume_all (consume v.replay id).0 (answered between) =
      serve-replay lib (attempt lib v first).0 between
      ∙ ap (λ (r : ReplayGuard). consume_all r (answered between))
          (attempt-consumed lib v first response m) in
    accept_refused lib after again
      (rw (state, same) (consume_twice v.replay id (answered between) sound fresh few))
