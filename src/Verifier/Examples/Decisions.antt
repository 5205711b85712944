-- ===== src/Verifier/Examples/Decisions.antt =====
-- The theorems on requests, answers, replays and permissions, at the example.
use bio_auth.Common.{◌≡◌, refl, [], ◌∷◌, true, false, ok, str, arith, In}
use bio_auth.Common.Int.{pos}
use bio_auth.Common.Int.{◌+ℤ◌, saturating_add}
use bio_auth.Encoding.{digit, to_hex}
use bio_auth.Protocol.Response
use bio_auth.Protocol.Response.{AuthResponse}
use bio_auth.Verifier.Policy.{Permission, permits, allows, allows_fields, matches}
use bio_auth.Verifier.Replay.Window.{consume_twice, consume_all}
use bio_auth.Verifier.Replay.Invariant.{consume-IsSound, IsSound as IsSoundGuard}
use bio_auth.Protocol.Response.Laws.{response-decode_iff, IsTyped}
use bio_auth.Verifier.Accept.Sound.{Matches, Deserves}
use bio_auth.Verifier.Accept.Honest.{accept_iff}
use bio_auth.Verifier.Accept.EndToEnd.{issue-accept}
use bio_auth.Verifier.Accept.Once.{attempt, serve, answered, accept_once, serve-replay}
use bio_auth.Verifier.Policy.Cover.{permits_iff, IsGranted}
use bio_auth.Verifier.Issue.Sound.{IsDue, issue_iff}
use bio_auth.Verifier.Replay.{consume, member, contains}
use bio_auth.Verifier.Issue.{build_request, clamp_validity, request_id}
use bio_auth.Verifier.Accept.{accept}
use bio_auth.Verifier.Examples.{
  repeat, toy_p256, sudo_credential, phone, paired_store, fresh_guard, laptop_verifier, session,
  sudo_spec, request, pending, answer, answer_frame, grant, first_try, second_try,
}
use bio_auth.Verifier.Examples.Runs.{
  issued, accepted, decoded, matched, answer_bytes, found, fresh_guard-IsSound, new_id,
  answer-IsHonest,
}
use bio_auth.Protocol.Codec.{Fits}

accept_iff_example :
    (response : AuthResponse) × Matches pending answer_frame session response
    × Deserves toy_p256 paired_store pending response (pos 2000) grant
    × (contains fresh_guard (str "0a0b") ≡ false)
accept_iff_example =
    (accept_iff toy_p256 laptop_verifier pending answer_frame session (pos 2000) grant).0 accepted

accept_once_example : ¬ (
    (attempt toy_p256
      (serve toy_p256 (attempt toy_p256 laptop_verifier first_try).0 [])
      second_try).1
    ≡ ok grant)
accept_once_example =
    accept_once toy_p256 laptop_verifier first_try second_try [] answer fresh_guard-IsSound matched
      new_id (unfold answered in omega arith) refl grant

issue_iff_example :
    IsDue laptop_verifier sudo_spec session request
    × (pending ≡ record {
      request = request;
      origin = session.origin_label;
      session_binding = session.session_binding;
    })
unfolding build_request saturating_add ◌+ℤ◌ clamp_validity request_id to_hex digit
issue_iff_example =
    (issue_iff laptop_verifier sudo_spec session (pos 1000) (10 ∷ 11 ∷ []) (repeat 32 3) pending).0
      issued

covered : permits sudo_credential.permissions request ≡ true
unfolding permits allows allows_fields matches
covered = refl

issue-accept_example :
    (accept toy_p256 laptop_verifier pending answer_frame session (pos 2000)).1 ≡ ok grant
unfolding to_hex
issue-accept_example =
    (issue-accept toy_p256 laptop_verifier laptop_verifier sudo_spec session (pos 1000) (pos 2000)
        (10 ∷ 11 ∷ []) (repeat 32 3) pending phone sudo_credential answer issued found
        answer-IsHonest answer_bytes
        ((response-decode_iff answer_frame answer answer_bytes).0 decoded).3).1
      (covered, new_id, omega arith)

serve-replay_example :
    (serve toy_p256 laptop_verifier (first_try ∷ second_try ∷ [])).replay
    ≡ consume_all fresh_guard (answered (first_try ∷ second_try ∷ []))
serve-replay_example = serve-replay toy_p256 laptop_verifier (first_try ∷ second_try ∷ [])

first_use : (consume fresh_guard (str "0a0b")).1 ≡ true
unfolding consume member
first_use = refl

consume_twice_example :
    (consume (consume_all (consume fresh_guard (str "0a0b")).0 (str "0c" ∷ [])) (str "0a0b")).1
    ≡ false
consume_twice_example =
    consume_twice fresh_guard (str "0a0b") (str "0c" ∷ []) fresh_guard-IsSound first_use
      (omega arith)

consume-IsSound_example : IsSoundGuard (consume fresh_guard (str "0a0b")).0
consume-IsSound_example = consume-IsSound fresh_guard (str "0a0b") fresh_guard-IsSound

permits_iff_example : (p : Permission) × In p sudo_credential.permissions × IsGranted p request
permits_iff_example = (permits_iff sudo_credential.permissions request).0 covered

response-decode_iff_example :
    (Response.encode answer ≡ answer_frame)
    × IsTyped answer
    × (Response.validate answer ≡ ok tt)
    × Fits answer_frame
response-decode_iff_example = (response-decode_iff answer_frame answer answer_bytes).0 decoded
