-- ===== src/Verifier/Examples/Runs.antt =====
-- The request is issued, answered and granted: the runs that the examples rest on.
use bio_auth.Common.{◌≡◌, refl, [], ◌∷◌, true, false, some, ok, str, all, err}
use bio_auth.Common.Int.{pos}
use bio_auth.Common.Int.{◌+ℤ◌, ◌-ℤ◌, checked_sub, saturating_add}
use bio_auth.Common.Bytes.{to_be, from_be, AreBytes, is_byte, all→AreBytes}
use bio_auth.Encoding.{digit, to_hex}
use bio_auth.Text.{is_blank, utf16_len, chars, chars_from, feed, is_utf8}
use bio_auth.Cbor.Reader
use bio_auth.Cbor.Writer
use bio_auth.Protocol.Defs.{check_text, check_window, check_frame_size, bytes_equal, zip_equal}
use bio_auth.Protocol.Parser.{header, coded}
use bio_auth.Protocol.Codec.{decode_with}
use bio_auth.Protocol.Response.Decode.{decode, fields}
use bio_auth.Protocol.Request
use bio_auth.Protocol.Request.{AuthRequest}
use bio_auth.Protocol.Response
use bio_auth.Protocol.Response.{AuthResponse, authorized}
use bio_auth.Verifier.Policy.{wildcard, permits, allows, allows_fields, matches}
use bio_auth.Verifier.Pairing.{
  in_memory, insert, merged, kept, first_conflict, conflicts, persist, find_credential,
  find_in_devices, credential, for_service, allowed_at_boot, PairedDevice,
}
use bio_auth.Verifier.TextMap.{insert as map_insert, place, get, replace}
use bio_auth.Verifier.Pairing.Lookup
use bio_auth.Verifier.Pairing.Unique.{in_memory-IsSound, insert-IsSound}
use bio_auth.Verifier.Replay.Invariant.{IsSound as IsSoundGuard, with_capacity-IsSound}
use bio_auth.Protocol.Response.Laws.{response-decode_iff}
use bio_auth.Verifier.Accept.Honest.{IsHonest}
use bio_auth.Verifier.Replay.{with_capacity, consume, trim, evict, erase, member, contains}
use bio_auth.Verifier.Session.{suitable_for_authorization}
use bio_auth.Verifier.State.{Verifier, policy_denied}
use bio_auth.Verifier.Signature.{verify_authorization}
use bio_auth.Verifier.Issue.{issue, build_request, check_boot, clamp_validity, request_id}
use bio_auth.Verifier.Accept.{accept, match_response, decide}
use bio_auth.Verifier.Examples.{
  repeat, toy_p256, phone_key, sudo_credential, phone, paired_store, fresh_guard, laptop_verifier,
  session, sudo_spec, request, pending, answer, answer_frame, grant,
}

pub issued :
    issue laptop_verifier sudo_spec session (pos 1000) (10 ∷ 11 ∷ []) (repeat 32 3) ≡ ok pending
unfolding issue suitable_for_authorization find_credential find_in_devices credential for_service
    check_boot Request.validate build_request check_text is_blank utf16_len check_window checked_sub
    saturating_add permits allows allows_fields ◌+ℤ◌ ◌-ℤ◌ digit to_hex chars chars_from feed
    clamp_validity request_id allowed_at_boot matches
issued = refl

pub accepted :
    (accept toy_p256 laptop_verifier pending answer_frame session (pos 2000)).1 ≡ ok grant
unfolding accept match_response suitable_for_authorization decode decode_with check_frame_size
    header coded fields Reader.array Reader.expect Reader.head Reader.take Reader.argument
    Reader.uint Reader.finish Reader.argument_of Reader.text Reader.int Reader.bytes
    Response.validate from_be is_utf8 check_text bytes_equal zip_equal is_blank Response.encode
    Response.decision_from_wire utf16_len Writer.bytes Writer.head Writer.text Writer.uint
    Writer.array Writer.head_bytes Writer.int to_be Request.encode Request.is_expired_at
    Request.signing_payload chars chars_from feed decide credential find_credential find_in_devices
    allows allows_fields matches permits erase evict member trim verify_authorization consume
accepted = refl

-- The test `narrowing_policy_mid_flight_stops_the_grant`: by then the credential may only log in.
abbrev narrowed : PairedDevice
narrowed = record phone {
  credentials =
      record sudo_credential {
        permissions =
            record {
              service = str "login";
              action = wildcard;
              resource = wildcard;
              user = wildcard;
            }
            ∷ [];
      }
      ∷ [];
}

abbrev narrowed_verifier : Verifier
narrowed_verifier = record laptop_verifier {
  store = record paired_store { devices = (str "phone-1", narrowed) ∷ [] };
}

narrowing_stops :
    (accept toy_p256 narrowed_verifier pending answer_frame session (pos 2000)).1
    ≡ err policy_denied
unfolding accept match_response suitable_for_authorization decode decode_with check_frame_size
    header coded fields Reader.array Reader.expect Reader.head Reader.take Reader.argument
    Reader.uint Reader.finish Reader.argument_of Reader.text Reader.int Reader.bytes
    Response.validate from_be is_utf8 check_text bytes_equal zip_equal is_blank Response.encode
    Response.decision_from_wire utf16_len Writer.bytes Writer.head Writer.text Writer.uint
    Writer.array Writer.head_bytes Writer.int to_be Request.encode Request.is_expired_at
    Request.signing_payload chars chars_from feed decide credential find_credential find_in_devices
    allows allows_fields matches permits erase evict member trim verify_authorization consume
narrowing_stops = refl

pub decoded : decode answer_frame ≡ ok answer
unfolding accept match_response suitable_for_authorization decode decode_with check_frame_size
    header coded fields Reader.array Reader.expect Reader.head Reader.take Reader.argument
    Reader.uint Reader.finish Reader.argument_of Reader.text Reader.int Reader.bytes
    Response.validate from_be is_utf8 check_text bytes_equal zip_equal is_blank Response.encode
    Response.decision_from_wire utf16_len Writer.bytes Writer.head Writer.text Writer.uint
    Writer.array Writer.head_bytes Writer.int to_be Request.encode Request.is_expired_at
    Request.signing_payload chars chars_from feed decide credential find_credential find_in_devices
    allows allows_fields matches permits erase evict member trim verify_authorization consume
decoded = refl

pub matched : match_response pending answer_frame session ≡ ok answer
unfolding accept match_response suitable_for_authorization decode decode_with check_frame_size
    header coded fields Reader.array Reader.expect Reader.head Reader.take Reader.argument
    Reader.uint Reader.finish Reader.argument_of Reader.text Reader.int Reader.bytes
    Response.validate from_be is_utf8 check_text bytes_equal zip_equal is_blank Response.encode
    Response.decision_from_wire utf16_len Writer.bytes Writer.head Writer.text Writer.uint
    Writer.array Writer.head_bytes Writer.int to_be Request.encode Request.is_expired_at
    Request.signing_payload chars chars_from feed decide credential find_credential find_in_devices
    allows allows_fields matches permits erase evict member trim verify_authorization consume
matched = refl

answer_is_bytes : all is_byte answer_frame ≡ true
unfolding suitable_for_authorization decode decode_with check_frame_size header coded fields
    Reader.array Reader.expect Reader.head Reader.take Reader.argument Reader.uint Reader.finish
    Reader.argument_of Reader.text Reader.int Reader.bytes Response.validate from_be is_utf8
    check_text bytes_equal zip_equal is_blank Response.encode Response.decision_from_wire utf16_len
    Writer.bytes Writer.head Writer.text Writer.uint Writer.array Writer.head_bytes Writer.int to_be
    Request.encode Request.is_expired_at Request.signing_payload chars chars_from feed decide
    credential find_credential find_in_devices allows allows_fields matches permits erase evict
    member trim verify_authorization consume
answer_is_bytes = refl

pub answer_bytes : AreBytes answer_frame
answer_bytes = all→AreBytes answer_frame answer_is_bytes

pub found : find_credential paired_store (str "cred-1") ≡ some (phone, sudo_credential)
unfolding find_credential find_in_devices credential
found = refl

pub paired-IsSound : Lookup.IsSound paired_store.devices
unfolding in_memory insert merged kept first_conflict conflicts find_credential find_in_devices
    credential persist map_insert place get replace
paired-IsSound = insert-IsSound in_memory phone (ok tt) in_memory-IsSound

pub fresh_guard-IsSound : IsSoundGuard fresh_guard
unfolding with_capacity
fresh_guard-IsSound = with_capacity-IsSound 2

pub new_id : contains fresh_guard (str "0a0b") ≡ false
unfolding contains member
new_id = refl

pub answer-IsHonest : IsHonest toy_p256 sudo_credential request answer
unfolding Request.encode Writer.bytes Writer.head Writer.text Writer.uint Writer.array
    Writer.head_bytes Writer.int to_be
answer-IsHonest =
    let (same, typed, valid, fits) =
      (response-decode_iff answer_frame answer answer_bytes).0 decoded in
    record {
      typed = typed;
      valid = valid;
      request_id = refl;
      verifier_id = refl;
      credential_id = refl;
      approved = refl;
      signed = record {
        key = phone_key;
        proof = answer.signature;
        algorithm = refl;
        encoding = refl;
        parsed_key = refl;
        parsed_proof = refl;
        verified = refl;
      };
    }
