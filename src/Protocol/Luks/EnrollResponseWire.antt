-- ===== src/Protocol/Luks/EnrollResponseWire.antt =====
-- `EnrollResponse` of phone-auth-protocol/src/luks.rs, written and read.
use bio_auth.Common.{ℕ, ◌≡◌, sym, ◌++◌, [], List, arith, append_assoc, append-nil, ok}
use bio_auth.Cbor.Items.{array_item, uint_item, text_item, bytes_item, writes}
use bio_auth.Cbor.Reader
use bio_auth.Cbor.Position.{Reads, Takes, Takes-bind, Takes-ok}
use bio_auth.Protocol.Codec.{Reads-bind, Reads-pure}
use bio_auth.Protocol.Items.{IsText, IsVec, text_field, bytes_field, text-takes, bytes-takes}
use bio_auth.Protocol.Parser.{item}
use bio_auth.Protocol.Payload.{opening}
use bio_auth.Protocol.Payload.Laws.{opening-Reads, opening-takes}
use bio_auth.Protocol.Luks.{EnrollResponse, validate_enroll_response, encode_enroll_response}
use bio_auth.Protocol.Luks.Decode.{read_enroll_response}

-- What the types of the source say of it.
pub record IsTypedEnrollResponse (m : EnrollResponse) : Type 0 where
  pub credential_id_typed : IsText m.credential_id
  pub wrapper_typed : IsVec m.wrapper

enroll_response_items : EnrollResponse → List ℕ
enroll_response_items m =
    (array_item 3 ++ (uint_item 1 ++ []))
    ++ (text_item m.credential_id ++ (bytes_item m.wrapper ++ []))

encode_enroll_response-items :
    (m : EnrollResponse) → encode_enroll_response m ≡ enroll_response_items m
unfolding encode_enroll_response enroll_response_items
encode_enroll_response-items m =
    simp (encode_enroll_response, enroll_response_items, writes, append_assoc, append-nil)

pub enroll_response-Reads :
    (m : EnrollResponse)
    → IsTypedEnrollResponse m
    → validate_enroll_response m ≡ ok tt
    → Reads read_enroll_response (encode_enroll_response m) m
unfolding read_enroll_response enroll_response_items
enroll_response-Reads m t e = rw (encode_enroll_response-items m) (
    Reads-bind _ _ _ _ tt m (opening-Reads 1 3 (omega arith) (omega arith)) (
      Reads-bind _ _ _ _ m.credential_id m (text_field _ t.credential_id_typed)
        (Reads-bind _ _ _ _ m.wrapper m (bytes_field _ t.wrapper_typed) (Reads-pure m))))

pub enroll_response-takes :
    Takes read_enroll_response
      (λ used m. (used ≡ encode_enroll_response m) × IsTypedEnrollResponse m)
unfolding read_enroll_response
enroll_response-takes = Takes-bind (opening 1 3) _ _ _ (opening-takes 1 3) λ u0 _ _ e0.
    Takes-bind (item Reader.text) _ _ _ text-takes λ u1 credential_id _ (e1, w1).
      Takes-bind (item Reader.bytes) _ _ _ bytes-takes λ u2 wrapper _ (e2, w2). Takes-ok _ _ (
        rw (e0, e1, e2) (sym (unfold enroll_response_items in encode_enroll_response-items _)),
        record { credential_id_typed = w1; wrapper_typed = w2 },
      )
