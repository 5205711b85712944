-- ===== src/Protocol/SshSign/SignRequestWire.antt =====
-- `SignRequest` of phone-auth-protocol/src/ssh.rs, written and read.
use bio_auth.Common.{ℕ, ◌≡◌, sym, ◌++◌, [], List, arith, append_assoc, append-nil, ok}
use bio_auth.Cbor.Items.{array_item, uint_item, text_item, bytes_item, writes}
use bio_auth.Cbor.Reader
use bio_auth.Cbor.Position.{Reads, Takes, Takes-bind, Takes-ok}
use bio_auth.Protocol.Codec.{Reads-bind, Reads-pure}
use bio_auth.Protocol.Items.{IsText, IsVec, text_field, bytes_field, text-takes, bytes-takes}
use bio_auth.Protocol.Parser.{item}
use bio_auth.Protocol.Payload.{opening}
use bio_auth.Protocol.Payload.Laws.{opening-Reads, opening-takes}
use bio_auth.Protocol.SshSign.{SignRequest, validate_sign_request, encode_sign_request}
use bio_auth.Protocol.SshSign.Decode.{read_sign_request}

-- What the types of the source say of it.
pub record IsTypedSignRequest (m : SignRequest) : Type 0 where
  pub verifier_name_typed : IsText m.verifier_name
  pub destination_typed : IsText m.destination
  pub signed_data_typed : IsVec m.signed_data

sign_request_items : SignRequest → List ℕ
sign_request_items m =
    (array_item 4 ++ (uint_item 1 ++ []))
    ++ (text_item m.verifier_name ++ (text_item m.destination ++ (bytes_item m.signed_data ++ [])))

encode_sign_request-items : (m : SignRequest) → encode_sign_request m ≡ sign_request_items m
unfolding encode_sign_request sign_request_items
encode_sign_request-items m =
    simp (encode_sign_request, sign_request_items, writes, append_assoc, append-nil)

pub sign_request-Reads :
    (m : SignRequest)
    → IsTypedSignRequest m
    → validate_sign_request m ≡ ok tt
    → Reads read_sign_request (encode_sign_request m) m
unfolding read_sign_request sign_request_items
sign_request-Reads m t e = rw (encode_sign_request-items m) (
    Reads-bind _ _ _ _ tt m (opening-Reads 1 4 (omega arith) (omega arith)) (
      Reads-bind _ _ _ _ m.verifier_name m (text_field _ t.verifier_name_typed) (
        Reads-bind _ _ _ _ m.destination m (text_field _ t.destination_typed)
          (Reads-bind _ _ _ _ m.signed_data m (bytes_field _ t.signed_data_typed) (Reads-pure m)))))

pub sign_request-takes :
    Takes read_sign_request (λ used m. (used ≡ encode_sign_request m) × IsTypedSignRequest m)
unfolding read_sign_request
sign_request-takes = Takes-bind (opening 1 4) _ _ _ (opening-takes 1 4) λ u0 _ _ e0.
    Takes-bind (item Reader.text) _ _ _ text-takes λ u1 verifier_name _ (e1, w1).
      Takes-bind (item Reader.text) _ _ _ text-takes λ u2 destination _ (e2, w2).
        Takes-bind (item Reader.bytes) _ _ _ bytes-takes λ u3 signed_data _ (e3, w3). Takes-ok _ _ (
          rw (e0, e1, e2, e3) (sym (unfold sign_request_items in encode_sign_request-items _)),
          record { verifier_name_typed = w1; destination_typed = w2; signed_data_typed = w3 },
        )
