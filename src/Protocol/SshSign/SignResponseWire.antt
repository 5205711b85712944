-- ===== src/Protocol/SshSign/SignResponseWire.antt =====
-- `SignResponse` of phone-auth-protocol/src/ssh.rs, written and read.
use bio_auth.Common.{ℕ, ◌≡◌, sym, ◌++◌, [], List, arith, append_assoc, append-nil, ok}
use bio_auth.Cbor.Items.{array_item, uint_item, bytes_item, writes}
use bio_auth.Cbor.Reader
use bio_auth.Cbor.Position.{Reads, Takes, Takes-bind, Takes-ok}
use bio_auth.Protocol.Codec.{Reads-bind, Reads-pure}
use bio_auth.Protocol.Items.{IsVec, bytes_field, bytes-takes}
use bio_auth.Protocol.Parser.{item}
use bio_auth.Protocol.Payload.{opening}
use bio_auth.Protocol.Payload.Laws.{opening-Reads, opening-takes}
use bio_auth.Protocol.SshSign.{SignResponse, validate_sign_response, encode_sign_response}
use bio_auth.Protocol.SshSign.Decode.{read_sign_response}

-- What the types of the source say of it.
pub record IsTypedSignResponse (m : SignResponse) : Type 0 where
  pub signature_typed : IsVec m.signature

sign_response_items : SignResponse → List ℕ
sign_response_items m = (array_item 2 ++ (uint_item 1 ++ [])) ++ (bytes_item m.signature ++ [])

encode_sign_response-items : (m : SignResponse) → encode_sign_response m ≡ sign_response_items m
unfolding encode_sign_response sign_response_items
encode_sign_response-items m =
    simp (encode_sign_response, sign_response_items, writes, append_assoc, append-nil)

pub sign_response-Reads :
    (m : SignResponse)
    → IsTypedSignResponse m
    → validate_sign_response m ≡ ok tt
    → Reads read_sign_response (encode_sign_response m) m
unfolding read_sign_response sign_response_items
sign_response-Reads m t e = rw (encode_sign_response-items m) (
    Reads-bind _ _ _ _ tt m (opening-Reads 1 2 (omega arith) (omega arith))
      (Reads-bind _ _ _ _ m.signature m (bytes_field _ t.signature_typed) (Reads-pure m)))

pub sign_response-takes :
    Takes read_sign_response (λ used m. (used ≡ encode_sign_response m) × IsTypedSignResponse m)
unfolding read_sign_response
sign_response-takes = Takes-bind (opening 1 2) _ _ _ (opening-takes 1 2) λ u0 _ _ e0.
    Takes-bind (item Reader.bytes) _ _ _ bytes-takes λ u1 signature _ (e1, w1). Takes-ok _ _ (
      rw (e0, e1) (sym (unfold sign_response_items in encode_sign_response-items _)),
      record { signature_typed = w1 },
    )
