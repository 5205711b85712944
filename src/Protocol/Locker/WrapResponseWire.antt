-- ===== src/Protocol/Locker/WrapResponseWire.antt =====
-- `WrapResponse` of phone-auth-protocol/src/locker.rs, written and read.
use bio_auth.Common.{ℕ, ◌≡◌, sym, ◌++◌, [], List, arith, append_assoc, append-nil, ok}
use bio_auth.Cbor.Items.{array_item, uint_item, text_item, bytes_item, writes}
use bio_auth.Cbor.Reader
use bio_auth.Cbor.Position.{Reads, Takes, Takes-bind, Takes-ok}
use bio_auth.Protocol.Codec.{Reads-bind, Reads-pure}
use bio_auth.Protocol.Items.{IsText, IsVec, text_field, bytes_field, text-takes, bytes-takes}
use bio_auth.Protocol.Parser.{item}
use bio_auth.Protocol.Payload.{opening}
use bio_auth.Protocol.Payload.Laws.{opening-Reads, opening-takes}
use bio_auth.Protocol.Locker.{WrapResponse, validate_wrap_response, encode_wrap_response}
use bio_auth.Protocol.Locker.Decode.{read_wrap_response}

-- What the types of the source say of it.
pub record IsTypedWrapResponse (m : WrapResponse) : Type 0 where
  pub credential_id_typed : IsText m.credential_id
  pub wrapper_typed : IsVec m.wrapper

wrap_response_items : WrapResponse → List ℕ
wrap_response_items m =
    (array_item 3 ++ (uint_item 1 ++ []))
    ++ (text_item m.credential_id ++ (bytes_item m.wrapper ++ []))

encode_wrap_response-items : (m : WrapResponse) → encode_wrap_response m ≡ wrap_response_items m
unfolding encode_wrap_response wrap_response_items
encode_wrap_response-items m =
    simp (encode_wrap_response, wrap_response_items, writes, append_assoc, append-nil)

pub wrap_response-Reads :
    (m : WrapResponse)
    → IsTypedWrapResponse m
    → validate_wrap_response m ≡ ok tt
    → Reads read_wrap_response (encode_wrap_response m) m
unfolding read_wrap_response wrap_response_items
wrap_response-Reads m t e = rw (encode_wrap_response-items m) (
    Reads-bind _ _ _ _ tt m (opening-Reads 1 3 (omega arith) (omega arith)) (
      Reads-bind _ _ _ _ m.credential_id m (text_field _ t.credential_id_typed)
        (Reads-bind _ _ _ _ m.wrapper m (bytes_field _ t.wrapper_typed) (Reads-pure m))))

pub wrap_response-takes :
    Takes read_wrap_response (λ used m. (used ≡ encode_wrap_response m) × IsTypedWrapResponse m)
unfolding read_wrap_response
wrap_response-takes = Takes-bind (opening 1 3) _ _ _ (opening-takes 1 3) λ u0 _ _ e0.
    Takes-bind (item Reader.text) _ _ _ text-takes λ u1 credential_id _ (e1, w1).
      Takes-bind (item Reader.bytes) _ _ _ bytes-takes λ u2 wrapper _ (e2, w2). Takes-ok _ _ (
        rw (e0, e1, e2) (sym (unfold wrap_response_items in encode_wrap_response-items _)),
        record { credential_id_typed = w1; wrapper_typed = w2 },
      )
