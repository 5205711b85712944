-- ===== src/Protocol/Locker/UnwrapResponseWire.antt =====
-- `UnwrapResponse` of phone-auth-protocol/src/locker.rs, written and read.
use bio_auth.Common.{ℕ, ◌≡◌, sym, ◌++◌, [], List, arith, append_assoc, append-nil, ok}
use bio_auth.Cbor.Items.{array_item, uint_item, bytes_item, writes}
use bio_auth.Cbor.Reader
use bio_auth.Cbor.Position.{Reads, Takes, Takes-bind, Takes-ok}
use bio_auth.Protocol.Codec.{Reads-bind, Reads-pure}
use bio_auth.Protocol.Items.{IsVec, bytes_field, bytes-takes}
use bio_auth.Protocol.Parser.{item}
use bio_auth.Protocol.Payload.{opening}
use bio_auth.Protocol.Payload.Laws.{opening-Reads, opening-takes}
use bio_auth.Protocol.Locker.{UnwrapResponse, validate_unwrap_response, encode_unwrap_response}
use bio_auth.Protocol.Locker.Decode.{read_unwrap_response}

-- What the types of the source say of it.
pub record IsTypedUnwrapResponse (m : UnwrapResponse) : Type 0 where
  pub data_key_typed : IsVec m.data_key

unwrap_response_items : UnwrapResponse → List ℕ
unwrap_response_items m = (array_item 2 ++ (uint_item 1 ++ [])) ++ (bytes_item m.data_key ++ [])

encode_unwrap_response-items :
    (m : UnwrapResponse) → encode_unwrap_response m ≡ unwrap_response_items m
unfolding encode_unwrap_response unwrap_response_items
encode_unwrap_response-items m =
    simp (encode_unwrap_response, unwrap_response_items, writes, append_assoc, append-nil)

pub unwrap_response-Reads :
    (m : UnwrapResponse)
    → IsTypedUnwrapResponse m
    → validate_unwrap_response m ≡ ok tt
    → Reads read_unwrap_response (encode_unwrap_response m) m
unfolding read_unwrap_response unwrap_response_items
unwrap_response-Reads m t e = rw (encode_unwrap_response-items m) (
    Reads-bind _ _ _ _ tt m (opening-Reads 1 2 (omega arith) (omega arith))
      (Reads-bind _ _ _ _ m.data_key m (bytes_field _ t.data_key_typed) (Reads-pure m)))

pub unwrap_response-takes :
    Takes read_unwrap_response
      (λ used m. (used ≡ encode_unwrap_response m) × IsTypedUnwrapResponse m)
unfolding read_unwrap_response
unwrap_response-takes = Takes-bind (opening 1 2) _ _ _ (opening-takes 1 2) λ u0 _ _ e0.
    Takes-bind (item Reader.bytes) _ _ _ bytes-takes λ u1 data_key _ (e1, w1). Takes-ok _ _ (
      rw (e0, e1) (sym (unfold unwrap_response_items in encode_unwrap_response-items _)),
      record { data_key_typed = w1 },
    )
