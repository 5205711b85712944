-- ===== src/Protocol/Luks/UnlockResponseWire.antt =====
-- `UnlockResponse` of phone-auth-protocol/src/luks.rs, written and read.
use bio_auth.Common.{ℕ, ◌≡◌, sym, ◌++◌, [], List, arith, append_assoc, append-nil, ok}
use bio_auth.Cbor.Items.{array_item, uint_item, bytes_item, writes}
use bio_auth.Cbor.Reader
use bio_auth.Cbor.Position.{Reads, Takes, Takes-bind, Takes-ok}
use bio_auth.Protocol.Codec.{Reads-bind, Reads-pure}
use bio_auth.Protocol.Items.{IsVec, bytes_field, bytes-takes}
use bio_auth.Protocol.Parser.{item}
use bio_auth.Protocol.Payload.{opening}
use bio_auth.Protocol.Payload.Laws.{opening-Reads, opening-takes}
use bio_auth.Protocol.Luks.{UnlockResponse, validate_unlock_response, encode_unlock_response}
use bio_auth.Protocol.Luks.Decode.{read_unlock_response}

-- What the types of the source say of it.
pub record IsTypedUnlockResponse (m : UnlockResponse) : Type 0 where
  pub disk_key_typed : IsVec m.disk_key

unlock_response_items : UnlockResponse → List ℕ
unlock_response_items m = (array_item 2 ++ (uint_item 1 ++ [])) ++ (bytes_item m.disk_key ++ [])

encode_unlock_response-items :
    (m : UnlockResponse) → encode_unlock_response m ≡ unlock_response_items m
unfolding encode_unlock_response unlock_response_items
encode_unlock_response-items m =
    simp (encode_unlock_response, unlock_response_items, writes, append_assoc, append-nil)

pub unlock_response-Reads :
    (m : UnlockResponse)
    → IsTypedUnlockResponse m
    → validate_unlock_response m ≡ ok tt
    → Reads read_unlock_response (encode_unlock_response m) m
unfolding read_unlock_response unlock_response_items
unlock_response-Reads m t e = rw (encode_unlock_response-items m) (
    Reads-bind _ _ _ _ tt m (opening-Reads 1 2 (omega arith) (omega arith))
      (Reads-bind _ _ _ _ m.disk_key m (bytes_field _ t.disk_key_typed) (Reads-pure m)))

pub unlock_response-takes :
    Takes read_unlock_response
      (λ used m. (used ≡ encode_unlock_response m) × IsTypedUnlockResponse m)
unfolding read_unlock_response
unlock_response-takes = Takes-bind (opening 1 2) _ _ _ (opening-takes 1 2) λ u0 _ _ e0.
    Takes-bind (item Reader.bytes) _ _ _ bytes-takes λ u1 disk_key _ (e1, w1). Takes-ok _ _ (
      rw (e0, e1) (sym (unfold unlock_response_items in encode_unlock_response-items _)),
      record { disk_key_typed = w1 },
    )
