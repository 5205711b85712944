-- ===== src/Protocol/Vault/WriteResponseWire.antt =====
-- `WriteResponse` of phone-auth-protocol/src/vault.rs, written and read.
use bio_auth.Common.{ℕ, ◌≡◌, sym, ◌++◌, [], List, arith, append_assoc, append-nil, ok}
use bio_auth.Cbor.Items.{array_item, uint_item, text_item, writes}
use bio_auth.Cbor.Reader
use bio_auth.Cbor.Position.{Reads, Takes, Takes-bind, Takes-ok}
use bio_auth.Protocol.Codec.{Reads-bind, Reads-pure}
use bio_auth.Protocol.Items.{IsText, IsU64, text_field, uint_field, text-takes, uint-takes}
use bio_auth.Protocol.Parser.{item}
use bio_auth.Protocol.Payload.{opening}
use bio_auth.Protocol.Payload.Laws.{opening-Reads, opening-takes}
use bio_auth.Protocol.Vault.{WriteResponse, validate_write_response, encode_write_response}
use bio_auth.Protocol.Vault.Decode.{read_write_response}

-- What the types of the source say of it.
pub record IsTypedWriteResponse (m : WriteResponse) : Type 0 where
  pub item_id_typed : IsText m.item_id
  pub revision_typed : IsU64 m.revision

write_response_items : WriteResponse → List ℕ
write_response_items m =
    (array_item 3 ++ (uint_item 1 ++ [])) ++ (text_item m.item_id ++ (uint_item m.revision ++ []))

encode_write_response-items : (m : WriteResponse) → encode_write_response m ≡ write_response_items m
unfolding encode_write_response write_response_items
encode_write_response-items m =
    simp (encode_write_response, write_response_items, writes, append_assoc, append-nil)

pub write_response-Reads :
    (m : WriteResponse)
    → IsTypedWriteResponse m
    → validate_write_response m ≡ ok tt
    → Reads read_write_response (encode_write_response m) m
unfolding read_write_response write_response_items
write_response-Reads m t e = rw (encode_write_response-items m) (
    Reads-bind _ _ _ _ tt m (opening-Reads 1 3 (omega arith) (omega arith)) (
      Reads-bind _ _ _ _ m.item_id m (text_field _ t.item_id_typed)
        (Reads-bind _ _ _ _ m.revision m (uint_field _ t.revision_typed) (Reads-pure m))))

pub write_response-takes :
    Takes read_write_response (λ used m. (used ≡ encode_write_response m) × IsTypedWriteResponse m)
unfolding read_write_response
write_response-takes = Takes-bind (opening 1 3) _ _ _ (opening-takes 1 3) λ u0 _ _ e0.
    Takes-bind (item Reader.text) _ _ _ text-takes λ u1 item_id _ (e1, w1).
      Takes-bind (item Reader.uint) _ _ _ uint-takes λ u2 revision _ (e2, w2). Takes-ok _ _ (
        rw (e0, e1, e2) (sym (unfold write_response_items in encode_write_response-items _)),
        record { item_id_typed = w1; revision_typed = w2 },
      )
