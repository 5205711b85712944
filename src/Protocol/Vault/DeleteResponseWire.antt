-- ===== src/Protocol/Vault/DeleteResponseWire.antt =====
-- `DeleteResponse` of phone-auth-protocol/src/vault.rs, written and read.
use bio_auth.Common.{ℕ, ◌≡◌, sym, ◌++◌, [], List, arith, append_assoc, append-nil, ok}
use bio_auth.Cbor.Items.{array_item, uint_item, text_item, writes}
use bio_auth.Cbor.Reader
use bio_auth.Cbor.Position.{Reads, Takes, Takes-bind, Takes-ok}
use bio_auth.Protocol.Codec.{Reads-bind, Reads-pure}
use bio_auth.Protocol.Items.{IsText, text_field, text-takes}
use bio_auth.Protocol.Parser.{item}
use bio_auth.Protocol.Payload.{opening}
use bio_auth.Protocol.Payload.Laws.{opening-Reads, opening-takes}
use bio_auth.Protocol.Vault.{DeleteResponse, validate_delete_response, encode_delete_response}
use bio_auth.Protocol.Vault.Decode.{read_delete_response}

-- What the types of the source say of it.
pub record IsTypedDeleteResponse (m : DeleteResponse) : Type 0 where
  pub item_id_typed : IsText m.item_id

delete_response_items : DeleteResponse → List ℕ
delete_response_items m = (array_item 2 ++ (uint_item 1 ++ [])) ++ (text_item m.item_id ++ [])

encode_delete_response-items :
    (m : DeleteResponse) → encode_delete_response m ≡ delete_response_items m
unfolding encode_delete_response delete_response_items
encode_delete_response-items m =
    simp (encode_delete_response, delete_response_items, writes, append_assoc, append-nil)

pub delete_response-Reads :
    (m : DeleteResponse)
    → IsTypedDeleteResponse m
    → validate_delete_response m ≡ ok tt
    → Reads read_delete_response (encode_delete_response m) m
unfolding read_delete_response delete_response_items
delete_response-Reads m t e = rw (encode_delete_response-items m) (
    Reads-bind _ _ _ _ tt m (opening-Reads 1 2 (omega arith) (omega arith))
      (Reads-bind _ _ _ _ m.item_id m (text_field _ t.item_id_typed) (Reads-pure m)))

pub delete_response-takes :
    Takes read_delete_response
      (λ used m. (used ≡ encode_delete_response m) × IsTypedDeleteResponse m)
unfolding read_delete_response
delete_response-takes = Takes-bind (opening 1 2) _ _ _ (opening-takes 1 2) λ u0 _ _ e0.
    Takes-bind (item Reader.text) _ _ _ text-takes λ u1 item_id _ (e1, w1). Takes-ok _ _ (
      rw (e0, e1) (sym (unfold delete_response_items in encode_delete_response-items _)),
      record { item_id_typed = w1 },
    )
