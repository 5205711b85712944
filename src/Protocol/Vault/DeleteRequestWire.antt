-- ===== src/Protocol/Vault/DeleteRequestWire.antt =====
-- `DeleteRequest` of phone-auth-protocol/src/vault.rs, written and read.
use bio_auth.Common.{ℕ, ◌≡◌, sym, ◌++◌, [], List, arith, append_assoc, append-nil, ok}
use bio_auth.Cbor.Items.{array_item, uint_item, text_item, writes}
use bio_auth.Cbor.Reader
use bio_auth.Cbor.Position.{Reads, Takes, Takes-bind, Takes-ok}
use bio_auth.Protocol.Codec.{Reads-bind, Reads-pure}
use bio_auth.Protocol.Items.{IsText, IsU64, text_field, uint_field, text-takes, uint-takes}
use bio_auth.Protocol.Parser.{item}
use bio_auth.Protocol.Payload.{opening}
use bio_auth.Protocol.Payload.Laws.{opening-Reads, opening-takes}
use bio_auth.Protocol.Vault.{DeleteRequest, validate_delete_request, encode_delete_request}
use bio_auth.Protocol.Vault.Decode.{read_delete_request}

-- What the types of the source say of it.
pub record IsTypedDeleteRequest (m : DeleteRequest) : Type 0 where
  pub verifier_name_typed : IsText m.verifier_name
  pub item_id_typed : IsText m.item_id
  pub expected_revision_typed : IsU64 m.expected_revision

delete_request_items : DeleteRequest → List ℕ
delete_request_items m =
    (array_item 4 ++ (uint_item 1 ++ []))
    ++ (text_item m.verifier_name ++ (text_item m.item_id ++ (uint_item m.expected_revision ++ [])))

encode_delete_request-items : (m : DeleteRequest) → encode_delete_request m ≡ delete_request_items m
unfolding encode_delete_request delete_request_items
encode_delete_request-items m =
    simp (encode_delete_request, delete_request_items, writes, append_assoc, append-nil)

pub delete_request-Reads :
    (m : DeleteRequest)
    → IsTypedDeleteRequest m
    → validate_delete_request m ≡ ok tt
    → Reads read_delete_request (encode_delete_request m) m
unfolding read_delete_request delete_request_items
delete_request-Reads m t e = rw (encode_delete_request-items m) (
    Reads-bind _ _ _ _ tt m (opening-Reads 1 4 (omega arith) (omega arith)) (
      Reads-bind _ _ _ _ m.verifier_name m (text_field _ t.verifier_name_typed) (
        Reads-bind _ _ _ _ m.item_id m (text_field _ t.item_id_typed) (
          Reads-bind _ _ _ _ m.expected_revision m (uint_field _ t.expected_revision_typed)
            (Reads-pure m)))))

pub delete_request-takes :
    Takes read_delete_request (λ used m. (used ≡ encode_delete_request m) × IsTypedDeleteRequest m)
unfolding read_delete_request
delete_request-takes = Takes-bind (opening 1 4) _ _ _ (opening-takes 1 4) λ u0 _ _ e0.
    Takes-bind (item Reader.text) _ _ _ text-takes λ u1 verifier_name _ (e1, w1).
      Takes-bind (item Reader.text) _ _ _ text-takes λ u2 item_id _ (e2, w2).
        Takes-bind (item Reader.uint) _ _ _ uint-takes λ u3 expected_revision _ (e3, w3).
          Takes-ok _ _ (
            rw (e0, e1, e2, e3)
                (sym (unfold delete_request_items in encode_delete_request-items _)),
            record { verifier_name_typed = w1; item_id_typed = w2; expected_revision_typed = w3 },
          )
