-- ===== src/Protocol/Vault/UpdateRequestWire.antt =====
-- `UpdateRequest` of phone-auth-protocol/src/vault.rs, written and read.
use bio_auth.Common.{ℕ, ◌≡◌, sym, ◌++◌, [], List, arith, append_assoc, append-nil, ok}
use bio_auth.Cbor.Items.{array_item, uint_item, text_item, writes}
use bio_auth.Cbor.Reader
use bio_auth.Cbor.Position.{Reads, Takes, Takes-bind, Takes-ok}
use bio_auth.Protocol.Codec.{Reads-bind, Reads-pure}
use bio_auth.Protocol.Items.{IsText, IsU64, text_field, uint_field, text-takes, uint-takes}
use bio_auth.Protocol.Parser.{item, coded}
use bio_auth.Protocol.Payload.{opening}
use bio_auth.Protocol.Payload.Laws.{opening-Reads, opening-takes}
use bio_auth.Protocol.Vault.{
  UpdateRequest, validate_update_request, encode_update_request, kind_wire, kind_from_wire,
}
use bio_auth.Protocol.Vault.Decode.{read_update_request}
use bio_auth.Protocol.Vault.Kind.{kind-Reads, kind-takes}

-- What the types of the source say of it.
pub record IsTypedUpdateRequest (m : UpdateRequest) : Type 0 where
  pub verifier_name_typed : IsText m.verifier_name
  pub item_id_typed : IsText m.item_id
  pub expected_revision_typed : IsU64 m.expected_revision
  pub name_typed : IsText m.name
  pub username_typed : IsText m.username
  pub uri_typed : IsText m.uri
  pub secret_typed : IsText m.secret

update_request_items : UpdateRequest → List ℕ
update_request_items m =
    (array_item 9 ++ (uint_item 1 ++ []))
    ++ (text_item m.verifier_name
        ++ (text_item m.item_id
            ++ (uint_item m.expected_revision
                ++ (uint_item (kind_wire m.kind)
                    ++ (text_item m.name
                        ++ (text_item m.username
                            ++ (text_item m.uri ++ (text_item m.secret ++ []))))))))

encode_update_request-items : (m : UpdateRequest) → encode_update_request m ≡ update_request_items m
unfolding encode_update_request update_request_items
encode_update_request-items m =
    simp (encode_update_request, update_request_items, writes, append_assoc, append-nil)

pub update_request-Reads :
    (m : UpdateRequest)
    → IsTypedUpdateRequest m
    → validate_update_request m ≡ ok tt
    → Reads read_update_request (encode_update_request m) m
unfolding read_update_request update_request_items
update_request-Reads m t e = rw (encode_update_request-items m) (
    Reads-bind _ _ _ _ tt m (opening-Reads 1 9 (omega arith) (omega arith)) (
      Reads-bind _ _ _ _ m.verifier_name m (text_field _ t.verifier_name_typed) (
        Reads-bind _ _ _ _ m.item_id m (text_field _ t.item_id_typed) (
          Reads-bind _ _ _ _ m.expected_revision m (uint_field _ t.expected_revision_typed) (
            Reads-bind _ _ _ _ m.kind m (kind-Reads m.kind) (
              Reads-bind _ _ _ _ m.name m (text_field _ t.name_typed) (
                Reads-bind _ _ _ _ m.username m (text_field _ t.username_typed) (
                  Reads-bind _ _ _ _ m.uri m (text_field _ t.uri_typed) (
                    Reads-bind _ _ _ _ m.secret m (text_field _ t.secret_typed)
                      (Reads-pure m))))))))))

pub update_request-takes :
    Takes read_update_request (λ used m. (used ≡ encode_update_request m) × IsTypedUpdateRequest m)
unfolding read_update_request
update_request-takes = Takes-bind (opening 1 9) _ _ _ (opening-takes 1 9) λ u0 _ _ e0.
    Takes-bind (item Reader.text) _ _ _ text-takes λ u1 verifier_name _ (e1, w1).
      Takes-bind (item Reader.text) _ _ _ text-takes λ u2 item_id _ (e2, w2).
        Takes-bind (item Reader.uint) _ _ _ uint-takes λ u3 expected_revision _ (e3, w3).
          Takes-bind (coded Reader.uint kind_from_wire) _ _ _ kind-takes λ u4 kind _ e4.
            Takes-bind (item Reader.text) _ _ _ text-takes λ u5 name _ (e5, w5).
              Takes-bind (item Reader.text) _ _ _ text-takes λ u6 username _ (e6, w6).
                Takes-bind (item Reader.text) _ _ _ text-takes λ u7 uri _ (e7, w7).
                  Takes-bind (item Reader.text) _ _ _ text-takes λ u8 secret _ (e8, w8).
                    Takes-ok _ _ (
                      rw (e0, e1, e2, e3, e4, e5, e6, e7, e8)
                          (sym (unfold update_request_items in encode_update_request-items _)),
                      record {
                        verifier_name_typed = w1;
                        item_id_typed = w2;
                        expected_revision_typed = w3;
                        name_typed = w5;
                        username_typed = w6;
                        uri_typed = w7;
                        secret_typed = w8;
                      },
                    )
