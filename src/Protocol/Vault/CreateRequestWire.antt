-- ===== src/Protocol/Vault/CreateRequestWire.antt =====
-- `CreateRequest` of phone-auth-protocol/src/vault.rs, written and read.
use bio_auth.Common.{ℕ, ◌≡◌, sym, ◌++◌, [], List, arith, append_assoc, append-nil, ok}
use bio_auth.Cbor.Items.{array_item, uint_item, text_item, writes}
use bio_auth.Cbor.Reader
use bio_auth.Cbor.Position.{Reads, Takes, Takes-bind, Takes-ok}
use bio_auth.Protocol.Codec.{Reads-bind, Reads-pure}
use bio_auth.Protocol.Items.{IsText, text_field, text-takes}
use bio_auth.Protocol.Parser.{item, coded}
use bio_auth.Protocol.Payload.{opening}
use bio_auth.Protocol.Payload.Laws.{opening-Reads, opening-takes}
use bio_auth.Protocol.Vault.{
  CreateRequest, validate_create_request, encode_create_request, kind_wire, kind_from_wire,
}
use bio_auth.Protocol.Vault.Decode.{read_create_request}
use bio_auth.Protocol.Vault.Kind.{kind-Reads, kind-takes}

-- What the types of the source say of it.
pub record IsTypedCreateRequest (m : CreateRequest) : Type 0 where
  pub verifier_name_typed : IsText m.verifier_name
  pub name_typed : IsText m.name
  pub username_typed : IsText m.username
  pub uri_typed : IsText m.uri
  pub secret_typed : IsText m.secret

create_request_items : CreateRequest → List ℕ
create_request_items m =
    (array_item 7 ++ (uint_item 1 ++ []))
    ++ (text_item m.verifier_name
        ++ (uint_item (kind_wire m.kind)
            ++ (text_item m.name
                ++ (text_item m.username ++ (text_item m.uri ++ (text_item m.secret ++ []))))))

encode_create_request-items : (m : CreateRequest) → encode_create_request m ≡ create_request_items m
unfolding encode_create_request create_request_items
encode_create_request-items m =
    simp (encode_create_request, create_request_items, writes, append_assoc, append-nil)

pub create_request-Reads :
    (m : CreateRequest)
    → IsTypedCreateRequest m
    → validate_create_request m ≡ ok tt
    → Reads read_create_request (encode_create_request m) m
unfolding read_create_request create_request_items
create_request-Reads m t e = rw (encode_create_request-items m) (
    Reads-bind _ _ _ _ tt m (opening-Reads 1 7 (omega arith) (omega arith)) (
      Reads-bind _ _ _ _ m.verifier_name m (text_field _ t.verifier_name_typed) (
        Reads-bind _ _ _ _ m.kind m (kind-Reads m.kind) (
          Reads-bind _ _ _ _ m.name m (text_field _ t.name_typed) (
            Reads-bind _ _ _ _ m.username m (text_field _ t.username_typed) (
              Reads-bind _ _ _ _ m.uri m (text_field _ t.uri_typed)
                (Reads-bind _ _ _ _ m.secret m (text_field _ t.secret_typed) (Reads-pure m))))))))

pub create_request-takes :
    Takes read_create_request (λ used m. (used ≡ encode_create_request m) × IsTypedCreateRequest m)
unfolding read_create_request
create_request-takes = Takes-bind (opening 1 7) _ _ _ (opening-takes 1 7) λ u0 _ _ e0.
    Takes-bind (item Reader.text) _ _ _ text-takes λ u1 verifier_name _ (e1, w1).
      Takes-bind (coded Reader.uint kind_from_wire) _ _ _ kind-takes λ u2 kind _ e2.
        Takes-bind (item Reader.text) _ _ _ text-takes λ u3 name _ (e3, w3).
          Takes-bind (item Reader.text) _ _ _ text-takes λ u4 username _ (e4, w4).
            Takes-bind (item Reader.text) _ _ _ text-takes λ u5 uri _ (e5, w5).
              Takes-bind (item Reader.text) _ _ _ text-takes λ u6 secret _ (e6, w6). Takes-ok _ _ (
                rw (e0, e1, e2, e3, e4, e5, e6)
                    (sym (unfold create_request_items in encode_create_request-items _)),
                record {
                  verifier_name_typed = w1;
                  name_typed = w3;
                  username_typed = w4;
                  uri_typed = w5;
                  secret_typed = w6;
                },
              )
