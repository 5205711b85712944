-- ===== src/Protocol/Vault/ListRequestWire.antt =====
-- `ListRequest` of phone-auth-protocol/src/vault.rs, written and read.
use bio_auth.Common.{ℕ, ◌≡◌, sym, ◌++◌, [], List, arith, append_assoc, append-nil, ok}
use bio_auth.Cbor.Items.{array_item, uint_item, text_item, writes}
use bio_auth.Cbor.Reader
use bio_auth.Cbor.Position.{Reads, Takes, Takes-bind, Takes-ok}
use bio_auth.Protocol.Codec.{Reads-bind, Reads-pure}
use bio_auth.Protocol.Items.{IsText, text_field, text-takes}
use bio_auth.Protocol.Parser.{item}
use bio_auth.Protocol.Payload.{opening}
use bio_auth.Protocol.Payload.Laws.{opening-Reads, opening-takes}
use bio_auth.Protocol.Vault.{ListRequest, validate_list_request, encode_list_request}
use bio_auth.Protocol.Vault.Decode.{read_list_request}

-- What the types of the source say of it.
pub record IsTypedListRequest (m : ListRequest) : Type 0 where
  pub verifier_name_typed : IsText m.verifier_name
  pub cursor_typed : IsText m.cursor

list_request_items : ListRequest → List ℕ
list_request_items m =
    (array_item 3 ++ (uint_item 1 ++ []))
    ++ (text_item m.verifier_name ++ (text_item m.cursor ++ []))

encode_list_request-items : (m : ListRequest) → encode_list_request m ≡ list_request_items m
unfolding encode_list_request list_request_items
encode_list_request-items m =
    simp (encode_list_request, list_request_items, writes, append_assoc, append-nil)

pub list_request-Reads :
    (m : ListRequest)
    → IsTypedListRequest m
    → validate_list_request m ≡ ok tt
    → Reads read_list_request (encode_list_request m) m
unfolding read_list_request list_request_items
list_request-Reads m t e = rw (encode_list_request-items m) (
    Reads-bind _ _ _ _ tt m (opening-Reads 1 3 (omega arith) (omega arith)) (
      Reads-bind _ _ _ _ m.verifier_name m (text_field _ t.verifier_name_typed)
        (Reads-bind _ _ _ _ m.cursor m (text_field _ t.cursor_typed) (Reads-pure m))))

pub list_request-takes :
    Takes read_list_request (λ used m. (used ≡ encode_list_request m) × IsTypedListRequest m)
unfolding read_list_request
list_request-takes = Takes-bind (opening 1 3) _ _ _ (opening-takes 1 3) λ u0 _ _ e0.
    Takes-bind (item Reader.text) _ _ _ text-takes λ u1 verifier_name _ (e1, w1).
      Takes-bind (item Reader.text) _ _ _ text-takes λ u2 cursor _ (e2, w2). Takes-ok _ _ (
        rw (e0, e1, e2) (sym (unfold list_request_items in encode_list_request-items _)),
        record { verifier_name_typed = w1; cursor_typed = w2 },
      )
