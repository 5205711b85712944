-- ===== src/Protocol/Vault/FetchResponseWire.antt =====
-- `FetchResponse` of phone-auth-protocol/src/vault.rs, written and read.
use bio_auth.Common.{ℕ, ◌≡◌, sym, ◌++◌, [], List, arith, append_assoc, append-nil, ok}
use bio_auth.Cbor.Items.{array_item, uint_item, text_item, writes}
use bio_auth.Cbor.Reader
use bio_auth.Cbor.Position.{Reads, Takes, Takes-bind, Takes-ok}
use bio_auth.Protocol.Codec.{Reads-bind, Reads-pure}
use bio_auth.Protocol.Items.{IsText, IsU64, text_field, uint_field, text-takes, uint-takes}
use bio_auth.Protocol.Parser.{item}
use bio_auth.Protocol.Payload.{opening}
use bio_auth.Protocol.Payload.Laws.{opening-Reads, opening-takes}
use bio_auth.Protocol.Vault.{FetchResponse, validate_fetch_response, encode_fetch_response}
use bio_auth.Protocol.Vault.Decode.{read_fetch_response}

-- What the types of the source say of it.
pub record IsTypedFetchResponse (m : FetchResponse) : Type 0 where
  pub item_id_typed : IsText m.item_id
  pub revision_typed : IsU64 m.revision
  pub secret_typed : IsText m.secret

fetch_response_items : FetchResponse → List ℕ
fetch_response_items m =
    (array_item 4 ++ (uint_item 1 ++ []))
    ++ (text_item m.item_id ++ (uint_item m.revision ++ (text_item m.secret ++ [])))

encode_fetch_response-items : (m : FetchResponse) → encode_fetch_response m ≡ fetch_response_items m
unfolding encode_fetch_response fetch_response_items
encode_fetch_response-items m =
    simp (encode_fetch_response, fetch_response_items, writes, append_assoc, append-nil)

pub fetch_response-Reads :
    (m : FetchResponse)
    → IsTypedFetchResponse m
    → validate_fetch_response m ≡ ok tt
    → Reads read_fetch_response (encode_fetch_response m) m
unfolding read_fetch_response fetch_response_items
fetch_response-Reads m t e = rw (encode_fetch_response-items m) (
    Reads-bind _ _ _ _ tt m (opening-Reads 1 4 (omega arith) (omega arith)) (
      Reads-bind _ _ _ _ m.item_id m (text_field _ t.item_id_typed) (
        Reads-bind _ _ _ _ m.revision m (uint_field _ t.revision_typed)
          (Reads-bind _ _ _ _ m.secret m (text_field _ t.secret_typed) (Reads-pure m)))))

pub fetch_response-takes :
    Takes read_fetch_response (λ used m. (used ≡ encode_fetch_response m) × IsTypedFetchResponse m)
unfolding read_fetch_response
fetch_response-takes = Takes-bind (opening 1 4) _ _ _ (opening-takes 1 4) λ u0 _ _ e0.
    Takes-bind (item Reader.text) _ _ _ text-takes λ u1 item_id _ (e1, w1).
      Takes-bind (item Reader.uint) _ _ _ uint-takes λ u2 revision _ (e2, w2).
        Takes-bind (item Reader.text) _ _ _ text-takes λ u3 secret _ (e3, w3). Takes-ok _ _ (
          rw (e0, e1, e2, e3) (sym (unfold fetch_response_items in encode_fetch_response-items _)),
          record { item_id_typed = w1; revision_typed = w2; secret_typed = w3 },
        )
