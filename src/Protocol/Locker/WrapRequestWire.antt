-- ===== src/Protocol/Locker/WrapRequestWire.antt =====
-- `WrapRequest` of phone-auth-protocol/src/locker.rs, written and read.
use bio_auth.Common.{ℕ, ◌≡◌, sym, ◌++◌, [], List, arith, append_assoc, append-nil, ok}
use bio_auth.Cbor.Items.{array_item, uint_item, text_item, bytes_item, writes}
use bio_auth.Cbor.Reader
use bio_auth.Cbor.Position.{Reads, Takes, Takes-bind, Takes-ok}
use bio_auth.Protocol.Codec.{Reads-bind, Reads-pure}
use bio_auth.Protocol.Items.{
  IsText, IsVec, IsArray, IsU64, text_field, bytes_field, uint_field, fixed_bytes-Reads, text-takes,
  bytes-takes, uint-takes, fixed_bytes-takes,
}
use bio_auth.Protocol.Parser.{item, fixed_bytes}
use bio_auth.Protocol.Payload.{opening}
use bio_auth.Protocol.Payload.Laws.{opening-Reads, opening-takes}
use bio_auth.Protocol.Locker.{WrapRequest, validate_wrap_request, encode_wrap_request}
use bio_auth.Protocol.Locker.Decode.{read_wrap_request}

-- What the types of the source say of it.
pub record IsTypedWrapRequest (m : WrapRequest) : Type 0 where
  pub verifier_name_typed : IsText m.verifier_name
  pub file_name_typed : IsText m.file_name
  pub plaintext_len_typed : IsU64 m.plaintext_len
  pub container_binding_typed : IsArray 32 m.container_binding
  pub data_key_typed : IsVec m.data_key

wrap_request_items : WrapRequest → List ℕ
wrap_request_items m =
    (array_item 6 ++ (uint_item 1 ++ []))
    ++ (text_item m.verifier_name
        ++ (text_item m.file_name
            ++ (uint_item m.plaintext_len
                ++ (bytes_item m.container_binding ++ (bytes_item m.data_key ++ [])))))

encode_wrap_request-items : (m : WrapRequest) → encode_wrap_request m ≡ wrap_request_items m
unfolding encode_wrap_request wrap_request_items
encode_wrap_request-items m =
    simp (encode_wrap_request, wrap_request_items, writes, append_assoc, append-nil)

pub wrap_request-Reads :
    (m : WrapRequest)
    → IsTypedWrapRequest m
    → validate_wrap_request m ≡ ok tt
    → Reads read_wrap_request (encode_wrap_request m) m
unfolding read_wrap_request wrap_request_items
wrap_request-Reads m t e = rw (encode_wrap_request-items m) (
    Reads-bind _ _ _ _ tt m (opening-Reads 1 6 (omega arith) (omega arith)) (
      Reads-bind _ _ _ _ m.verifier_name m (text_field _ t.verifier_name_typed) (
        Reads-bind _ _ _ _ m.file_name m (text_field _ t.file_name_typed) (
          Reads-bind _ _ _ _ m.plaintext_len m (uint_field _ t.plaintext_len_typed) (
            Reads-bind _ _ _ _ m.container_binding m
              (fixed_bytes-Reads "containerBinding" 32 _ (omega arith) t.container_binding_typed)
              (Reads-bind _ _ _ _ m.data_key m (bytes_field _ t.data_key_typed) (Reads-pure m)))))))

pub wrap_request-takes :
    Takes read_wrap_request (λ used m. (used ≡ encode_wrap_request m) × IsTypedWrapRequest m)
unfolding read_wrap_request
wrap_request-takes = Takes-bind (opening 1 6) _ _ _ (opening-takes 1 6) λ u0 _ _ e0.
    Takes-bind (item Reader.text) _ _ _ text-takes λ u1 verifier_name _ (e1, w1).
      Takes-bind (item Reader.text) _ _ _ text-takes λ u2 file_name _ (e2, w2).
        Takes-bind (item Reader.uint) _ _ _ uint-takes λ u3 plaintext_len _ (e3, w3).
          Takes-bind (fixed_bytes "containerBinding" 32) _ _ _
            (fixed_bytes-takes "containerBinding" 32)
            λ u4 container_binding _ (e4, w4).
              Takes-bind (item Reader.bytes) _ _ _ bytes-takes λ u5 data_key _ (e5, w5).
                Takes-ok _ _ (
                  rw (e0, e1, e2, e3, e4, e5)
                      (sym (unfold wrap_request_items in encode_wrap_request-items _)),
                  record {
                    verifier_name_typed = w1;
                    file_name_typed = w2;
                    plaintext_len_typed = w3;
                    container_binding_typed = w4;
                    data_key_typed = w5;
                  },
                )
