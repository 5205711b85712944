-- ===== src/Protocol/Luks/UnlockRequestWire.antt =====
-- `UnlockRequest` of phone-auth-protocol/src/luks.rs, written and read.
use bio_auth.Common.{ℕ, ◌≡◌, sym, ◌++◌, [], List, arith, append_assoc, append-nil, ok}
use bio_auth.Cbor.Items.{array_item, uint_item, text_item, bytes_item, writes}
use bio_auth.Cbor.Reader
use bio_auth.Cbor.Position.{Reads, Takes, Takes-bind, Takes-ok}
use bio_auth.Protocol.Codec.{Reads-bind, Reads-pure}
use bio_auth.Protocol.Items.{
  IsText, IsVec, IsArray, text_field, bytes_field, fixed_bytes-Reads, text-takes, bytes-takes,
  fixed_bytes-takes,
}
use bio_auth.Protocol.Parser.{item, fixed_bytes}
use bio_auth.Protocol.Payload.{opening}
use bio_auth.Protocol.Payload.Laws.{opening-Reads, opening-takes}
use bio_auth.Protocol.Luks.{UnlockRequest, validate_unlock_request, encode_unlock_request}
use bio_auth.Protocol.Luks.Decode.{read_unlock_request}

-- What the types of the source say of it.
pub record IsTypedUnlockRequest (m : UnlockRequest) : Type 0 where
  pub verifier_name_typed : IsText m.verifier_name
  pub volume_name_typed : IsText m.volume_name
  pub volume_binding_typed : IsArray 32 m.volume_binding
  pub credential_id_typed : IsText m.credential_id
  pub wrapper_typed : IsVec m.wrapper

unlock_request_items : UnlockRequest → List ℕ
unlock_request_items m =
    (array_item 6 ++ (uint_item 1 ++ []))
    ++ (text_item m.verifier_name
        ++ (text_item m.volume_name
            ++ (bytes_item m.volume_binding
                ++ (text_item m.credential_id ++ (bytes_item m.wrapper ++ [])))))

encode_unlock_request-items : (m : UnlockRequest) → encode_unlock_request m ≡ unlock_request_items m
unfolding encode_unlock_request unlock_request_items
encode_unlock_request-items m =
    simp (encode_unlock_request, unlock_request_items, writes, append_assoc, append-nil)

pub unlock_request-Reads :
    (m : UnlockRequest)
    → IsTypedUnlockRequest m
    → validate_unlock_request m ≡ ok tt
    → Reads read_unlock_request (encode_unlock_request m) m
unfolding read_unlock_request unlock_request_items
unlock_request-Reads m t e = rw (encode_unlock_request-items m) (
    Reads-bind _ _ _ _ tt m (opening-Reads 1 6 (omega arith) (omega arith)) (
      Reads-bind _ _ _ _ m.verifier_name m (text_field _ t.verifier_name_typed) (
        Reads-bind _ _ _ _ m.volume_name m (text_field _ t.volume_name_typed) (
          Reads-bind _ _ _ _ m.volume_binding m
            (fixed_bytes-Reads "volumeBinding" 32 _ (omega arith) t.volume_binding_typed)
            (Reads-bind _ _ _ _ m.credential_id m (text_field _ t.credential_id_typed)
              (Reads-bind _ _ _ _ m.wrapper m (bytes_field _ t.wrapper_typed) (Reads-pure m)))))))

pub unlock_request-takes :
    Takes read_unlock_request (λ used m. (used ≡ encode_unlock_request m) × IsTypedUnlockRequest m)
unfolding read_unlock_request
unlock_request-takes = Takes-bind (opening 1 6) _ _ _ (opening-takes 1 6) λ u0 _ _ e0.
    Takes-bind (item Reader.text) _ _ _ text-takes λ u1 verifier_name _ (e1, w1).
      Takes-bind (item Reader.text) _ _ _ text-takes λ u2 volume_name _ (e2, w2).
        Takes-bind (fixed_bytes "volumeBinding" 32) _ _ _ (fixed_bytes-takes "volumeBinding" 32)
          λ u3 volume_binding _ (e3, w3).
            Takes-bind (item Reader.text) _ _ _ text-takes λ u4 credential_id _ (e4, w4).
              Takes-bind (item Reader.bytes) _ _ _ bytes-takes λ u5 wrapper _ (e5, w5).
                Takes-ok _ _ (
                  rw (e0, e1, e2, e3, e4, e5)
                      (sym (unfold unlock_request_items in encode_unlock_request-items _)),
                  record {
                    verifier_name_typed = w1;
                    volume_name_typed = w2;
                    volume_binding_typed = w3;
                    credential_id_typed = w4;
                    wrapper_typed = w5;
                  },
                )
