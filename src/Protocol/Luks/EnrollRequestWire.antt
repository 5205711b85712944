-- ===== src/Protocol/Luks/EnrollRequestWire.antt =====
-- `EnrollRequest` of phone-auth-protocol/src/luks.rs, written and read.
use bio_auth.Common.{ℕ, ◌≡◌, sym, ◌++◌, [], List, arith, append_assoc, append-nil, ok}
use bio_auth.Cbor.Items.{array_item, uint_item, text_item, bytes_item, writes}
use bio_auth.Cbor.Reader
use bio_auth.Cbor.Position.{Reads, Takes, Takes-bind, Takes-ok}
use bio_auth.Protocol.Codec.{Reads-bind, Reads-pure}
use bio_auth.Protocol.Items.{
  IsText, IsVec, IsArray, text_field, bytes_field, fixed_bytes-Reads, text-takes, bytes-takes,
  fixed_bytes-takes,
}
use bio_auth.Protocol.Parser.{item, fixed_bytes}
use bio_auth.Protocol.Payload.{opening}
use bio_auth.Protocol.Payload.Laws.{opening-Reads, opening-takes}
use bio_auth.Protocol.Luks.{EnrollRequest, validate_enroll_request, encode_enroll_request}
use bio_auth.Protocol.Luks.Decode.{read_enroll_request}

-- What the types of the source say of it.
pub record IsTypedEnrollRequest (m : EnrollRequest) : Type 0 where
  pub verifier_name_typed : IsText m.verifier_name
  pub volume_name_typed : IsText m.volume_name
  pub volume_binding_typed : IsArray 32 m.volume_binding
  pub disk_key_typed : IsVec m.disk_key

enroll_request_items : EnrollRequest → List ℕ
enroll_request_items m =
    (array_item 5 ++ (uint_item 1 ++ []))
    ++ (text_item m.verifier_name
        ++ (text_item m.volume_name
            ++ (bytes_item m.volume_binding ++ (bytes_item m.disk_key ++ []))))

encode_enroll_request-items : (m : EnrollRequest) → encode_enroll_request m ≡ enroll_request_items m
unfolding encode_enroll_request enroll_request_items
encode_enroll_request-items m =
    simp (encode_enroll_request, enroll_request_items, writes, append_assoc, append-nil)

pub enroll_request-Reads :
    (m : EnrollRequest)
    → IsTypedEnrollRequest m
    → validate_enroll_request m ≡ ok tt
    → Reads read_enroll_request (encode_enroll_request m) m
unfolding read_enroll_request enroll_request_items
enroll_request-Reads m t e = rw (encode_enroll_request-items m) (
    Reads-bind _ _ _ _ tt m (opening-Reads 1 5 (omega arith) (omega arith)) (
      Reads-bind _ _ _ _ m.verifier_name m (text_field _ t.verifier_name_typed) (
        Reads-bind _ _ _ _ m.volume_name m (text_field _ t.volume_name_typed) (
          Reads-bind _ _ _ _ m.volume_binding m
            (fixed_bytes-Reads "volumeBinding" 32 _ (omega arith) t.volume_binding_typed)
            (Reads-bind _ _ _ _ m.disk_key m (bytes_field _ t.disk_key_typed) (Reads-pure m))))))

pub enroll_request-takes :
    Takes read_enroll_request (λ used m. (used ≡ encode_enroll_request m) × IsTypedEnrollRequest m)
unfolding read_enroll_request
enroll_request-takes = Takes-bind (opening 1 5) _ _ _ (opening-takes 1 5) λ u0 _ _ e0.
    Takes-bind (item Reader.text) _ _ _ text-takes λ u1 verifier_name _ (e1, w1).
      Takes-bind (item Reader.text) _ _ _ text-takes λ u2 volume_name _ (e2, w2).
        Takes-bind (fixed_bytes "volumeBinding" 32) _ _ _ (fixed_bytes-takes "volumeBinding" 32)
          λ u3 volume_binding _ (e3, w3).
            Takes-bind (item Reader.bytes) _ _ _ bytes-takes λ u4 disk_key _ (e4, w4).
              Takes-ok _ _ (
                rw (e0, e1, e2, e3, e4)
                    (sym (unfold enroll_request_items in encode_enroll_request-items _)),
                record {
                  verifier_name_typed = w1;
                  volume_name_typed = w2;
                  volume_binding_typed = w3;
                  disk_key_typed = w4;
                },
              )
