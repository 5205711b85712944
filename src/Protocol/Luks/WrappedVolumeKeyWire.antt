-- ===== src/Protocol/Luks/WrappedVolumeKeyWire.antt =====
-- `WrappedVolumeKey` of phone-auth-protocol/src/luks.rs, written and read.
use bio_auth.Common.{ℕ, ◌≡◌, sym, ◌++◌, [], List, arith, append_assoc, append-nil, ok}
use bio_auth.Cbor.Items.{array_item, uint_item, text_item, bytes_item, writes}
use bio_auth.Cbor.Reader
use bio_auth.Cbor.Position.{Reads, Takes, Takes-bind, Takes-ok}
use bio_auth.Protocol.Codec.{Reads-bind, Reads-pure}
use bio_auth.Protocol.Items.{
  IsText, IsVec, IsArray, text_field, bytes_field, fixed_bytes-Reads, text-takes, bytes-takes,
  fixed_bytes-takes,
}
use bio_auth.Protocol.Parser.{item, fixed_bytes}
use bio_auth.Protocol.Payload.{opening}
use bio_auth.Protocol.Payload.Laws.{opening-Reads, opening-takes}
use bio_auth.Protocol.Luks.{WrappedVolumeKey, validate_wrapped_key, encode_wrapped_key}
use bio_auth.Protocol.Luks.Decode.{read_wrapped_key}

-- What the types of the source say of it.
pub record IsTypedWrappedVolumeKey (m : WrappedVolumeKey) : Type 0 where
  pub volume_binding_typed : IsArray 32 m.volume_binding
  pub credential_id_typed : IsText m.credential_id
  pub wrapper_typed : IsVec m.wrapper

wrapped_key_items : WrappedVolumeKey → List ℕ
wrapped_key_items m =
    (array_item 4 ++ (uint_item 1 ++ []))
    ++ (bytes_item m.volume_binding ++ (text_item m.credential_id ++ (bytes_item m.wrapper ++ [])))

encode_wrapped_key-items : (m : WrappedVolumeKey) → encode_wrapped_key m ≡ wrapped_key_items m
unfolding encode_wrapped_key wrapped_key_items
encode_wrapped_key-items m =
    simp (encode_wrapped_key, wrapped_key_items, writes, append_assoc, append-nil)

pub wrapped_key-Reads :
    (m : WrappedVolumeKey)
    → IsTypedWrappedVolumeKey m
    → validate_wrapped_key m ≡ ok tt
    → Reads read_wrapped_key (encode_wrapped_key m) m
unfolding read_wrapped_key wrapped_key_items
wrapped_key-Reads m t e = rw (encode_wrapped_key-items m) (
    Reads-bind _ _ _ _ tt m (opening-Reads 1 4 (omega arith) (omega arith)) (
      Reads-bind _ _ _ _ m.volume_binding m
        (fixed_bytes-Reads "volumeBinding" 32 _ (omega arith) t.volume_binding_typed)
        (Reads-bind _ _ _ _ m.credential_id m (text_field _ t.credential_id_typed)
          (Reads-bind _ _ _ _ m.wrapper m (bytes_field _ t.wrapper_typed) (Reads-pure m)))))

pub wrapped_key-takes :
    Takes read_wrapped_key (λ used m. (used ≡ encode_wrapped_key m) × IsTypedWrappedVolumeKey m)
unfolding read_wrapped_key
wrapped_key-takes = Takes-bind (opening 1 4) _ _ _ (opening-takes 1 4) λ u0 _ _ e0.
    Takes-bind (fixed_bytes "volumeBinding" 32) _ _ _ (fixed_bytes-takes "volumeBinding" 32)
      λ u1 volume_binding _ (e1, w1).
        Takes-bind (item Reader.text) _ _ _ text-takes λ u2 credential_id _ (e2, w2).
          Takes-bind (item Reader.bytes) _ _ _ bytes-takes λ u3 wrapper _ (e3, w3). Takes-ok _ _ (
            rw (e0, e1, e2, e3) (sym (unfold wrapped_key_items in encode_wrapped_key-items _)),
            record { volume_binding_typed = w1; credential_id_typed = w2; wrapper_typed = w3 },
          )
