-- ===== src/Protocol/Enrolment/Laws.antt =====
-- `encode` and `decode` of the enrolment of phone-auth-protocol/src/enrolment.rs.
use bio_auth.Common.{
  ℕ, zero, suc, ◌<◌, ◌≡◌, ◌↔◌, refl, sym, subst, ◌++◌, [], List, arith, append_assoc, append-nil,
  ok,
}
use bio_auth.Common.Bytes.{AreBytes}
use bio_auth.Common.Int.{ℤ, pos, negsuc}
use bio_auth.Cbor.Items.{uint_item, int_item, text_item, bytes_item, writes}
use bio_auth.Cbor.Reader
use bio_auth.Cbor.Reader.{Reader, new, finish}
use bio_auth.Cbor.Position.{Reads, Takes, Takes-bind, Takes-ok}
use bio_auth.Protocol.Codec
use bio_auth.Protocol.Codec.{Reads-bind, Reads-pure, Fits}
use bio_auth.Protocol.Items.{
  IsU64, IsText, IsVec, header_items, header-Reads, uint_field, int_field, text_field, bytes_field,
  header-takes, uint-takes, int-takes, text-takes, bytes-takes, coded-Reads, coded-takes,
  reserved-Reads, reserved-takes,
}
use bio_auth.Protocol.Parser.{item, header, coded, reserved}
use bio_auth.Protocol.Enrolment.{
  Enrolment, encode, validate, key_kind_from_wire, key_kind_wire, KeyKind, purpose_from_wire,
  purpose_wire, CredentialPurpose,
}
use bio_auth.Protocol.Enrolment.Decode.{fields, decode}

-- What the types of the source say of an enrolment.
pub record IsTyped (m : Enrolment) : Type 0 where
  pub version_typed : IsU64 m.version
  pub device_name_typed : IsText m.device_name
  pub credential_id_typed : IsText m.credential_id
  pub algorithm_typed : IsText m.algorithm
  pub public_key_typed : IsVec m.public_key

unfoldable pub frame_items : Enrolment → List ℕ
frame_items m =
    header_items 9 3
    ++ (uint_item m.version
        ++ (text_item m.device_name
            ++ (text_item m.credential_id
                ++ (text_item m.algorithm
                    ++ (bytes_item m.public_key
                        ++ (uint_item (key_kind_wire m.key_kind)
                            ++ (uint_item (purpose_wire m.purpose) ++ (uint_item 0 ++ []))))))))

pub encode-items : (m : Enrolment) → encode m ≡ frame_items m
unfolding encode frame_items
encode-items m = simp (encode, frame_items, writes, append_assoc, append-nil)

key_kind_from_wire-key_kind_wire : (b : KeyKind) → key_kind_from_wire (pos (key_kind_wire b)) ≡ ok b
unfolding key_kind_from_wire
key_kind_from_wire-key_kind_wire KeyKind.strong_box = refl
key_kind_from_wire-key_kind_wire KeyKind.hardware = refl
key_kind_from_wire-key_kind_wire KeyKind.software = refl

key_kind_wire_small : (b : KeyKind) → key_kind_wire b < 8
key_kind_wire_small KeyKind.strong_box = omega arith
key_kind_wire_small KeyKind.hardware = omega arith
key_kind_wire_small KeyKind.software = omega arith

key_kind_from_wire_ok :
    (v : ℤ) (b : KeyKind) → key_kind_from_wire v ≡ ok b → v ≡ pos (key_kind_wire b)
unfolding key_kind_from_wire
key_kind_from_wire_ok (pos zero) b e = ground arith
key_kind_from_wire_ok (pos (suc zero)) b e = ground arith
key_kind_from_wire_ok (pos (suc (suc zero))) b e = ground arith
key_kind_from_wire_ok (pos (suc (suc (suc n)))) b e = cc
key_kind_from_wire_ok (negsuc n) b e = cc

purpose_from_wire-purpose_wire :
    (b : CredentialPurpose) → purpose_from_wire (pos (purpose_wire b)) ≡ ok b
unfolding purpose_from_wire
purpose_from_wire-purpose_wire CredentialPurpose.authorization = refl
purpose_from_wire-purpose_wire CredentialPurpose.disk_unlock = refl
purpose_from_wire-purpose_wire CredentialPurpose.web_authn = refl
purpose_from_wire-purpose_wire CredentialPurpose.vault = refl
purpose_from_wire-purpose_wire CredentialPurpose.file_locker = refl
purpose_from_wire-purpose_wire CredentialPurpose.ssh = refl

purpose_wire_small : (b : CredentialPurpose) → purpose_wire b < 8
purpose_wire_small CredentialPurpose.authorization = omega arith
purpose_wire_small CredentialPurpose.disk_unlock = omega arith
purpose_wire_small CredentialPurpose.web_authn = omega arith
purpose_wire_small CredentialPurpose.vault = omega arith
purpose_wire_small CredentialPurpose.file_locker = omega arith
purpose_wire_small CredentialPurpose.ssh = omega arith

purpose_from_wire_ok :
    (v : ℤ) (b : CredentialPurpose) → purpose_from_wire v ≡ ok b → v ≡ pos (purpose_wire b)
unfolding purpose_from_wire
purpose_from_wire_ok (pos zero) b e = ground arith
purpose_from_wire_ok (pos (suc zero)) b e = ground arith
purpose_from_wire_ok (pos (suc (suc zero))) b e = ground arith
purpose_from_wire_ok (pos (suc (suc (suc zero)))) b e = ground arith
purpose_from_wire_ok (pos (suc (suc (suc (suc zero))))) b e = ground arith
purpose_from_wire_ok (pos (suc (suc (suc (suc (suc zero)))))) b e = ground arith
purpose_from_wire_ok (pos (suc (suc (suc (suc (suc (suc n))))))) b e = cc
purpose_from_wire_ok (negsuc n) b e = cc

fields-items : (m : Enrolment) → IsTyped m → Reads fields (frame_items m) m
unfolding fields frame_items
fields-items m w = Reads-bind _ _ _ _ tt m (header-Reads 9 3 (omega arith) (omega arith)) (
    Reads-bind _ _ _ _ m.version m (uint_field _ w.version_typed) (
      Reads-bind _ _ _ _ m.device_name m (text_field _ w.device_name_typed) (
        Reads-bind _ _ _ _ m.credential_id m (text_field _ w.credential_id_typed) (
          Reads-bind _ _ _ _ m.algorithm m (text_field _ w.algorithm_typed) (
            Reads-bind _ _ _ _ m.public_key m (bytes_field _ w.public_key_typed) (
              Reads-bind _ _ _ _ m.key_kind m
                (coded-Reads Reader.int pos key_kind_from_wire key_kind_wire m.key_kind
                  (int_field (pos (key_kind_wire m.key_kind))
                    (omega (arith, key_kind_wire_small m.key_kind), omega arith))
                  (key_kind_from_wire-key_kind_wire m.key_kind))
                (Reads-bind _ _ _ _ m.purpose m
                  (coded-Reads Reader.int pos purpose_from_wire purpose_wire m.purpose
                    (int_field (pos (purpose_wire m.purpose))
                      (omega (arith, purpose_wire_small m.purpose), omega arith))
                    (purpose_from_wire-purpose_wire m.purpose))
                  (Reads-bind _ _ _ _ tt m reserved-Reads (Reads-pure m)))))))))

pub fields-Reads : (m : Enrolment) → IsTyped m → Reads fields (encode m) m
fields-Reads m w = rw (encode-items m) (fields-items m w)

pub fields-Takes : Takes fields (λ used m. (used ≡ encode m) × IsTyped m)
unfolding fields
fields-Takes = Takes-bind (header 9 3) _ _ _ (header-takes 9 3) λ u0 _ _ e0.
    Takes-bind (item Reader.uint) _ _ _ uint-takes λ u1 version _ (e1, w1).
      Takes-bind (item Reader.text) _ _ _ text-takes λ u2 device_name _ (e2, w2).
        Takes-bind (item Reader.text) _ _ _ text-takes λ u3 credential_id _ (e3, w3).
          Takes-bind (item Reader.text) _ _ _ text-takes λ u4 algorithm _ (e4, w4).
            Takes-bind (item Reader.bytes) _ _ _ bytes-takes λ u5 public_key _ (e5, w5).
              Takes-bind (coded Reader.int key_kind_from_wire) _ _ _
                (coded-takes Reader.int pos key_kind_from_wire key_kind_wire _ int-takes
                  (λ used v b h found.
                    subst (λ (z : ℤ). used ≡ int_item z) (key_kind_from_wire_ok v b found) h.0))
                λ u6 key_kind _ e6.
                  Takes-bind (coded Reader.int purpose_from_wire) _ _ _
                    (coded-takes Reader.int pos purpose_from_wire purpose_wire _ int-takes
                      (λ used v b h found.
                        subst (λ (z : ℤ). used ≡ int_item z) (purpose_from_wire_ok v b found) h.0))
                    λ u7 purpose _ e7. Takes-bind reserved _ _ _ reserved-takes λ u8 _ _ e8.
                      Takes-ok _ _ (
                        rw (e0, e1, e2, e3, e4, e5, e6, e7, e8)
                            (sym (unfold frame_items in encode-items _)),
                        record {
                          version_typed = w1;
                          device_name_typed = w2;
                          credential_id_typed = w3;
                          algorithm_typed = w4;
                          public_key_typed = w5;
                        },
                      )

-- A frame decodes to an enrolment exactly when the enrolment is well typed and valid, and the frame is its
-- encoding and of a permitted size.
pub enrolment-decode_iff :
    (frame : List ℕ) (m : Enrolment)
    → AreBytes frame
    → (decode frame ≡ ok m) ↔ ((encode m ≡ frame) × IsTyped m × (validate m ≡ ok tt) × Fits frame)
unfolding decode
enrolment-decode_iff frame m clean = (
  Codec.decode_ok fields validate encode IsTyped fields-Reads fields-Takes frame m clean,
  λ (same, typed, valid, fits).
      subst (λ (f : List ℕ). Codec.decode_with fields validate encode f ≡ ok m) same
        (Codec.decode-encode fields validate encode IsTyped fields-Reads fields-Takes m typed valid
          (subst Fits (sym same) fits)),
)
