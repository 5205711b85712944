-- ===== src/Protocol/Attach/Laws.antt =====
-- `encode` and `decode` of the attach of phone-auth-protocol/src/attach.rs.
use bio_auth.Common.{ℕ, ◌≡◌, ◌↔◌, sym, subst, ◌++◌, [], List, arith, append_assoc, append-nil, ok}
use bio_auth.Common.Bytes.{AreBytes}
use bio_auth.Cbor.Items.{uint_item, text_item, writes}
use bio_auth.Cbor.Reader
use bio_auth.Cbor.Reader.{Reader, new, finish}
use bio_auth.Cbor.Position.{Reads, Takes, Takes-bind, Takes-ok}
use bio_auth.Protocol.Codec
use bio_auth.Protocol.Codec.{Reads-bind, Reads-pure, Fits}
use bio_auth.Protocol.Items.{
  IsU64, IsText, header_items, header-Reads, uint_field, text_field, header-takes, uint-takes,
  text-takes, reserved-Reads, reserved-takes,
}
use bio_auth.Protocol.Parser.{item, header, reserved}
use bio_auth.Protocol.Attach.{SessionAttach, encode, validate}
use bio_auth.Protocol.Attach.Decode.{fields, decode}

-- What the types of the source say of an attach.
pub record IsTyped (m : SessionAttach) : Type 0 where
  pub version_typed : IsU64 m.version
  pub credential_id_typed : IsText m.credential_id

unfoldable pub frame_items : SessionAttach → List ℕ
frame_items m =
    header_items 4 5 ++ (uint_item m.version ++ (text_item m.credential_id ++ (uint_item 0 ++ [])))

pub encode-items : (m : SessionAttach) → encode m ≡ frame_items m
unfolding encode frame_items
encode-items m = simp (encode, frame_items, writes, append_assoc, append-nil)

fields-items : (m : SessionAttach) → IsTyped m → Reads fields (frame_items m) m
unfolding fields frame_items
fields-items m w = Reads-bind _ _ _ _ tt m (header-Reads 4 5 (omega arith) (omega arith)) (
    Reads-bind _ _ _ _ m.version m (uint_field _ w.version_typed) (
      Reads-bind _ _ _ _ m.credential_id m (text_field _ w.credential_id_typed)
        (Reads-bind _ _ _ _ tt m reserved-Reads (Reads-pure m))))

pub fields-Reads : (m : SessionAttach) → IsTyped m → Reads fields (encode m) m
fields-Reads m w = rw (encode-items m) (fields-items m w)

pub fields-Takes : Takes fields (λ used m. (used ≡ encode m) × IsTyped m)
unfolding fields
fields-Takes = Takes-bind (header 4 5) _ _ _ (header-takes 4 5) λ u0 _ _ e0.
    Takes-bind (item Reader.uint) _ _ _ uint-takes λ u1 version _ (e1, w1).
      Takes-bind (item Reader.text) _ _ _ text-takes λ u2 credential_id _ (e2, w2).
        Takes-bind reserved _ _ _ reserved-takes λ u3 _ _ e3. Takes-ok _ _ (
          rw (e0, e1, e2, e3) (sym (unfold frame_items in encode-items _)),
          record { version_typed = w1; credential_id_typed = w2 },
        )

-- A frame decodes to an attach exactly when the attach is well typed and valid, and the frame is its
-- encoding and of a permitted size.
pub attach-decode_iff :
    (frame : List ℕ) (m : SessionAttach)
    → AreBytes frame
    → (decode frame ≡ ok m) ↔ ((encode m ≡ frame) × IsTyped m × (validate m ≡ ok tt) × Fits frame)
unfolding decode
attach-decode_iff frame m clean = (
  Codec.decode_ok fields validate encode IsTyped fields-Reads fields-Takes frame m clean,
  λ (same, typed, valid, fits).
      subst (λ (f : List ℕ). Codec.decode_with fields validate encode f ≡ ok m) same
        (Codec.decode-encode fields validate encode IsTyped fields-Reads fields-Takes m typed valid
          (subst Fits (sym same) fits)),
)
