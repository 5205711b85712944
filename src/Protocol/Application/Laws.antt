-- ===== src/Protocol/Application/Laws.antt =====
-- `encode` and `decode` of the application frame of phone-auth-protocol/src/application.rs.
use bio_auth.Common.{
  ℕ, zero, suc, ◌<◌, ◌≡◌, ◌↔◌, refl, sym, subst, ◌++◌, [], List, arith, append_assoc, append-nil,
  ok,
}
use bio_auth.Common.Bytes.{AreBytes}
use bio_auth.Common.Int.{IsI64}
use bio_auth.Cbor.Items.{uint_item, int_item, text_item, bytes_item, writes}
use bio_auth.Cbor.Reader
use bio_auth.Cbor.Reader.{Reader, new, finish}
use bio_auth.Cbor.Position.{Reads, Takes, Takes-bind, Takes-ok}
use bio_auth.Protocol.Codec
use bio_auth.Protocol.Codec.{Reads-bind, Reads-pure, Fits}
use bio_auth.Protocol.Items.{
  IsU64, IsText, IsArray, IsVec, header_items, header-Reads, uint_field, int_field, text_field,
  bytes_field, fixed_bytes-Reads, header-takes, uint-takes, int-takes, text-takes, bytes-takes,
  fixed_bytes-takes, coded-Reads, coded-takes,
}
use bio_auth.Protocol.Parser.{item, header, coded}
use bio_auth.Protocol.Application.{
  ApplicationFrame, encode, validate, kind_from_wire, wire, ApplicationFrameKind,
}
use bio_auth.Protocol.Application.Decode.{fields, decode}

-- What the types of the source say of an application frame.
pub record IsTyped (m : ApplicationFrame) : Type 0 where
  pub version_typed : IsU64 m.version
  pub request_id_typed : IsText m.request_id
  pub session_binding_typed : IsArray 32 m.session_binding
  pub operation_typed : IsText m.operation
  pub issued_at_ms_typed : IsI64 m.issued_at_ms
  pub expires_at_ms_typed : IsI64 m.expires_at_ms
  pub payload_typed : IsVec m.payload

unfoldable pub frame_items : ApplicationFrame → List ℕ
frame_items m =
    header_items 9 4
    ++ (uint_item m.version
        ++ (uint_item (wire m.kind)
            ++ (text_item m.request_id
                ++ (bytes_item m.session_binding
                    ++ (text_item m.operation
                        ++ (int_item m.issued_at_ms
                            ++ (int_item m.expires_at_ms ++ (bytes_item m.payload ++ []))))))))

pub encode-items : (m : ApplicationFrame) → encode m ≡ frame_items m
unfolding encode frame_items
encode-items m = simp (encode, frame_items, writes, append_assoc, append-nil)

kind_from_wire-wire : (b : ApplicationFrameKind) → kind_from_wire (wire b) ≡ ok b
unfolding kind_from_wire
kind_from_wire-wire ApplicationFrameKind.request = refl
kind_from_wire-wire ApplicationFrameKind.response = refl
kind_from_wire-wire ApplicationFrameKind.cancel = refl
kind_from_wire-wire ApplicationFrameKind.error = refl

wire_small : (b : ApplicationFrameKind) → wire b < 8
wire_small ApplicationFrameKind.request = omega arith
wire_small ApplicationFrameKind.response = omega arith
wire_small ApplicationFrameKind.cancel = omega arith
wire_small ApplicationFrameKind.error = omega arith

kind_from_wire_ok : (v : ℕ) (b : ApplicationFrameKind) → kind_from_wire v ≡ ok b → v ≡ wire b
unfolding kind_from_wire
kind_from_wire_ok zero b e = ground arith
kind_from_wire_ok (suc zero) b e = ground arith
kind_from_wire_ok (suc (suc zero)) b e = ground arith
kind_from_wire_ok (suc (suc (suc zero))) b e = ground arith
kind_from_wire_ok (suc (suc (suc (suc n)))) b e = cc

fields-items : (m : ApplicationFrame) → IsTyped m → Reads fields (frame_items m) m
unfolding fields frame_items
fields-items m w = Reads-bind _ _ _ _ tt m (header-Reads 9 4 (omega arith) (omega arith)) (
    Reads-bind _ _ _ _ m.version m (uint_field _ w.version_typed) (
      Reads-bind _ _ _ _ m.kind m
        (coded-Reads Reader.uint (λ n. n) kind_from_wire wire m.kind
          (uint_field (wire m.kind) (omega (arith, wire_small m.kind)))
          (kind_from_wire-wire m.kind))
        (Reads-bind _ _ _ _ m.request_id m (text_field _ w.request_id_typed) (
          Reads-bind _ _ _ _ m.session_binding m
            (fixed_bytes-Reads _ 32 _ (omega arith) w.session_binding_typed)
            (Reads-bind _ _ _ _ m.operation m (text_field _ w.operation_typed) (
              Reads-bind _ _ _ _ m.issued_at_ms m (int_field _ w.issued_at_ms_typed) (
                Reads-bind _ _ _ _ m.expires_at_ms m (int_field _ w.expires_at_ms_typed) (
                  Reads-bind _ _ _ _ m.payload m (bytes_field _ w.payload_typed)
                    (Reads-pure m)))))))))

pub fields-Reads : (m : ApplicationFrame) → IsTyped m → Reads fields (encode m) m
fields-Reads m w = rw (encode-items m) (fields-items m w)

pub fields-Takes : Takes fields (λ used m. (used ≡ encode m) × IsTyped m)
unfolding fields
fields-Takes = Takes-bind (header 9 4) _ _ _ (header-takes 9 4) λ u0 _ _ e0.
    Takes-bind (item Reader.uint) _ _ _ uint-takes λ u1 version _ (e1, w1).
      Takes-bind (coded Reader.uint kind_from_wire) _ _ _
        (coded-takes Reader.uint (λ n. n) kind_from_wire wire _ uint-takes
          (λ used v b h found.
            subst (λ (z : ℕ). used ≡ uint_item z) (kind_from_wire_ok v b found) h.0))
        λ u2 kind _ e2. Takes-bind (item Reader.text) _ _ _ text-takes λ u3 request_id _ (e3, w3).
          Takes-bind _ _ _ _ (fixed_bytes-takes "sessionBinding" 32)
            λ u4 session_binding _ (e4, w4).
              Takes-bind (item Reader.text) _ _ _ text-takes λ u5 operation _ (e5, w5).
                Takes-bind (item Reader.int) _ _ _ int-takes λ u6 issued_at_ms _ (e6, w6).
                  Takes-bind (item Reader.int) _ _ _ int-takes λ u7 expires_at_ms _ (e7, w7).
                    Takes-bind (item Reader.bytes) _ _ _ bytes-takes λ u8 payload _ (e8, w8).
                      Takes-ok _ _ (
                        rw (e0, e1, e2, e3, e4, e5, e6, e7, e8)
                            (sym (unfold frame_items in encode-items _)),
                        record {
                          version_typed = w1;
                          request_id_typed = w3;
                          session_binding_typed = w4;
                          operation_typed = w5;
                          issued_at_ms_typed = w6;
                          expires_at_ms_typed = w7;
                          payload_typed = w8;
                        },
                      )

-- A frame decodes to an application frame exactly when the frame is well typed and valid, and the frame is its
-- encoding and of a permitted size.
pub application-decode_iff :
    (frame : List ℕ) (m : ApplicationFrame)
    → AreBytes frame
    → (decode frame ≡ ok m) ↔ ((encode m ≡ frame) × IsTyped m × (validate m ≡ ok tt) × Fits frame)
unfolding decode
application-decode_iff frame m clean = (
  Codec.decode_ok fields validate encode IsTyped fields-Reads fields-Takes frame m clean,
  λ (same, typed, valid, fits).
      subst (λ (f : List ℕ). Codec.decode_with fields validate encode f ≡ ok m) same
        (Codec.decode-encode fields validate encode IsTyped fields-Reads fields-Takes m typed valid
          (subst Fits (sym same) fits)),
)
