-- ===== src/Protocol/Attach/Recognition.antt =====
-- `SessionAttach::recognizes` of phone-auth-protocol/src/attach.rs: telling the first frame of a session.
use bio_auth.Common.{ℕ, ◌≡◌, List, Bool, true, false, ok, err, arith, ◌==◌, >>=-eq-ok}
use bio_auth.Cbor.Reader
use bio_auth.Cbor.Reader.{Reader, new}
use bio_auth.Protocol.Codec.{decode_with}
use bio_auth.Protocol.Defs.{check_frame_size, message_type_attach}
use bio_auth.Protocol.Parser.{header}
use bio_auth.Protocol.Attach.{SessionAttach}
use bio_auth.Protocol.Attach.Decode
use bio_auth.Protocol.Application.{ApplicationFrame}
use bio_auth.Protocol.Application.Decode as ApplicationDecode

unfoldable pub recognizes : List ℕ → Bool
recognizes frame = elim (Reader.array (new frame)) [
  | err e ↦ false
  | ok (len, r) ↦ elim (Reader.uint r) [
    | err e ↦ false
    | ok (type, r') ↦ type == message_type_attach
  ]
]

-- A frame that begins with a header is recognized by the type in it.
recognizes-header :
    (frame : List ℕ) (fields type : ℕ) (u : Unit {0}) (r : Reader)
    → header fields type (new frame) ≡ ok (u, r)
    → recognizes frame ≡ (type == 5)
unfolding recognizes header
recognizes-header frame fields type u r e = ground arith

attach_header :
    (frame : List ℕ) (m : SessionAttach)
    → Decode.decode frame ≡ ok m
    → (r : Reader) × (header 4 5 (new frame) ≡ ok (tt, r))
unfolding Decode.decode decode_with Decode.fields
attach_header frame m e =
    let (u, size, e1) = >>=-eq-ok (check_frame_size frame) _ e in
    let ((b, r), read, e2) = >>=-eq-ok (Decode.fields (new frame)) _ e1 in
    let ((v, r1), head, e3) = >>=-eq-ok (header 4 5 (new frame)) _ read in (r1, head)

application_header :
    (frame : List ℕ) (m : ApplicationFrame)
    → ApplicationDecode.decode frame ≡ ok m
    → (r : Reader) × (header 9 4 (new frame) ≡ ok (tt, r))
unfolding ApplicationDecode.decode decode_with ApplicationDecode.fields
application_header frame m e =
    let (u, size, e1) = >>=-eq-ok (check_frame_size frame) _ e in
    let ((b, r), read, e2) = >>=-eq-ok (ApplicationDecode.fields (new frame)) _ e1 in
    let ((v, r1), head, e3) = >>=-eq-ok (header 9 4 (new frame)) _ read in (r1, head)

-- Peeking at the first frame of a session never mistakes its kind: each frame that decodes to an attach
-- is recognized as one.
pub recognizes_attach :
    (frame : List ℕ) (m : SessionAttach) → Decode.decode frame ≡ ok m → recognizes frame ≡ true
recognizes_attach frame m e =
    let (r, h) = attach_header frame m e in recognizes-header frame 4 5 tt r h

-- No frame that decodes to an application frame, which a phone too old to attach sends first, is taken
-- for an attach.
pub recognizes_application :
    (frame : List ℕ) (m : ApplicationFrame)
    → ApplicationDecode.decode frame ≡ ok m
    → recognizes frame ≡ false
recognizes_application frame m e =
    let (r, h) = application_header frame m e in recognizes-header frame 9 4 tt r h
