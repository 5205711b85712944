-- ===== src/Protocol/Response/Laws.antt =====
-- `encode` and `decode` of the answer of phone-auth-protocol/src/response.rs.
use bio_auth.Common.{
  ℕ, zero, suc, ◌<◌, ◌≡◌, ◌↔◌, refl, sym, subst, ◌++◌, [], List, arith, append_assoc, append-nil,
  ok,
}
use bio_auth.Common.Bytes.{AreBytes}
use bio_auth.Common.Int.{ℤ, pos, negsuc}
use bio_auth.Cbor.Items.{uint_item, int_item, text_item, bytes_item, writes}
use bio_auth.Cbor.Reader
use bio_auth.Cbor.Reader.{Reader, new, finish}
use bio_auth.Cbor.Position.{Reads, Takes, Takes-bind, Takes-ok}
use bio_auth.Protocol.Codec
use bio_auth.Protocol.Codec.{Reads-bind, Reads-pure, Fits}
use bio_auth.Protocol.Items.{
  IsU64, IsText, IsVec, header_items, header-Reads, uint_field, int_field, text_field, bytes_field,
  header-takes, uint-takes, int-takes, text-takes, bytes-takes, coded-Reads, coded-takes,
}
use bio_auth.Protocol.Parser.{item, header, coded}
use bio_auth.Protocol.Response.{
  AuthResponse, encode, validate, decision_from_wire, decision_wire, Decision,
}
use bio_auth.Protocol.Response.Decode.{fields, decode}

-- What the types of the source say of an answer.
pub record IsTyped (m : AuthResponse) : Type 0 where
  pub version_typed : IsU64 m.version
  pub request_id_typed : IsText m.request_id
  pub verifier_id_typed : IsText m.verifier_id
  pub credential_id_typed : IsText m.credential_id
  pub algorithm_typed : IsText m.algorithm
  pub signature_typed : IsVec m.signature

unfoldable pub frame_items : AuthResponse → List ℕ
frame_items m =
    header_items 8 2
    ++ (uint_item m.version
        ++ (text_item m.request_id
            ++ (text_item m.verifier_id
                ++ (text_item m.credential_id
                    ++ (uint_item (decision_wire m.decision)
                        ++ (text_item m.algorithm ++ (bytes_item m.signature ++ [])))))))

pub encode-items : (m : AuthResponse) → encode m ≡ frame_items m
unfolding encode frame_items
encode-items m = simp (encode, frame_items, writes, append_assoc, append-nil)

decision_from_wire-decision_wire :
    (b : Decision) → decision_from_wire (pos (decision_wire b)) ≡ ok b
unfolding decision_from_wire
decision_from_wire-decision_wire Decision.authorized = refl
decision_from_wire-decision_wire Decision.denied = refl

decision_wire_small : (b : Decision) → decision_wire b < 8
decision_wire_small Decision.authorized = omega arith
decision_wire_small Decision.denied = omega arith

decision_from_wire_ok :
    (v : ℤ) (b : Decision) → decision_from_wire v ≡ ok b → v ≡ pos (decision_wire b)
unfolding decision_from_wire
decision_from_wire_ok (pos zero) b e = ground arith
decision_from_wire_ok (pos (suc zero)) b e = ground arith
decision_from_wire_ok (pos (suc (suc n))) b e = cc
decision_from_wire_ok (negsuc n) b e = cc

fields-items : (m : AuthResponse) → IsTyped m → Reads fields (frame_items m) m
unfolding fields frame_items
fields-items m w = Reads-bind _ _ _ _ tt m (header-Reads 8 2 (omega arith) (omega arith)) (
    Reads-bind _ _ _ _ m.version m (uint_field _ w.version_typed) (
      Reads-bind _ _ _ _ m.request_id m (text_field _ w.request_id_typed) (
        Reads-bind _ _ _ _ m.verifier_id m (text_field _ w.verifier_id_typed) (
          Reads-bind _ _ _ _ m.credential_id m (text_field _ w.credential_id_typed) (
            Reads-bind _ _ _ _ m.decision m
              (coded-Reads Reader.int pos decision_from_wire decision_wire m.decision
                (int_field (pos (decision_wire m.decision))
                  (omega (arith, decision_wire_small m.decision), omega arith))
                (decision_from_wire-decision_wire m.decision))
              (Reads-bind _ _ _ _ m.algorithm m (text_field _ w.algorithm_typed) (
                Reads-bind _ _ _ _ m.signature m (bytes_field _ w.signature_typed)
                  (Reads-pure m))))))))

pub fields-Reads : (m : AuthResponse) → IsTyped m → Reads fields (encode m) m
fields-Reads m w = rw (encode-items m) (fields-items m w)

pub fields-Takes : Takes fields (λ used m. (used ≡ encode m) × IsTyped m)
unfolding fields
fields-Takes = Takes-bind (header 8 2) _ _ _ (header-takes 8 2) λ u0 _ _ e0.
    Takes-bind (item Reader.uint) _ _ _ uint-takes λ u1 version _ (e1, w1).
      Takes-bind (item Reader.text) _ _ _ text-takes λ u2 request_id _ (e2, w2).
        Takes-bind (item Reader.text) _ _ _ text-takes λ u3 verifier_id _ (e3, w3).
          Takes-bind (item Reader.text) _ _ _ text-takes λ u4 credential_id _ (e4, w4).
            Takes-bind (coded Reader.int decision_from_wire) _ _ _
              (coded-takes Reader.int pos decision_from_wire decision_wire _ int-takes
                (λ used v b h found.
                  subst (λ (z : ℤ). used ≡ int_item z) (decision_from_wire_ok v b found) h.0))
              λ u5 decision _ e5.
                Takes-bind (item Reader.text) _ _ _ text-takes λ u6 algorithm _ (e6, w6).
                  Takes-bind (item Reader.bytes) _ _ _ bytes-takes λ u7 signature _ (e7, w7).
                    Takes-ok _ _ (
                      rw (e0, e1, e2, e3, e4, e5, e6, e7)
                          (sym (unfold frame_items in encode-items _)),
                      record {
                        version_typed = w1;
                        request_id_typed = w2;
                        verifier_id_typed = w3;
                        credential_id_typed = w4;
                        algorithm_typed = w6;
                        signature_typed = w7;
                      },
                    )

-- A frame decodes to an answer exactly when the answer is well typed and valid, and the frame is its
-- encoding and of a permitted size.
pub response-decode_iff :
    (frame : List ℕ) (m : AuthResponse)
    → AreBytes frame
    → (decode frame ≡ ok m) ↔ ((encode m ≡ frame) × IsTyped m × (validate m ≡ ok tt) × Fits frame)
unfolding decode
response-decode_iff frame m clean = (
  Codec.decode_ok fields validate encode IsTyped fields-Reads fields-Takes frame m clean,
  λ (same, typed, valid, fits).
      subst (λ (f : List ℕ). Codec.decode_with fields validate encode f ≡ ok m) same
        (Codec.decode-encode fields validate encode IsTyped fields-Reads fields-Takes m typed valid
          (subst Fits (sym same) fits)),
)
