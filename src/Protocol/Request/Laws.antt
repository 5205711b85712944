-- ===== src/Protocol/Request/Laws.antt =====
-- `encode` and `decode` of the request of phone-auth-protocol/src/request.rs.
use bio_auth.Common.{ℕ, ◌≡◌, ◌↔◌, sym, subst, ◌++◌, [], List, arith, append_assoc, append-nil, ok}
use bio_auth.Common.Bytes.{AreBytes}
use bio_auth.Common.Int.{IsI64}
use bio_auth.Cbor.Items.{uint_item, int_item, text_item, bytes_item, writes}
use bio_auth.Cbor.Reader
use bio_auth.Cbor.Reader.{Reader, new, finish}
use bio_auth.Cbor.Position.{Reads, Takes, Takes-bind, Takes-ok}
use bio_auth.Protocol.Codec
use bio_auth.Protocol.Codec.{Reads-bind, Reads-pure, Fits}
use bio_auth.Protocol.Items.{
  IsU64, IsText, IsArray, header_items, header-Reads, uint_field, int_field, text_field,
  fixed_bytes-Reads, header-takes, uint-takes, int-takes, text-takes, fixed_bytes-takes,
}
use bio_auth.Protocol.Request.{AuthRequest, encode, validate}
use bio_auth.Protocol.Request.Decode.{fields, decode}
use bio_auth.Protocol.Parser.{item, header}

-- What the types of the source say of a request.
pub record IsTyped (m : AuthRequest) : Type 0 where
  pub version_u64 : IsU64 m.version
  pub request_id_text : IsText m.request_id
  pub verifier_id_text : IsText m.verifier_id
  pub verifier_name_text : IsText m.verifier_name
  pub credential_id_text : IsText m.credential_id
  pub challenge_array : IsArray 32 m.challenge
  pub service_text : IsText m.service
  pub action_text : IsText m.action
  pub resource_text : IsText m.resource
  pub user_text : IsText m.user
  pub issued_i64 : IsI64 m.issued_at_ms
  pub expires_i64 : IsI64 m.expires_at_ms
  pub binding_array : IsArray 32 m.session_binding

unfoldable pub frame_items : AuthRequest → List ℕ
frame_items m =
    header_items 14 1
    ++ (uint_item m.version
        ++ (text_item m.request_id
            ++ (text_item m.verifier_id
                ++ (text_item m.verifier_name
                    ++ (text_item m.credential_id
                        ++ (bytes_item m.challenge
                            ++ (text_item m.service
                                ++ (text_item m.action
                                    ++ (text_item m.resource
                                        ++ (text_item m.user
                                            ++ (int_item m.issued_at_ms
                                                ++ (int_item m.expires_at_ms
                                                    ++ (bytes_item m.session_binding
                                                        ++ [])))))))))))))

pub encode-items : (m : AuthRequest) → encode m ≡ frame_items m
unfolding encode frame_items
encode-items m = simp (encode, frame_items, writes, append_assoc, append-nil)

fields-items : (m : AuthRequest) → IsTyped m → Reads fields (frame_items m) m
unfolding fields frame_items
fields-items m w = Reads-bind _ _ _ _ tt m (header-Reads 14 1 (omega arith) (omega arith)) (
    Reads-bind _ _ _ _ m.version m (uint_field _ w.version_u64) (
      Reads-bind _ _ _ _ m.request_id m (text_field _ w.request_id_text) (
        Reads-bind _ _ _ _ m.verifier_id m (text_field _ w.verifier_id_text) (
          Reads-bind _ _ _ _ m.verifier_name m (text_field _ w.verifier_name_text) (
            Reads-bind _ _ _ _ m.credential_id m (text_field _ w.credential_id_text) (
              Reads-bind _ _ _ _ m.challenge m
                (fixed_bytes-Reads _ 32 _ (omega arith) w.challenge_array)
                (Reads-bind _ _ _ _ m.service m (text_field _ w.service_text) (
                  Reads-bind _ _ _ _ m.action m (text_field _ w.action_text) (
                    Reads-bind _ _ _ _ m.resource m (text_field _ w.resource_text) (
                      Reads-bind _ _ _ _ m.user m (text_field _ w.user_text) (
                        Reads-bind _ _ _ _ m.issued_at_ms m (int_field _ w.issued_i64) (
                          Reads-bind _ _ _ _ m.expires_at_ms m (int_field _ w.expires_i64) (
                            Reads-bind _ _ _ _ m.session_binding m
                              (fixed_bytes-Reads _ 32 _ (omega arith) w.binding_array)
                              (Reads-pure m))))))))))))))

pub fields-Reads : (m : AuthRequest) → IsTyped m → Reads fields (encode m) m
fields-Reads m w = rw (encode-items m) (fields-items m w)

pub fields-Takes : Takes fields (λ used m. (used ≡ encode m) × IsTyped m)
unfolding fields
fields-Takes = Takes-bind (header 14 1) _ _ _ (header-takes 14 1) λ u0 _ _ e0.
    Takes-bind (item Reader.uint) _ _ _ uint-takes λ u1 version _ (e1, w1).
      Takes-bind (item Reader.text) _ _ _ text-takes λ u2 request_id _ (e2, w2).
        Takes-bind (item Reader.text) _ _ _ text-takes λ u3 verifier_id _ (e3, w3).
          Takes-bind (item Reader.text) _ _ _ text-takes λ u4 verifier_name _ (e4, w4).
            Takes-bind (item Reader.text) _ _ _ text-takes λ u5 credential_id _ (e5, w5).
              Takes-bind _ _ _ _ (fixed_bytes-takes "challenge" 32) λ u6 challenge _ (e6, w6).
                Takes-bind (item Reader.text) _ _ _ text-takes λ u7 service _ (e7, w7).
                  Takes-bind (item Reader.text) _ _ _ text-takes λ u8 action _ (e8, w8).
                    Takes-bind (item Reader.text) _ _ _ text-takes λ u9 resource _ (e9, w9).
                      Takes-bind (item Reader.text) _ _ _ text-takes λ u10 user _ (e10, w10).
                        Takes-bind (item Reader.int) _ _ _ int-takes
                          λ u11 issued_at_ms _ (e11, w11).
                            Takes-bind (item Reader.int) _ _ _ int-takes
                              λ u12 expires_at_ms _ (e12, w12).
                                Takes-bind _ _ _ _ (fixed_bytes-takes "sessionBinding" 32)
                                  λ u13 session_binding _ (e13, w13). Takes-ok _ _ (
                                    rw (e0, e1, e2, e3, e4, e5, e6, e7, e8, e9, e10, e11, e12, e13)
                                        (sym (unfold frame_items in encode-items _)),
                                    record {
                                      version_u64 = w1;
                                      request_id_text = w2;
                                      verifier_id_text = w3;
                                      verifier_name_text = w4;
                                      credential_id_text = w5;
                                      challenge_array = w6;
                                      service_text = w7;
                                      action_text = w8;
                                      resource_text = w9;
                                      user_text = w10;
                                      issued_i64 = w11;
                                      expires_i64 = w12;
                                      binding_array = w13;
                                    },
                                  )

-- A frame decodes to a request exactly when the request is well typed and valid, and the frame is its
-- encoding and of a permitted size. So `encode` and `decode` undo each other, and no two frames stand
-- for one request.
pub decode_iff :
    (frame : List ℕ) (m : AuthRequest)
    → AreBytes frame
    → (decode frame ≡ ok m) ↔ ((encode m ≡ frame) × IsTyped m × (validate m ≡ ok tt) × Fits frame)
unfolding decode
decode_iff frame m clean = (
  Codec.decode_ok fields validate encode IsTyped fields-Reads fields-Takes frame m clean,
  λ (same, typed, valid, fits).
      subst (λ (f : List ℕ). Codec.decode_with fields validate encode f ≡ ok m) same
        (Codec.decode-encode fields validate encode IsTyped fields-Reads fields-Takes m typed valid
          (subst Fits (sym same) fits)),
)

-- The comparison with the re-encoded request, at the end of `decode`, refuses nothing: a frame whose
-- fields are read to its end and are valid is canonical.
pub decode_complete :
    (frame : List ℕ) (m : AuthRequest) (r : Reader)
    → AreBytes frame
    → Fits frame
    → fields (new frame) ≡ ok (m, r)
    → finish r ≡ ok tt
    → validate m ≡ ok tt
    → decode frame ≡ ok m
unfolding decode
decode_complete = Codec.decode_complete fields validate encode IsTyped fields-Reads fields-Takes
