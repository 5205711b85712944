-- ===== src/Protocol/Ssh/Keys.antt =====
-- phone-auth-protocol/src/ssh.rs: public key blobs.
use bio_auth.Common.{
  ℕ, ◌≡◌, ◌↔◌, refl, sym, ap, ◌∙◌, arith, List, ◌++◌, true, not, Result, ok, ◌>>=◌, refuse,
  refuse-ok, text_eq, length, >>=-eq-ok, append-nil,
}
use bio_auth.Common.Bytes.{AreBytes}
use bio_auth.Text.{is_utf8, chars, chars_from, feed}
use bio_auth.Protocol.Defs.{ProtocolError, invalid_operation}
use bio_auth.Protocol.Ssh.Writer
use bio_auth.Protocol.Ssh.Reader
use bio_auth.Protocol.Ssh.Fields.{
  then_written, same_name, string-written, text-read, text-written, finish-ok, string-last,
}
use bio_auth.Protocol.Ssh.{
  ecdsa_p256_name, ecdsa_p256_curve, check_point, encode_public_key, decode_public_key,
}

pub name_utf8 : is_utf8 ecdsa_p256_name ≡ true
unfolding is_utf8 chars chars_from feed
name_utf8 = refl

curve_utf8 : is_utf8 ecdsa_p256_curve ≡ true
unfolding is_utf8 chars chars_from feed
curve_utf8 = refl

-- A blob is read as a point exactly where it is what that point is written as: no two blobs are read as one
-- key, and nothing is read that would not be written.
pub decode_public_key_iff :
    (blob point : List ℕ)
    → AreBytes blob
    → (decode_public_key blob ≡ ok point) ↔ (encode_public_key point ≡ ok blob)
unfolding encode_public_key decode_public_key Reader.finish
decode_public_key_iff blob point bytes = (read, written)
  where
    read : decode_public_key blob ≡ ok point → encode_public_key point ≡ ok blob
    read e =
        let ((name, rest1), e1, e) = >>=-eq-ok (Reader.text blob) _ e in
        let (_, named, e) =
          >>=-eq-ok (refuse (not (text_eq name ecdsa_p256_name)) invalid_operation) _ e in
        let ((curve, rest2), e2, e) = >>=-eq-ok (Reader.text rest1) _ e in
        let (_, curved, e) =
          >>=-eq-ok (refuse (not (text_eq curve ecdsa_p256_curve)) invalid_operation) _ e in
        let ((found, rest3), e3, e) = >>=-eq-ok (Reader.string rest2) _ e in
        let (_, e4, e) = >>=-eq-ok (Reader.finish rest3) _ e in
        let (_, fits, e) = >>=-eq-ok (check_point found) _ e in
        let (s1, _) = text-written blob name rest1 bytes e1 in
        let (s2, _) = text-written rest1 curve rest2 s1.rest_bytes e2 in
        let s3 = string-written rest2 found rest3 s2.rest_bytes e3 in
        let same : found ≡ point = ground arith in
        let fits2 : check_point point ≡ ok tt = ap check_point (sym same) ∙ fits in
        let whole : Writer.text ecdsa_p256_name
              ++ (Writer.text ecdsa_p256_curve ++ Writer.string point)
            ≡ blob =
          sym (
            then_written s1 (same_name name ecdsa_p256_name named) (
              then_written s2 (same_name curve ecdsa_p256_curve curved)
                (then_written s3 same (finish-ok rest3 e4) ∙ append-nil (Writer.string point)))) in
        ap
          (λ (x : Result ProtocolError (Unit {0})). x >>= λ u.
            ok (
              Writer.text ecdsa_p256_name ++ (Writer.text ecdsa_p256_curve ++ Writer.string point)))
          fits2
        ∙ ap ok whole

    written : encode_public_key point ≡ ok blob → decode_public_key blob ≡ ok point
    written e =
        let (_, fits, e) = >>=-eq-ok (check_point point) _ e in
        let whole : Writer.text ecdsa_p256_name
              ++ (Writer.text ecdsa_p256_curve ++ Writer.string point)
            ≡ blob =
          ground arith in
        let size : length point ≡ 65 = ground arith in
        let last = string-last point (omega (arith, size)) in
        rw
          (
            sym whole,
            text-read ecdsa_p256_name (Writer.text ecdsa_p256_curve ++ Writer.string point)
                (ground arith) name_utf8,
            text-read ecdsa_p256_curve (Writer.string point) (ground arith) curve_utf8,
            last,
            refuse-ok _ _ fits,
          )
          refl
