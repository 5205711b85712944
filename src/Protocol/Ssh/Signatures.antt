-- ===== src/Protocol/Ssh/Signatures.antt =====
-- phone-auth-protocol/src/ssh.rs: signature blobs.
use bio_auth.Common.{
  ℕ, ◌≡◌, refl, sym, ◌∙◌, arith, List, ◌++◌, ok, ◌==◌, length, take, drop, length-append,
  take-append-drop, length-take, length-drop, All-take, All-drop, true,
}
use bio_auth.Protocol.Ssh.Writer
use bio_auth.Protocol.Ssh.Reader
use bio_auth.Protocol.Ssh.Fields.{string-read, string-last, text-read, length-string}
use bio_auth.Protocol.Ssh.Keys.{name_utf8}
use bio_auth.Protocol.Ssh.{ecdsa_p256_name, encode_signature, decode_signature}
use bio_auth.Protocol.Ssh.Integers.{
  IsMpint, content, length-content, mpint-string, padded-content, content-IsMpint,
}
use bio_auth.Common.Bytes.{AreBytes, IsByte}

-- The blob of a signature: the name of the algorithm, and a string of the two scalars as integers.
pub record IsBlob (raw blob : List ℕ) : Type 0 where
  pub r : List ℕ
  pub s : List ℕ
  pub r_is : IsMpint (take 32 raw) r
  pub s_is : IsMpint (drop 32 raw) s
  pub written :
      blob ≡ Writer.text ecdsa_p256_name ++ Writer.string (Writer.string r ++ Writer.string s)

encoded :
    (raw : List ℕ)
    → AreBytes raw
    → length raw ≡ 64
    → (blob : List ℕ) × (encode_signature raw ≡ ok blob) × IsBlob raw blob
unfolding encode_signature
encoded raw bytes size =
    let r = take 32 raw in
    let s = drop 32 raw in
    let r_written = mpint-string r (length-take 32 raw (omega arith)) in
    let s_written = mpint-string s (length-drop 32 raw ∙ omega arith) in
    let whole : (length raw == 64) ≡ true = ground arith in
    (
      Writer.text ecdsa_p256_name
          ++ Writer.string (Writer.string (content r) ++ Writer.string (content s)),
      rw (whole, r_written, s_written) refl,
      record {
        r = content r;
        s = content s;
        r_is = content-IsMpint r (All-take IsByte 32 raw bytes);
        s_is = content-IsMpint s (All-drop IsByte 32 raw bytes);
        written = refl;
      },
    )

decode_encoded :
    (raw blob : List ℕ) → encode_signature raw ≡ ok blob → decode_signature blob ≡ ok raw
unfolding encode_signature decode_signature Reader.finish
decode_encoded raw blob e =
    let size : length raw ≡ 64 = ground arith in
    let r = take 32 raw in
    let s = drop 32 raw in
    let r_size : length r ≡ 32 = length-take 32 raw (omega arith) in
    let s_size : length s ≡ 32 = length-drop 32 raw ∙ omega arith in
    let r_short = length-content r r_size in
    let s_short = length-content s s_size in
    let inner = Writer.string (content r) ++ Writer.string (content s) in
    let r_written = mpint-string r r_size in
    let s_written = mpint-string s s_size in
    let made : Writer.text ecdsa_p256_name ++ Writer.string inner ≡ blob =
      rw (sym r_written, sym s_written) (ground arith) in
    let inner_size = length-append (Writer.string (content r)) (Writer.string (content s)) in
    rw
      (
        sym made,
        text-read ecdsa_p256_name (Writer.string inner) (ground arith) name_utf8,
        string-last inner
            (omega (arith, inner_size, length-string (content r), length-string (content s))),
        string-read (content r) (Writer.string (content s)) (omega (arith, r_short)),
        string-last (content s) (omega (arith, s_short)),
        padded-content r r_size,
        padded-content s s_size,
        take-append-drop 32 raw,
      )
      refl

-- Any 64 bytes are encoded as a signature, and come back from the blob. The blob holds the two scalars as
-- integers of SSH: of the same value, never negative, so with a zero put before a high first bit, and as
-- short as that allows, so without the scalar's leading zeros.
pub decode-encode_signature :
    (raw : List ℕ)
    → AreBytes raw
    → length raw ≡ 64
    → (blob : List ℕ) × (encode_signature raw ≡ ok blob)
      × IsBlob raw blob
      × (decode_signature blob ≡ ok raw)
decode-encode_signature raw bytes size =
    let (blob, made, shape) = encoded raw bytes size in
    (blob, made, shape, decode_encoded raw blob made)
