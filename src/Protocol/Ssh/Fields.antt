-- ===== src/Protocol/Ssh/Fields.antt =====
-- phone-auth-protocol/src/ssh.rs: what a reader reads is what a writer writes.
use bio_auth.Common.{
  ℕ, ◌+◌, ◌%◌, ◌^◌, ◌≡◌, ◌≤◌, ◌<◌, refl, sym, ap, ◌∙◌, arith, List, [], ◌∷◌, ◌++◌, true, false, ok,
  ltb, length, take, drop, All-take, All-drop, take-append-drop, take-length, drop-length,
  length-take, length-append, append_assoc, subst, >>=-eq-ok, append-nil, refuse, not, text_eq,
  text_eq→eq, refuse-ok,
}
use bio_auth.Common.Bytes.{
  to_be, from_be, from_be-to_be, to_be-from_be, length-to_be, AreBytes, IsByte, from_be-lt,
}
use bio_auth.Protocol.Defs.{invalid_operation}
use bio_auth.Text.{is_utf8}
use bio_auth.Protocol.Ssh.Writer
use bio_auth.Protocol.Ssh.Reader

pub uint32-read :
    (n : ℕ) (rest : List ℕ) → n < 2 ^ 32 → Reader.uint32 (Writer.uint32 n ++ rest) ≡ ok (n, rest)
unfolding Reader.uint32 Writer.uint32
uint32-read n rest h =
    let small : n % 2 ^ 32 ≡ n = omega arith in
    let size = length-to_be 4 n in
    let long : ltb (length (to_be 4 n ++ rest)) 4 ≡ false =
      ground (arith, length-append (to_be 4 n) rest, size) in
    let front : take 4 (to_be 4 n ++ rest) ≡ to_be 4 n =
      ap (λ (k : ℕ). take k (to_be 4 n ++ rest)) (sym size) ∙ take-length (to_be 4 n) rest in
    let behind : drop 4 (to_be 4 n ++ rest) ≡ rest =
      ap (λ (k : ℕ). drop k (to_be 4 n ++ rest)) (sym size) ∙ drop-length (to_be 4 n) rest in
    rw (small, long, front, behind, from_be-to_be 4 n (omega arith)) refl

pub uint32-written :
    (bytes : List ℕ) (n : ℕ) (rest : List ℕ)
    → AreBytes bytes
    → Reader.uint32 bytes ≡ ok (n, rest)
    → (bytes ≡ Writer.uint32 n ++ rest) × (n < 2 ^ 32) × AreBytes rest
unfolding Reader.uint32 Writer.uint32
uint32-written bytes n rest b e =
    let long : 4 ≤ length bytes = ground arith in
    let value : from_be 0 (take 4 bytes) ≡ n = ground arith in
    let behind : drop 4 bytes ≡ rest = ground arith in
    let four = length-take 4 bytes long in
    let front_bytes = All-take IsByte 4 bytes b in
    let bound = from_be-lt (take 4 bytes) front_bytes in
    let small : n < 2 ^ 32 = omega (arith, value, bound, ap (λ (k : ℕ). 256 ^ k) four) in
    let same : n % 2 ^ 32 ≡ n = omega arith in
    let front : to_be 4 n ≡ take 4 bytes =
      ap (λ (k : ℕ). to_be k n) (sym four)
      ∙ ap (to_be (length (take 4 bytes))) (sym value)
      ∙ to_be-from_be (take 4 bytes) front_bytes in
    let whole : bytes ≡ to_be 4 (n % 2 ^ 32) ++ rest =
      rw (same, front, sym behind) (sym (take-append-drop 4 bytes)) in
    (whole, small, subst AreBytes behind (All-drop IsByte 4 bytes b))

pub string-read :
    (value rest : List ℕ)
    → length value ≤ 65536
    → Reader.string (Writer.string value ++ rest) ≡ ok (value, rest)
unfolding Reader.string Writer.string
string-read value rest h =
    let small : length value % 2 ^ 32 ≡ length value = omega arith in
    let assoc = append_assoc (Writer.uint32 (length value)) value rest in
    let few : ltb 65536 (length value) ≡ false = ground arith in
    let enough : ltb (length (value ++ rest)) (length value) ≡ false =
      ground (arith, length-append value rest) in
    rw
      (
        small,
        assoc,
        uint32-read (length value) (value ++ rest) (omega arith),
        few,
        enough,
        take-length value rest,
        drop-length value rest,
      )
      refl

-- What `string` has read, as it stands in the input.
pub record HasString (bytes value rest : List ℕ) : Type 0 where
  pub written : bytes ≡ Writer.string value ++ rest
  pub short : length value ≤ 65536
  pub value_bytes : AreBytes value
  pub rest_bytes : AreBytes rest

pub string-written :
    (bytes value rest : List ℕ)
    → AreBytes bytes
    → Reader.string bytes ≡ ok (value, rest)
    → HasString bytes value rest
unfolding Reader.string Writer.string
string-written bytes value rest b e =
    let ((size, body), read, e) = >>=-eq-ok (Reader.uint32 bytes) _ e in
    let (whole, bound, body_bytes) = uint32-written bytes size body b read in
    let few : size ≤ 65536 = ground arith in
    let enough : size ≤ length body = ground arith in
    let front : take size body ≡ value = ground arith in
    let behind : drop size body ≡ rest = ground arith in
    let long : length value ≡ size = ap length (sym front) ∙ length-take size body enough in
    let same : length value % 2 ^ 32 ≡ size = omega (arith, long) in
    record {
      written =
          rw
            (
              same,
              append_assoc (Writer.uint32 size) value rest,
              sym front,
              sym behind,
              take-append-drop size body,
            )
            whole;
      short = omega (arith, long);
      value_bytes = subst AreBytes front (All-take IsByte size body body_bytes);
      rest_bytes = subst AreBytes behind (All-drop IsByte size body body_bytes);
    }

pub text-read :
    (value rest : List ℕ)
    → length value ≤ 65536
    → is_utf8 value ≡ true
    → Reader.text (Writer.text value ++ rest) ≡ ok (value, rest)
unfolding Reader.text
text-read value rest h u = rw (string-read value rest h, u) refl

pub text-written :
    (bytes value rest : List ℕ)
    → AreBytes bytes
    → Reader.text bytes ≡ ok (value, rest)
    → HasString bytes value rest × (is_utf8 value ≡ true)
unfolding Reader.text
text-written bytes value rest b e =
    let ((v, r), read, e) = >>=-eq-ok (Reader.string bytes) _ e in
    let utf : is_utf8 v ≡ true = ground arith in
    let same : v ≡ value = ground arith in
    let left : r ≡ rest = ground arith in
    (string-written bytes value rest b (rw (sym same, sym left) read), rw (sym same) utf)

pub finish-ok : (rest : List ℕ) {u : Unit {0}} → Reader.finish rest ≡ ok u → rest ≡ []
unfolding Reader.finish
finish-ok [] h = refl
finish-ok (b ∷ rest) h = ground arith

pub uint8-written :
    (bytes : List ℕ) (n : ℕ) (rest : List ℕ)
    → AreBytes bytes
    → Reader.uint8 bytes ≡ ok (n, rest)
    → (bytes ≡ n ∷ rest) × (n < 256) × AreBytes rest
unfolding Reader.uint8
uint8-written [] n rest b e = ground arith
uint8-written (byte ∷ bytes) n rest (first, b) e =
    let same : byte ≡ n = ground arith in
    let left : bytes ≡ rest = ground arith in
    (rw (same, left) refl, omega (arith, same), subst AreBytes left b)

-- A field with nothing behind it.
pub string-last :
    (value : List ℕ) → length value ≤ 65536 → Reader.string (Writer.string value) ≡ ok (value, [])
string-last value h =
    ap Reader.string (sym (append-nil (Writer.string value))) ∙ string-read value [] h

pub length-string : (value : List ℕ) → length (Writer.string value) ≡ 4 + length value
unfolding Writer.string Writer.uint32
length-string value = omega (
  arith,
  length-append (to_be 4 (length value % 2 ^ 32 % 2 ^ 32)) value,
  length-to_be 4 (length value % 2 ^ 32 % 2 ^ 32),
)

-- A field and what follows it, as they were written.
pub then_written :
    {bytes value value' rest tail : List ℕ}
    → HasString bytes value rest
    → value ≡ value'
    → rest ≡ tail
    → bytes ≡ Writer.string value' ++ tail
then_written {value' = value'} {rest = rest} w same behind =
    w.written
    ∙ ap (λ (l : List ℕ). Writer.string l ++ rest) same
    ∙ ap (λ (l : List ℕ). Writer.string value' ++ l) behind

-- A text that was compared with a literal.
pub same_name :
    (a b : List ℕ) {u : Unit {0}} → refuse (not (text_eq a b)) invalid_operation ≡ ok u → a ≡ b
same_name a b e =
    let other = refuse-ok (not (text_eq a b)) invalid_operation e in
    text_eq→eq a b (ground (arith, other))
