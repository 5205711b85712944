-- ===== src/Cbor/Strict.antt =====
-- The reader of phone-auth-protocol/src/cbor.rs on any bytes: the items that it takes off.
use bio_auth.Common.{
  ℕ, ◌<◌, ◌^◌, ◌≡◌, subst, ◌∙◌, arith, List, [], ◌++◌, ok, length, leb, ◌==◌, >>=-eq-ok, false, not,
  append-nil,
}
use bio_auth.Common.Bytes.{AreBytes}
use bio_auth.Common.Int.{ℤ, pos, negsuc, IsI64}
use bio_auth.Text.{IsStr, is_utf8}
use bio_auth.Cbor.Writer.{head_bytes, major_array, major_uint, major_text, major_bytes}
use bio_auth.Cbor.Reader.{Reader, take, argument_of, argument, head, first}
use bio_auth.Cbor.Reader
use bio_auth.Cbor.Items.{array_item, uint_item, int_item, text_item, bytes_item}
use bio_auth.Cbor.Position.{
  Sees, Takes, Takes-bind, Takes-ok, Takes-refuse, Takes-weaken, take-Takes,
}
use bio_auth.Cbor.StrictHead.{HeadIs, head-Takes}

expect-Takes : (m : ℕ) → Takes (Reader.expect m) (λ used v. (used ≡ head_bytes m v) × (v < 2 ^ 64))
unfolding Reader.expect
expect-Takes m = Takes-bind head _ HeadIs _ head-Takes λ front (major, v) _ (same, _, bound).
    Takes-refuse (not (major == m)) _ _ _ λ c. Takes-ok v _ (expect_fact front major v same bound c)
  where
    expect_fact :
        (front : List ℕ) (major v : ℕ)
        → front ≡ head_bytes major v
        → v < 2 ^ 64
        → not (major == m) ≡ false
        → (front ++ [] ≡ head_bytes m v) × (v < 2 ^ 64)
    expect_fact front major v same bound c =
        let e : major ≡ m = ground arith in
        (append-nil front ∙ subst (λ (k : ℕ). front ≡ head_bytes k v) e same, bound)

pub array-Takes : Takes Reader.array (λ used n. (used ≡ array_item n) × (n < 2 ^ 64))
unfolding Reader.array
array-Takes = expect-Takes major_array

pub uint-Takes : Takes Reader.uint (λ used n. (used ≡ uint_item n) × (n < 2 ^ 64))
unfolding Reader.uint
uint-Takes = expect-Takes major_uint

signed_fact :
    (front : List ℕ) (major value : ℕ) (v : ℤ)
    → front ≡ head_bytes major value
    → Reader.signed major value ≡ ok v
    → (front ≡ int_item v) × IsI64 v
signed_fact front major value (pos n) same e = ground arith
signed_fact front major value (negsuc n) same e = ground arith

pub int-Takes : Takes Reader.int (λ used v. (used ≡ int_item v) × IsI64 v)
unfolding Reader.int
int-Takes r xs v r' s clean e =
    let ((h, r1), e1, e2) = >>=-eq-ok (head r) _ e in
    let (w, e3, e4) = >>=-eq-ok (Reader.signed h.0 h.1) _ e2 in
    let t = head-Takes r xs h r1 s clean e1 in
    let value : w ≡ v = ground arith in
    let here : r1 ≡ r' = ground arith in
    record {
      used = t.used;
      rest = t.rest;
      split = t.split;
      sees = subst (λ (z : Reader). Sees z t.rest) here t.sees;
      spent = t.spent;
      clean = t.clean;
      fact =
          signed_fact t.used h.0 h.1 v t.fact.0
            (subst (λ (z : ℤ). Reader.signed h.0 h.1 ≡ ok z) value e3);
    }

-- A string: its head, and as many bytes.
abbrev pub TextIs : List ℕ → List ℕ → Type 0
TextIs used t = (used ≡ text_item t) × IsStr t × (length t < 2 ^ 64) × AreBytes t

abbrev pub BytesIs : List ℕ → List ℕ → Type 0
BytesIs used t = (used ≡ bytes_item t) × (length t < 2 ^ 64) × AreBytes t

payload_fact :
    (m len : ℕ) (front used bs : List ℕ)
    → front ≡ head_bytes m len
    → len < 2 ^ 64
    → used ≡ bs
    → length bs ≡ len
    → AreBytes used
    → (front ++ used ≡ head_bytes m (length bs) ++ bs) × (length bs < 2 ^ 64) × AreBytes bs
payload_fact m len front used bs head bound same size spent =
    (rw (head, same, size), omega arith, subst AreBytes same spent)

pub bytes-Takes : Takes Reader.bytes BytesIs
unfolding Reader.bytes bytes_item
bytes-Takes =
    Takes-bind (Reader.expect major_bytes) _ _ BytesIs (expect-Takes major_bytes)
      λ front len _ (head, bound). Takes-refuse (leb (2 ^ 64) len) _ (take len) _ λ _.
        Takes-weaken _ _
          (λ used bs spent (same, size).
            payload_fact major_bytes len front used bs head bound same size spent)
          (take-Takes len)

text_fact :
    (len : ℕ) (front used bs : List ℕ)
    → front ≡ head_bytes major_text len
    → len < 2 ^ 64
    → used ≡ bs
    → length bs ≡ len
    → AreBytes used
    → not (is_utf8 bs) ≡ false
    → TextIs (front ++ (used ++ [])) bs
unfolding text_item
text_fact len front used bs head bound same size spent valid =
    let (whole, short, clean) =
      payload_fact major_text len front used bs head bound same size spent in
    rw (append-nil used) (whole, ground arith, short, clean)

pub text-Takes : Takes Reader.text TextIs
unfolding Reader.text
text-Takes =
    Takes-bind (Reader.expect major_text) _ _ TextIs (expect-Takes major_text)
      λ front len _ (head, bound). Takes-refuse (leb (2 ^ 64) len) _ _ _ λ _.
        Takes-bind (take len) _ _ _ (take-Takes len) λ used bs spent (same, size).
          Takes-refuse (not (is_utf8 bs)) _ _ _
            λ valid. Takes-ok bs _ (text_fact len front used bs head bound same size spent valid)
