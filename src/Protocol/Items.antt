-- ===== src/Protocol/Items.antt =====
-- The laws of the single fields of a message, in both directions.
use bio_auth.Common.{
  ℕ, ◌<◌, ◌^◌, ◌≡◌, refl, subst, List, [], ◌++◌, append-nil, arith, length, ok, String, not, ◌==◌,
  refuse, refuse-ok, false, Result,
}
use bio_auth.Common.Bytes.{AreBytes}
use bio_auth.Common.Int.{ℤ, IsI64}
use bio_auth.Text.{IsStr}
use bio_auth.Cbor.Reader
use bio_auth.Cbor.Reader.{Reader}
use bio_auth.Cbor.Items.{array_item, uint_item, int_item, text_item, bytes_item}
use bio_auth.Cbor.RoundTrip.{array-Reads, uint-Reads, int-Reads, text-Reads, bytes-Reads}
use bio_auth.Cbor.Strict.{array-Takes, uint-Takes, int-Takes, text-Takes, bytes-Takes}
use bio_auth.Cbor.Position.{Reads, Takes, Takes-bind, Takes-ok, Takes-weaken}
use bio_auth.Protocol.Defs.{ProtocolError, unexpected_message_type, invalid_reserved_field}
use bio_auth.Protocol.Parser.{item, header, fixed_bytes, coded, reserved}
use bio_auth.Protocol.Codec.{
  Reads-bind, Reads-pure, item-Reads, check-Reads, item-Takes, check-Takes, refuse-Takes,
}

-- What the types of the source give: a `u64`, a `String` and a `[u8; N]` or `Vec<u8>`.
abbrev pub IsU64 : ℕ → Type 0
IsU64 n = n < 2 ^ 64

abbrev pub IsText : List ℕ → Type 0
IsText t = IsStr t × (length t < 2 ^ 64) × AreBytes t

abbrev pub IsVec : List ℕ → Type 0
IsVec t = (length t < 2 ^ 64) × AreBytes t

abbrev pub IsArray : ℕ → List ℕ → Type 0
IsArray n t = (length t ≡ n) × AreBytes t

abbrev pub header_items : ℕ → ℕ → List ℕ
header_items fields type = array_item fields ++ (uint_item type ++ [])

pub uint_field : (n : ℕ) → IsU64 n → Reads (item Reader.uint) (uint_item n) n
uint_field n h = item-Reads Reader.uint _ n (uint-Reads n h)

pub int_field : (v : ℤ) → IsI64 v → Reads (item Reader.int) (int_item v) v
int_field v h = item-Reads Reader.int _ v (int-Reads v h)

pub text_field : (t : List ℕ) → IsText t → Reads (item Reader.text) (text_item t) t
text_field t h = item-Reads Reader.text _ t (text-Reads t h.0 h.1)

pub bytes_field : (t : List ℕ) → IsVec t → Reads (item Reader.bytes) (bytes_item t) t
bytes_field t h = item-Reads Reader.bytes _ t (bytes-Reads t h.0)

pub refuse_same : {E : Type 0} (n m : ℕ) (x : E) → n ≡ m → refuse (not (n == m)) x ≡ ok tt
refuse_same n m x e = ground arith

pub header-Reads :
    (fields type : ℕ)
    → IsU64 fields
    → IsU64 type
    → Reads (header fields type) (header_items fields type) tt
unfolding header
header-Reads fields type hf ht =
    Reads-bind _ _ _ _ fields tt (item-Reads Reader.array _ fields (array-Reads fields hf)) (
      Reads-bind _ _ [] _ tt tt (check-Reads _ tt (refuse_same fields fields _ refl)) (
        Reads-bind _ _ _ _ type tt (uint_field type ht)
          (check-Reads _ tt (refuse_same type type _ refl))))

pub fixed_bytes-Reads :
    (field : String) (n : ℕ) (t : List ℕ)
    → n < 2 ^ 64
    → IsArray n t
    → Reads (fixed_bytes field n) (bytes_item t) t
unfolding fixed_bytes
fixed_bytes-Reads field n t h (size, clean) =
    subst (λ (xs : List ℕ). Reads (fixed_bytes field n) xs t) (append-nil (bytes_item t))
      (Reads-bind _ _ (bytes_item t) [] t t (bytes_field t (omega arith, clean)) (
        Reads-bind _ _ [] [] tt t (check-Reads _ tt (refuse_same (length t) n _ size))
          (Reads-pure t)))

same_refused : (n m : ℕ) → not (n == m) ≡ false → n ≡ m
same_refused n m e = ground arith

pub uint-takes : Takes (item Reader.uint) (λ used n. (used ≡ uint_item n) × IsU64 n)
uint-takes = item-Takes Reader.uint _ uint-Takes

pub int-takes : Takes (item Reader.int) (λ used v. (used ≡ int_item v) × IsI64 v)
int-takes = item-Takes Reader.int _ int-Takes

pub text-takes : Takes (item Reader.text) (λ used t. (used ≡ text_item t) × IsText t)
text-takes =
    item-Takes Reader.text _ (Takes-weaken _ _ (λ used t _ h. (h.0, (h.1, h.2, h.3))) text-Takes)

pub bytes-takes : Takes (item Reader.bytes) (λ used t. (used ≡ bytes_item t) × IsVec t)
bytes-takes =
    item-Takes Reader.bytes _ (Takes-weaken _ _ (λ used t _ h. (h.0, (h.1, h.2))) bytes-Takes)

pub header-takes :
    (fields type : ℕ) → Takes (header fields type) (λ used _. used ≡ header_items fields type)
unfolding header
header-takes fields type =
    Takes-bind (item Reader.array) _ _ _ (item-Takes Reader.array _ array-Takes)
      λ front len _ (e0, _). refuse-Takes (not (len == fields)) _ _ _ λ size.
        Takes-bind (item Reader.uint) _ _ _ uint-takes λ mid found _ (e2, _).
          Takes-weaken _ _
            (λ none2 _ _ (e3, kind).
              let len_same : len ≡ fields = same_refused len fields size in
              let kind_same : found ≡ type =
                same_refused found type (refuse-ok _ (unexpected_message_type found) kind) in
              rw (e0, e2, e3, len_same, kind_same) refl)
            (check-Takes (refuse (not (found == type)) (unexpected_message_type found)))

pub fixed_bytes-takes :
    (field : String) (n : ℕ)
    → Takes (fixed_bytes field n) (λ used t. (used ≡ bytes_item t) × IsArray n t)
unfolding fixed_bytes
fixed_bytes-takes field n =
    Takes-bind (item Reader.bytes) _ _ _ bytes-takes λ front t _ (e0, (_, clean)).
      refuse-Takes (not (length t == n)) _ _ _ λ size. Takes-ok t _ (
        let same : length t ≡ n = same_refused (length t) n size in
        (rw (e0, append-nil) refl, (same, clean)))

pub reserved-Reads : Reads reserved (uint_item 0) tt
unfolding reserved
reserved-Reads =
    subst (λ (xs : List ℕ). Reads reserved xs tt) (append-nil (uint_item 0))
      (Reads-bind _ _ (uint_item 0) [] 0 tt (uint_field 0 (omega arith)) (check-Reads _ tt refl))

pub reserved-takes : Takes reserved (λ used _. used ≡ uint_item 0)
unfolding reserved
reserved-takes = Takes-bind (item Reader.uint) _ _ _ uint-takes λ front n _ (e, _).
    Takes-weaken _ _
      (λ none _ _ (e', zero_only).
        let none_left : n ≡ 0 =
          same_refused n 0 (refuse-ok _ (invalid_reserved_field n) zero_only) in
        rw (e, e', none_left) (append-nil (uint_item 0)))
      (check-Takes (refuse (not (n == 0)) (invalid_reserved_field n)))

-- An enumeration whose numbers are `wire`, read by `read` and written as `uint`.
module _ {A B : Type 0} (read : Reader.Read A) (number : ℕ → A)
    (from_wire : A → Result ProtocolError B) (wire : B → ℕ) where
  pub coded-Reads :
      (b : B)
      → Reads (item read) (uint_item (wire b)) (number (wire b))
      → from_wire (number (wire b)) ≡ ok b
      → Reads (coded read from_wire) (uint_item (wire b)) b
  unfolding coded
  coded-Reads b reads known =
      subst (λ (xs : List ℕ). Reads (coded read from_wire) xs b) (append-nil (uint_item (wire b)))
        (Reads-bind _ _ (uint_item (wire b)) [] (number (wire b)) b reads (check-Reads _ b known))

  pub coded-takes :
      (P : List ℕ → A → Type 0)
      → Takes (item read) P
      → ((used : List ℕ) (a : A) (b : B)
          → P used a
          → from_wire a ≡ ok b
          → used ≡ uint_item (wire b))
      → Takes (coded read from_wire) (λ used b. used ≡ uint_item (wire b))
  unfolding coded
  coded-takes P takes known = Takes-bind (item read) _ _ _ takes λ front a _ p.
      Takes-weaken _ _ (λ none b _ (e, found). rw (e, append-nil) (known front a b p found))
        (check-Takes (from_wire a))
