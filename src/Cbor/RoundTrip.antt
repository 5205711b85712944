-- ===== src/Cbor/RoundTrip.antt =====
-- The reader of phone-auth-protocol/src/cbor.rs on bytes of the writer.
use bio_auth.Common.{
  ℕ, suc, ◌+◌, ◌*◌, ◌/◌, ◌%◌, ◌≤◌, ◌<◌, ◌^◌, ◌≡◌, refl, sym, subst, ap, ◌∙◌, arith, List, [], ◌∷◌,
  ◌++◌, ok, length, bit_and, bit_or, leb, Bool-cases, inl, inr, length-append, append_assoc,
}
use bio_auth.Common.Bytes.{to_be, from_be, from_be-to_be, length-to_be}
use bio_auth.Common.Bits.{and_1f, or_shift_5}
use bio_auth.Common.Int.{ℤ, pos, negsuc, IsI64}
use bio_auth.Text.{IsStr}
use bio_auth.Cbor.Writer.{
  head_bytes, major_array, major_uint, major_negint, major_text, major_bytes,
}
use bio_auth.Cbor.Reader.{Reader, take, argument_of, argument, head}
use bio_auth.Cbor.Reader
use bio_auth.Cbor.Items.{array_item, uint_item, int_item, text_item, bytes_item}
use bio_auth.Cbor.Position.{Sees, Reads, advance, Sees-advance, take-Reads}

advance-advance : (r : Reader) (m n : ℕ) → advance (advance r m) n ≡ advance r (m + n)
advance-advance r m n =
    let e : r.pos + m + n ≡ r.pos + (m + n) = omega arith in ap (λ (k : ℕ). record r { pos = k }) e

argument_of-Reads :
    (width short v : ℕ)
    → v < 256 ^ width
    → short < v
    → Reads (argument_of width short) (to_be width v) v
unfolding argument_of
argument_of-Reads width short v h low r rest s =
    let value : from_be 0 (to_be width v) ≡ v = from_be-to_be width v h in
    let size : length (to_be width v) ≡ width = length-to_be width v in
    let taken : take width r ≡ ok (to_be width v, advance r (length (to_be width v))) =
      subst (λ (k : ℕ). take k r ≡ ok (to_be width v, advance r (length (to_be width v)))) size
        (take-Reads (to_be width v) r rest s) in
    rw taken (ground (arith, value, size))

head_step :
    (b v : ℕ) (ys : List ℕ)
    → Reads (argument (bit_and b 0x1f)) ys v
    → Reads head (b ∷ ys) (b / 32, v)
unfolding head
head_step b v ys reads r rest s =
    let taken = take-Reads (b ∷ []) r (ys ++ rest) s in
    let read = reads (advance r 1) rest (Sees-advance r (b ∷ []) (ys ++ rest) s) in
    rw (taken, read, advance-advance r 1 (length ys))
      (let e : 1 + length ys ≡ suc (length ys) = omega arith in
        ap (λ (k : ℕ). ok ((b / 32, v), advance r k)) e)

argument-Reads_inline : (v : ℕ) → v ≤ 23 → Reads (argument v) [] v
unfolding argument
argument-Reads_inline v h r rest s =
    let e : r.pos + 0 ≡ r.pos = omega arith in
    ground (arith, ap (λ (k : ℕ). record r { pos = k }) e)

-- A first byte falls apart into the major type and the low five bits.
from_first :
    (m low v : ℕ) (ys : List ℕ)
    → m < 8
    → low < 32
    → Reads (argument low) ys v
    → Reads head (bit_or (m * 32 % 256) low ∷ ys) (m, v)
from_first m low v ys hm hl reads =
    let mask : bit_and (m * 32 + low) 0x1f ≡ low = and_1f _ (omega arith) ∙ omega arith in
    let major : (m * 32 + low) / 32 ≡ m = omega arith in
    rw (or_shift_5 m low hm hl) (
      subst (λ (k : ℕ). Reads head ((m * 32 + low) ∷ ys) (k, v)) major
        (head_step (m * 32 + low) v ys (rw mask reads)))

-- One of the four long forms, from its first byte.
long_form :
    (m additional width short v : ℕ)
    → m < 8
    → additional < 32
    → v < 256 ^ width
    → short < v
    → ((r : Reader) → argument additional r ≡ argument_of width short r)
    → Reads head (bit_or (m * 32 % 256) additional ∷ to_be width v) (m, v)
long_form m additional width short v hm ha h low same =
    from_first m additional v (to_be width v) hm ha
      λ r rest s. same r ∙ argument_of-Reads width short v h low r rest s

pub head-Reads : (m v : ℕ) → m < 8 → v < 2 ^ 64 → Reads head (head_bytes m v) (m, v)
unfolding head_bytes
head-Reads m v hm hv = elim (Bool-cases (leb v 23)) [
  | inl c1 ↦
      let low : v % 256 ≡ v = ground arith in
      rw (c1, low) (from_first m v v [] hm (ground arith) (argument-Reads_inline v (ground arith)))
  | inr c1 ↦ elim (Bool-cases (leb v 0xff)) [
    | inl c2 ↦ rw (c1, c2) (one_byte m v hm (ground arith) (ground arith))
    | inr c2 ↦ elim (Bool-cases (leb v 0xffff)) [
      | inl c3 ↦
          let low : v % 2 ^ 16 ≡ v = ground arith in
          rw (c1, c2, c3, low)
            (long_form m 25 2 0xff v hm (omega arith) (ground arith) (ground arith)
              (unfold argument in λ r. refl))
      | inr c3 ↦ elim (Bool-cases (leb v 0xffff_ffff)) [
        | inl c4 ↦
            let low : v % 2 ^ 32 ≡ v = ground arith in
            rw (c1, c2, c3, c4, low)
              (long_form m 26 4 0xffff v hm (omega arith) (ground arith) (ground arith)
                (unfold argument in λ r. refl))
        | inr c4 ↦
            rw (c1, c2, c3, c4)
              (long_form m 27 8 0xffff_ffff v hm (omega arith) (omega arith) (ground arith)
                (unfold argument in λ r. refl))
      ]
    ]
  ]
]
  where
    one_byte :
        (m v : ℕ)
        → m < 8
        → 23 < v
        → v < 256
        → Reads head (bit_or (m * 32 % 256) 24 ∷ v % 256 ∷ []) (m, v)
    one_byte m v hm low h =
        unfold to_be argument in long_form m 24 1 23 v hm (omega arith) h low (λ r. refl)

expect-Reads : (m v : ℕ) → m < 8 → v < 2 ^ 64 → Reads (Reader.expect m) (head_bytes m v) v
unfolding Reader.expect
expect-Reads m v hm hv r rest s = rw (head-Reads m v hm hv r rest s) (ground arith)

pub array-Reads : (n : ℕ) → n < 2 ^ 64 → Reads Reader.array (array_item n) n
unfolding Reader.array
array-Reads n h = expect-Reads major_array n (omega arith) h

pub uint-Reads : (n : ℕ) → n < 2 ^ 64 → Reads Reader.uint (uint_item n) n
unfolding Reader.uint
uint-Reads n h = expect-Reads major_uint n (omega arith) h

pub int-Reads : (v : ℤ) → IsI64 v → Reads Reader.int (int_item v) v
unfolding Reader.int
int-Reads (pos n) h r rest s =
    rw (head-Reads major_uint n (omega arith) (omega arith) r rest s) (ground arith)
int-Reads (negsuc n) h r rest s =
    rw (head-Reads major_negint n (omega arith) (omega arith) r rest s) (ground arith)

-- The head of a string, and then as many bytes.
payload :
    (m : ℕ) (t : List ℕ) (r : Reader) (rest : List ℕ)
    → m < 8
    → length t < 2 ^ 64
    → Sees r ((head_bytes m (length t) ++ t) ++ rest)
    → (r' : Reader) × (Reader.expect m r ≡ ok (length t, r'))
      × (take (length t) r' ≡ ok (t, advance r (length (head_bytes m (length t) ++ t))))
payload m t r rest hm h s =
    let front : List ℕ = head_bytes m (length t) in
    let s' = subst (Sees r) (append_assoc front t rest) s in
    let size : length front + length t ≡ length (front ++ t) = sym (length-append front t) in
    (
      advance r (length front),
      expect-Reads m (length t) hm h r (t ++ rest) s',
      take-Reads t (advance r (length front)) rest (Sees-advance r front (t ++ rest) s')
          ∙ ap (λ (k : Reader). ok (t, k)) (advance-advance r (length front) (length t))
          ∙ ap (λ (k : ℕ). ok (t, advance r k)) size,
    )

pub text-Reads : (t : List ℕ) → IsStr t → length t < 2 ^ 64 → Reads Reader.text (text_item t) t
unfolding Reader.text text_item
text-Reads t u h r rest s =
    let (r', e1, e2) = payload major_text t r rest (omega arith) h s in
    rw (e1) (ground (arith, e2, u))

pub bytes-Reads : (t : List ℕ) → length t < 2 ^ 64 → Reads Reader.bytes (bytes_item t) t
unfolding Reader.bytes bytes_item
bytes-Reads t h r rest s =
    let (r', e1, e2) = payload major_bytes t r rest (omega arith) h s in rw e1 (ground (arith, e2))
