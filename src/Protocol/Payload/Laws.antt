-- ===== src/Protocol/Payload/Laws.antt =====
-- The laws of what the payloads have in common.
use bio_auth.Common.{
  ℕ, ◌≡◌, ◌≤◌, ◌<◌, ◌^◌, ◌↔◌, refl, sym, subst, ◌++◌, [], ◌∷◌, List, arith, append-nil, ok, length,
  not, refuse, refuse-ok, map_err, >>=-eq-ok, false, ◌==◌, Result,
}
use bio_auth.Common.Bytes.{AreBytes}
use bio_auth.Cbor.Items.{array_item, uint_item}
use bio_auth.Cbor.Reader
use bio_auth.Cbor.Reader.{Reader, new, finish}
use bio_auth.Cbor.RoundTrip.{array-Reads}
use bio_auth.Cbor.Strict.{array-Takes}
use bio_auth.Cbor.Position.{
  Reads, Takes, Takes-bind, Takes-weaken, Sees, Sees-new, Sees-advance, finish-Sees,
}
use bio_auth.Protocol.Codec.{
  Reads-bind, item-Reads, item-Takes, check-Reads, check-Takes, bytes_equal_iff,
}
use bio_auth.Protocol.Items.{uint_field, uint-takes}
use bio_auth.Protocol.Parser.{Parser, item}
use bio_auth.Protocol.Defs.{
  ProtocolError, Checked, cbor, not_canonical, bytes_equal, frame_shape, unsupported_version,
}
use bio_auth.Protocol.Payload.{array_of, opening, check_payload, decode_payload}

same_length : (n m : ℕ) (x : ProtocolError) → n ≡ m → refuse (not (n == m)) x ≡ ok tt
same_length n m x e = ground arith

length_same : (n m : ℕ) → not (n == m) ≡ false → n ≡ m
length_same n m e = ground arith

pub array_of-Reads : (n : ℕ) → n < 2 ^ 64 → Reads (array_of n) (array_item n) tt
unfolding array_of
array_of-Reads n h =
    subst (λ (xs : List ℕ). Reads (array_of n) xs tt) (append-nil (array_item n))
      (Reads-bind _ _ (array_item n) [] n tt (item-Reads Reader.array _ n (array-Reads n h))
        (check-Reads _ tt (same_length n n _ refl)))

pub array_of-takes : (n : ℕ) → Takes (array_of n) (λ used _. used ≡ array_item n)
unfolding array_of
array_of-takes n =
    Takes-bind (item Reader.array) _ _ _ (item-Takes Reader.array _ array-Takes) λ u0 len _ (e0, _).
      Takes-weaken _ _
        (λ u1 _ _ (e1, kind).
          let same : len ≡ n = length_same len n (refuse-ok _ (frame_shape n len) kind) in
          rw (e0, e1, same) (append-nil (array_item n)))
        (check-Takes (refuse (not (len == n)) (frame_shape n len)))

pub opening-Reads :
    (s n : ℕ)
    → s < 2 ^ 64
    → n < 2 ^ 64
    → Reads (opening s n) (array_item n ++ (uint_item s ++ [])) tt
unfolding opening
opening-Reads s n hs h = Reads-bind _ _ _ _ tt tt (array_of-Reads n h) (
    Reads-bind _ _ _ _ s tt (uint_field s hs)
      (check-Reads _ tt (same_length s s (unsupported_version s) refl)))

pub opening-takes :
    (s n : ℕ) → Takes (opening s n) (λ used _. used ≡ array_item n ++ (uint_item s ++ []))
unfolding opening
opening-takes s n = Takes-bind (array_of n) _ _ _ (array_of-takes n) λ u0 _ _ e0.
    Takes-bind (item Reader.uint) _ _ _ uint-takes λ u1 schema _ (e1, _).
      Takes-weaken _ _
        (λ u2 _ _ (e2, kind).
          let same : schema ≡ s =
            length_same schema s (refuse-ok _ (unsupported_version schema) kind) in
          rw (e0, e1, e2, same) refl)
        (check-Takes (refuse (not (schema == s)) (unsupported_version schema)))

-- The sizes that a payload may have.
abbrev pub IsPayload : List ℕ → Type 0
IsPayload payload = (0 < length payload) × (length payload ≤ 6144)

-- A message is decoded from its own encoding, and from nothing else.
abbrev pub IsExact :
    {A : Type 0}
    → (List ℕ → Result ProtocolError A)
    → (A → Checked)
    → (A → List ℕ)
    → (A → Type 0)
    → List ℕ
    → A
    → Type 0
IsExact decode validate encode Wire payload m =
    (decode payload ≡ ok m)
    ↔ ((encode m ≡ payload) × Wire m × (validate m ≡ ok tt) × IsPayload payload)

check_payload_iff : (payload : List ℕ) → (check_payload payload ≡ ok tt) ↔ IsPayload payload
unfolding check_payload
check_payload_iff [] = ground arith
check_payload_iff (x ∷ xs) = ground arith

-- The laws of `decode_payload`, for fields that read what `encode` writes of a valid message and take
-- nothing else.
module _ {A : Type 0} (fields : Parser A) (validate : A → Checked) (encode : A → List ℕ)
    (Wire : A → Type 0) (reads : (a : A) → Wire a → validate a ≡ ok tt → Reads fields (encode a) a)
    (takes : Takes fields (λ used a. (used ≡ encode a) × Wire a)) where
  written :
      (a : A)
      → Wire a
      → validate a ≡ ok tt
      → IsPayload (encode a)
      → decode_payload fields validate encode (encode a) ≡ ok a
  unfolding decode_payload
  written a wire valid fits =
      let payload : List ℕ = encode a in
      let start : Sees (new payload) (payload ++ []) =
        subst (Sees (new payload)) (sym (append-nil payload)) (Sees-new payload (omega arith)) in
      let read = reads a wire valid (new payload) [] start in
      let done = finish-Sees _ (Sees-advance (new payload) payload [] start) in
      let same = (bytes_equal_iff payload payload).1 refl in
      rw ((check_payload_iff payload).1 fits, read, done, same, valid) refl

  taken :
      (payload : List ℕ) (a : A)
      → AreBytes payload
      → decode_payload fields validate encode payload ≡ ok a
      → (encode a ≡ payload) × Wire a × (validate a ≡ ok tt) × IsPayload payload
  unfolding decode_payload
  taken payload a clean e =
      let (u, size, e1) = >>=-eq-ok (check_payload payload) _ e in
      let ((b, r), read, e2) = >>=-eq-ok (fields (new payload)) _ e1 in
      let (v, done, e3) = >>=-eq-ok (map_err cbor (finish r)) _ e2 in
      let (x, equal, e4) =
        >>=-eq-ok (refuse (not (bytes_equal (encode b) payload)) not_canonical) _ e3 in
      let (w, valid, e5) = >>=-eq-ok (validate b) _ e4 in
      let value : b ≡ a = ground arith in
      let fits = (check_payload_iff payload).0 size in
      let t = takes (new payload) payload b r (Sees-new payload (omega arith)) clean read in
      let whole : encode b ≡ payload =
        (bytes_equal_iff (encode b) payload).0 (ground (arith, equal)) in
      rw (← value) (whole, t.fact.1, valid, fits)

  pub decoded_iff :
      (payload : List ℕ) (a : A)
      → AreBytes payload
      → (decode_payload fields validate encode payload ≡ ok a)
        ↔ ((encode a ≡ payload) × Wire a × (validate a ≡ ok tt) × IsPayload payload)
  decoded_iff payload a clean = (
    taken payload a clean,
    λ (same, wire, valid, fits).
        subst (λ (f : List ℕ). decode_payload fields validate encode f ≡ ok a) same
          (written a wire valid (subst IsPayload (sym same) fits)),
  )
