-- ===== src/Protocol/Codec.antt =====
-- What the messages' `decode` functions have in common, and its laws.
use bio_auth.Common.{
  ℕ, ◌+◌, ◌≤◌, ◌<◌, ◌≡◌, refl, sym, subst, ap, ◌∙◌, ◌↔◌, arith, List, [], ◌∷◌, ◌++◌, append-nil,
  append_assoc, Result, ok, err, ◌>>=◌, ◌>>◌, refuse, map_err, >>=-eq-ok, map_err-eq-ok, not, true,
  false, Bool, length, ◌==◌, ◌&&◌, length-append,
}
use bio_auth.Common.Bytes.{AreBytes}
use bio_auth.Cbor.Reader.{Reader, new, Read, finish}
use bio_auth.Cbor.Position.{
  Sees, Reads, Takes, Takes-ok, advance, Sees-new, Sees-advance, finish-Sees, finish_ok,
}
use bio_auth.Protocol.Defs.{
  ProtocolError, cbor, not_canonical, check_frame_size, bytes_equal, zip_equal, Checked,
  max_frame_bytes,
}
use bio_auth.Protocol.Parser.{Parser, item, check}

-- The size is checked, the fields are read to the end of the frame and validated, and the message
-- must encode to the frame that it came from.
unfoldable pub decode_with :
    {A : Type 0} → Parser A → (A → Checked) → (A → List ℕ) → List ℕ → Result ProtocolError A
decode_with fields validate encode frame = do
  check_frame_size frame
  (message, reader) ← fields (new frame)
  map_err cbor (finish reader)
  validate message
  refuse (not (bytes_equal frame (encode message))) not_canonical
  ok message

zip_equal_refl : (xs : List ℕ) → zip_equal xs xs ≡ true
unfolding zip_equal
zip_equal_refl [] = refl
zip_equal_refl (x ∷ xs) = ground (arith, zip_equal_refl xs)

zip_equal→eq : (xs ys : List ℕ) → length xs ≡ length ys → zip_equal xs ys ≡ true → xs ≡ ys
unfolding zip_equal
zip_equal→eq [] [] h e = refl
zip_equal→eq [] (y ∷ ys) h e = absurd (omega arith)
zip_equal→eq (x ∷ xs) [] h e = absurd (omega arith)
zip_equal→eq (x ∷ xs) (y ∷ ys) h e = ground (arith, zip_equal→eq xs ys)

pub bytes_equal_iff : (xs ys : List ℕ) → (bytes_equal xs ys ≡ true) ↔ (xs ≡ ys)
unfolding bytes_equal
bytes_equal_iff xs ys = (
  λ e. ground (arith, zip_equal→eq xs ys),
  λ e.
      subst (λ (z : List ℕ). (length xs == length z && zip_equal xs z) ≡ true) e
        (ground (arith, zip_equal_refl xs)),
)

advance_zero : (r : Reader) → r ≡ advance r 0
advance_zero r = let e : r.pos ≡ r.pos + 0 = omega arith in ap (λ (k : ℕ). record r { pos = k }) e

pub Reads-bind :
    {E A B : Type 0} (p : Reader → Result E (A × Reader)) (f : A → Reader → Result E (B × Reader))
    (xs ys : List ℕ) (a : A) (b : B)
    → Reads p xs a
    → Reads (f a) ys b
    → Reads {E = E} (λ r. p r >>= λ x. f x.0 x.1) (xs ++ ys) b
Reads-bind p f xs ys a b first next r rest s =
    let s1 = subst (Sees r) (append_assoc xs ys rest) s in
    let e1 = first r (ys ++ rest) s1 in
    let e2 = next (advance r (length xs)) rest (Sees-advance r xs (ys ++ rest) s1) in
    let size : r.pos + length xs + length ys ≡ r.pos + length (xs ++ ys) =
      omega (arith, length-append xs ys) in
    rw e1 (e2 ∙ ap (λ (k : ℕ). ok (b, record r { pos = k })) size)

pub Reads-pure : {E A : Type 0} (a : A) → Reads {E = E} (λ r. ok (a, r)) [] a
Reads-pure a r rest s = ap (λ (z : Reader). ok (a, z)) (advance_zero r)

pub item-Reads :
    {A : Type 0} (p : Read A) (xs : List ℕ) (a : A) → Reads p xs a → Reads (item p) xs a
item-Reads p xs a reads r rest s = rw (reads r rest s)

pub check-Reads :
    {E A : Type 0} (c : Result E A) (a : A)
    → c ≡ ok a
    → Reads {E = E} (λ r. c >>= λ (x : A). ok (x, r)) [] a
check-Reads c a e r rest s = rw e (ap (λ (z : Reader). ok (a, z)) (advance_zero r))

pub item-Takes : {A : Type 0} (p : Read A) (Q : List ℕ → A → Type 0) → Takes p Q → Takes (item p) Q
item-Takes p Q takes r xs a r' s clean e = takes r xs a r' s clean (map_err-eq-ok cbor (p r) e)

pub check-Takes :
    {A : Type 0} (c : Result ProtocolError A) → Takes (check c) (λ used a. (used ≡ []) × (c ≡ ok a))
check-Takes {A} (ok x) r xs a r' s clean e =
    Takes-ok {E = ProtocolError} x
      (λ used a. (used ≡ []) × (◌≡◌ {A = Result ProtocolError A} (ok x) (ok a))) (refl, refl) r xs a
      r' s clean e
check-Takes (err x) r xs a r' s clean e = cc

abbrev pub Fits : List ℕ → Type 0
Fits frame = (0 < length frame) × (length frame ≤ max_frame_bytes)

pub check_frame_size_iff : (frame : List ℕ) → (check_frame_size frame ≡ ok tt) ↔ Fits frame
unfolding check_frame_size
check_frame_size_iff [] = ground arith
check_frame_size_iff (x ∷ xs) = ground arith

-- A refusal between two fields.
pub refuse-Takes :
    {A : Type 0} (bad : Bool) (x : ProtocolError) (f : Unit {0} → Parser A)
    (Q : List ℕ → A → Type 0)
    → (bad ≡ false → Takes (f tt) Q)
    → Takes {E = ProtocolError} (λ r. check (refuse bad x) r >>= λ y. f y.0 y.1) Q
refuse-Takes true x f Q k r xs b r' s clean e = cc
refuse-Takes false x f Q k r xs b r' s clean e = k refl r xs b r' s clean e

-- The laws of `decode_with`, for fields that read what `encode` writes and take nothing else.
module _ {A : Type 0} (fields : Parser A) (validate : A → Checked) (encode : A → List ℕ)
    (Wire : A → Type 0) (reads : (a : A) → Wire a → Reads fields (encode a) a)
    (takes : Takes fields (λ used a. (used ≡ encode a) × Wire a)) where
  pub exhausted :
      (frame : List ℕ) (a : A) (r : Reader)
      → AreBytes frame
      → Fits frame
      → fields (new frame) ≡ ok (a, r)
      → finish r ≡ ok tt
      → (encode a ≡ frame) × Wire a
  exhausted frame a r clean fits read done =
      let t = takes (new frame) frame a r (Sees-new frame (omega arith)) clean read in
      let over : t.rest ≡ [] = finish_ok r t.rest t.sees done in
      let whole : frame ≡ t.used = t.split ∙ ap (◌++◌ t.used) over ∙ append-nil t.used in
      (sym (t.fact.0) ∙ sym whole, t.fact.1)

  pub decode-encode :
      (a : A)
      → Wire a
      → validate a ≡ ok tt
      → Fits (encode a)
      → decode_with fields validate encode (encode a) ≡ ok a
  unfolding decode_with
  decode-encode a wire valid fits =
      let frame : List ℕ = encode a in
      let start : Sees (new frame) (frame ++ []) =
        subst (Sees (new frame)) (sym (append-nil frame)) (Sees-new frame (omega arith)) in
      let read = reads a wire (new frame) [] start in
      let done = finish-Sees _ (Sees-advance (new frame) frame [] start) in
      let same = (bytes_equal_iff frame frame).1 refl in
      rw ((check_frame_size_iff frame).1 fits, read, done, valid, same)

  pub decode_ok :
      (frame : List ℕ) (a : A)
      → AreBytes frame
      → decode_with fields validate encode frame ≡ ok a
      → (encode a ≡ frame) × Wire a × (validate a ≡ ok tt) × Fits frame
  unfolding decode_with
  decode_ok frame a clean e =
      let (u, size, e1) = >>=-eq-ok (check_frame_size frame) _ e in
      let ((b, r), read, e2) = >>=-eq-ok (fields (new frame)) _ e1 in
      let (v, done, e3) = >>=-eq-ok (map_err cbor (finish r)) _ e2 in
      let (w, valid, e4) = >>=-eq-ok (validate b) _ e3 in
      let (x, equal, e5) =
        >>=-eq-ok (refuse (not (bytes_equal frame (encode b))) not_canonical) _ e4 in
      let value : b ≡ a = ground arith in
      let fits = (check_frame_size_iff frame).0 size in
      let (whole, wire) =
        exhausted frame b r clean fits read (map_err-eq-ok cbor (finish r) done) in
      rw (← value) (whole, wire, valid, fits)

  -- The comparison at the end refuses nothing: what is read and validated is canonical.
  pub decode_complete :
      (frame : List ℕ) (a : A) (r : Reader)
      → AreBytes frame
      → Fits frame
      → fields (new frame) ≡ ok (a, r)
      → finish r ≡ ok tt
      → validate a ≡ ok tt
      → decode_with fields validate encode frame ≡ ok a
  unfolding decode_with
  decode_complete frame a r clean fits read done valid =
      let (whole, wire) = exhausted frame a r clean fits read done in
      let same = (bytes_equal_iff frame (encode a)).1 (sym whole) in
      rw ((check_frame_size_iff frame).1 fits, read, done, valid, same)
