-- ===== src/Cbor/StrictHead.antt =====
-- The reader of phone-auth-protocol/src/cbor.rs on any bytes: the heads that it takes off.
use bio_auth.Common.{
  ℕ, ◌*◌, ◌/◌, ◌%◌, ◌≤◌, ◌<◌, ◌^◌, ◌≡◌, sym, subst, ap, ◌∙◌, arith, List, [], ◌∷◌, ◌++◌, ok, length,
  bit_and, bit_or, leb, ◌==◌, ◌>>=◌, true, false, not, append-nil, ==_iff,
}
use bio_auth.Common.Bytes.{AreBytes, to_be, from_be, to_be-from_be, from_be-lt}
use bio_auth.Common.Bits.{and_1f, or_shift_5}
use bio_auth.Cbor.Writer.{head_bytes}
use bio_auth.Cbor.Reader.{take, argument_of, argument, head, first}
use bio_auth.Cbor.Position.{
  Takes, Takes-bind, Takes-ok, Takes-refuse, Takes-weaken, take-Takes, Takes-if, Takes-err,
}

abbrev ArgumentIs : ℕ → ℕ → List ℕ → ℕ → Type 0
ArgumentIs width short used v = (used ≡ to_be width v) × (short < v) × (v < 256 ^ width)

argument_fact :
    (width short : ℕ) (used bs : List ℕ)
    → AreBytes used
    → used ≡ bs
    → length bs ≡ width
    → leb (from_be 0 bs) short ≡ false
    → ArgumentIs width short (used ++ []) (from_be 0 bs)
argument_fact width short used bs spent same size low =
    let clean : AreBytes bs = subst AreBytes same spent in
    let back : to_be width (from_be 0 bs) ≡ bs =
      subst (λ (k : ℕ). to_be k (from_be 0 bs) ≡ bs) size (to_be-from_be bs clean) in
    let bound : from_be 0 bs < 256 ^ width =
      subst (λ (k : ℕ). from_be 0 bs < 256 ^ k) size (from_be-lt bs clean) in
    (append-nil used ∙ same ∙ sym back, ground arith, bound)

argument_of-Takes : (width short : ℕ) → Takes (argument_of width short) (ArgumentIs width short)
unfolding argument_of
argument_of-Takes width short =
    Takes-bind (take width) _ _ (ArgumentIs width short) (take-Takes width)
      λ front bs spent (same, size). Takes-refuse (not (length bs == width)) _ _ _ λ _.
        Takes-refuse (leb (from_be 0 bs) short) _ _ _
          λ low. Takes-ok (from_be 0 bs) _ (argument_fact width short front bs spent same size low)

-- With the first byte before them, the bytes of an argument are a head in its shortest form.
abbrev Completes : ℕ → List ℕ → ℕ → Type 0
Completes low used v =
    ((m : ℕ) → m < 8 → bit_or (m * 32 % 256) low ∷ used ≡ head_bytes m v) × (v < 2 ^ 64)

spelled_1 : (used : List ℕ) (v : ℕ) → AreBytes used → ArgumentIs 1 23 used v → Completes 24 used v
unfolding head_bytes to_be
spelled_1 used v _ (e, low, high) = (λ m hm. rw e (ground arith), omega arith)

spelled_2 : (used : List ℕ) (v : ℕ) → AreBytes used → ArgumentIs 2 0xff used v → Completes 25 used v
unfolding head_bytes
spelled_2 used v _ (e, low, high) =
    let same : v % 2 ^ 16 ≡ v = omega arith in (λ m hm. rw (e, same) (ground arith), omega arith)

spelled_4 :
    (used : List ℕ) (v : ℕ) → AreBytes used → ArgumentIs 4 0xffff used v → Completes 26 used v
unfolding head_bytes
spelled_4 used v _ (e, low, high) =
    let same : v % 2 ^ 32 ≡ v = omega arith in (λ m hm. rw (e, same) (ground arith), omega arith)

spelled_8 :
    (used : List ℕ) (v : ℕ) → AreBytes used → ArgumentIs 8 0xffff_ffff used v → Completes 27 used v
unfolding head_bytes
spelled_8 used v _ (e, low, high) = (λ m hm. rw e (ground arith), omega arith)

spelled_0 : (v : ℕ) → v ≤ 23 → Completes v [] v
unfolding head_bytes
spelled_0 v h = (λ m hm. ground arith, omega arith)

-- An arm of the match on the low five bits.
arm :
    (low n width short : ℕ)
    → ((used : List ℕ) (v : ℕ) → AreBytes used → ArgumentIs width short used v → Completes n used v)
    → (low == n) ≡ true
    → Takes (argument_of width short) (Completes low)
arm low n width short completes c =
    subst (λ (k : ℕ). Takes (argument_of width short) (Completes k)) (sym ((==_iff low n).0 c))
      (Takes-weaken (ArgumentIs width short) (Completes n) completes
        (argument_of-Takes width short))

argument-Takes : (low : ℕ) → Takes (argument low) (Completes low)
unfolding argument
argument-Takes low =
    Takes-if (leb low 23) _ _ _ (λ c. Takes-ok low _ (spelled_0 low (ground arith)))
      λ _. Takes-if (low == 24) _ _ _ (arm low 24 1 23 spelled_1) λ _.
        Takes-if (low == 25) _ _ _ (arm low 25 2 0xff spelled_2) λ _.
          Takes-if (low == 26) _ _ _ (arm low 26 4 0xffff spelled_4)
            λ _. Takes-if (low == 27) _ _ _ (arm low 27 8 0xffff_ffff spelled_8) λ _. Takes-err _ _

abbrev pub HeadIs : List ℕ → ℕ × ℕ → Type 0
HeadIs used h = (used ≡ head_bytes h.0 h.1) × (h.0 < 8) × (h.1 < 2 ^ 64)

head_fact :
    (b : ℕ) (used : List ℕ) (v : ℕ)
    → b < 256
    → Completes (bit_and b 0x1f) used v
    → HeadIs (b ∷ used) (b / 32, v)
head_fact b used v h (whole, bound) =
    let low : bit_and b 0x1f ≡ b % 32 = and_1f b h in
    let back : bit_or (b / 32 * 32 % 256) (bit_and b 0x1f) ≡ b =
      rw low (or_shift_5 (b / 32) (b % 32) (omega arith) (omega arith) ∙ omega arith) in
    (ap (λ (k : ℕ). k ∷ used) (sym back) ∙ whole (b / 32) (omega arith), omega arith, bound)

after_first :
    (front bs : List ℕ)
    → AreBytes front
    → front ≡ bs
    → length bs ≡ 1
    → Takes
        (λ r. first bs >>= λ initial.
          argument (bit_and initial 0x1f) r >>= λ x. ok ((initial / 32, x.0), x.1))
        (λ used h. HeadIs (front ++ used) h)
after_first front [] spent same size = absurd (omega arith)
after_first front (b ∷ c ∷ bs) spent same size = absurd (omega arith)
after_first front (b ∷ []) spent same size =
    Takes-bind (argument (bit_and b 0x1f)) _ (Completes (bit_and b 0x1f)) _ (argument-Takes _)
      λ used v _ whole.
        Takes-ok (b / 32, v) _
          (rw (append-nil used, same) (head_fact b used v (subst AreBytes same spent).0 whole))

pub head-Takes : Takes head HeadIs
unfolding head
head-Takes =
    Takes-bind (take 1) _ _ HeadIs (take-Takes 1)
      λ front bs spent (same, size). after_first front bs spent same size
