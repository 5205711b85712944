-- ===== src/Protocol/Ssh/Integers.antt =====
-- phone-auth-protocol/src/ssh.rs: the integers in a signature blob, `mpint`.
use bio_auth.Common.{
  ℕ, suc, ◌+◌, ◌-◌, ◌%◌, ◌^◌, ◌≡◌, ◌≤◌, ◌<◌, ◌⊎◌, refl, sym, ap, ◌∙◌, arith, List, [], ◌∷◌, ◌++◌,
  false, ok, if◌then◌else◌, ltb, ◌==◌, length, is_empty, append-nil, Bool-cases, inl, inr,
}
use bio_auth.Common.Bytes.{AreBytes, from_be}
use bio_auth.Protocol.Ssh.Writer
use bio_auth.Protocol.Ssh.{padded}

abbrev pub first : List ℕ → ℕ
first [] = 0
first (b ∷ bs) = b

-- Not a byte less would do: a zero in front stands only before a high first bit.
abbrev pub IsShortest : List ℕ → Type 0
IsShortest [] = Unit
IsShortest (b ∷ bs) = (1 ≤ b) ⊎ (128 ≤ first bs)

-- The integers of RFC 4251, in two's complement: of the same value, not negative, and as short as can be.
pub record IsMpint (value content : List ℕ) : Type 0 where
  pub same : from_be 0 content ≡ from_be 0 value
  pub positive : first content < 128
  pub shortest : IsShortest content

length-trim : (v : List ℕ) → length (Writer.trim v) ≤ length v
unfolding Writer.trim
length-trim [] = omega arith
length-trim (b ∷ v) = ground (arith, length-trim v)

trim_twice : (v : List ℕ) → Writer.trim (Writer.trim v) ≡ Writer.trim v
unfolding Writer.trim
trim_twice [] = refl
trim_twice (b ∷ v) = elim (Bool-cases (b == 0)) [
  | inl nought ↦ rw nought (trim_twice v)
  | inr other ↦ rw (other, other) refl
]

-- What was trimmed comes back as zeros.
zeros-trim : (v : List ℕ) → Writer.zeros (length v - length (Writer.trim v)) ++ Writer.trim v ≡ v
unfolding Writer.trim Writer.zeros
zeros-trim [] = refl
zeros-trim (b ∷ v) = elim (Bool-cases (b == 0)) [
  | inl nought ↦
      let key : b ≡ 0 = ground arith in
      let count : suc (length v) - length (Writer.trim v)
          ≡ suc (length v - length (Writer.trim v)) =
        omega (arith, length-trim v) in
      rw (nought, count, key) (ap (λ (l : List ℕ). 0 ∷ l) (zeros-trim v))
  | inr other ↦
      let none_left : suc (length v) - suc (length v) ≡ 0 = omega arith in
      rw (other, none_left) refl
]

-- The content of an `mpint`.
unfoldable pub content : List ℕ → List ℕ
content v =
    let t = Writer.trim v in if is_empty t then [] else (if Writer.is_high t then 0 ∷ t else t)

pub length-content : (v : List ℕ) → length v ≡ 32 → length (content v) ≤ 33
unfolding content
length-content v h = ground (arith, length-trim v)

pub mpint-string : (v : List ℕ) → length v ≡ 32 → Writer.mpint v ≡ Writer.string (content v)
unfolding content Writer.mpint Writer.string
mpint-string v h =
    let t = Writer.trim v in
    let small : length t ≤ 32 = omega (arith, length-trim v) in
    elim (Bool-cases (is_empty t)) [
      | inl nothing ↦ rw nothing (sym (append-nil (Writer.uint32 0)))
      | inr some_left ↦ elim (Bool-cases (Writer.is_high t)) [
        | inl high ↦
            let size : length t % 2 ^ 32 + 1 ≡ suc (length t) % 2 ^ 32 = omega arith in
            rw (some_left, high, size) refl
        | inr low ↦ rw (some_left, low) refl
      ]
    ]

trim_kept :
    (t : List ℕ)
    → Writer.trim t ≡ t
    → Writer.trim (if is_empty t then [] else (if Writer.is_high t then 0 ∷ t else t)) ≡ t
unfolding Writer.trim
trim_kept [] h = refl
trim_kept (b ∷ t) h = elim (Bool-cases (Writer.is_high (b ∷ t))) [
  | inl high ↦ rw high h
  | inr low ↦ rw low h
]

trim-content : (v : List ℕ) → Writer.trim (content v) ≡ Writer.trim v
unfolding content
trim-content v = trim_kept (Writer.trim v) (trim_twice v)

-- A scalar of 32 bytes comes back.
pub padded-content : (v : List ℕ) → length v ≡ 32 → padded (content v) ≡ ok v
unfolding padded
padded-content v h =
    let t = Writer.trim v in
    let fits : ltb 32 (length t) ≡ false = ground (arith, length-trim v, h) in
    let back : Writer.zeros (32 - length t) ++ t ≡ v =
      ap (λ (n : ℕ). Writer.zeros (n - length t) ++ t) (sym h) ∙ zeros-trim v in
    let same : Writer.trim (content v) ≡ t = trim-content v in rw (same, fits, back) refl

trim-AreBytes : (v : List ℕ) → AreBytes v → AreBytes (Writer.trim v)
unfolding Writer.trim
trim-AreBytes [] h = tt
trim-AreBytes (b ∷ v) h = elim (Bool-cases (b == 0)) [
  | inl nought ↦ rw nought (trim-AreBytes v h.1)
  | inr other ↦ rw other h
]

from_be-trim : (v : List ℕ) → from_be 0 (Writer.trim v) ≡ from_be 0 v
unfolding Writer.trim from_be
from_be-trim [] = refl
from_be-trim (b ∷ v) = elim (Bool-cases (b == 0)) [
  | inl nought ↦ let key : b ≡ 0 = ground arith in rw (nought, key) (from_be-trim v)
  | inr other ↦ rw other refl
]

trim_starts : (v : List ℕ) → (Writer.trim v ≡ []) ⊎ (1 ≤ first (Writer.trim v))
unfolding Writer.trim
trim_starts [] = inl refl
trim_starts (b ∷ v) = elim (Bool-cases (b == 0)) [
  | inl nought ↦ rw nought (trim_starts v)
  | inr other ↦ rw other (inr (ground arith))
]

IsMpint-trimmed :
    (v t : List ℕ)
    → AreBytes t
    → from_be 0 t ≡ from_be 0 v
    → (t ≡ []) ⊎ (1 ≤ first t)
    → IsMpint v (if is_empty t then [] else (if Writer.is_high t then 0 ∷ t else t))
unfolding from_be
IsMpint-trimmed v [] bytes value starts = record {
  same = value;
  positive = omega arith;
  shortest = tt;
}
IsMpint-trimmed v (b ∷ t) bytes value starts = elim (Bool-cases (Writer.is_high (b ∷ t))) [
  | inl high ↦
      rw high (record { same = value; positive = omega arith; shortest = inr (ground arith) })
  | inr low ↦
      rw low (record {
        same = value;
        positive = ground (arith, bytes.0);
        shortest = inl (nonzero starts);
      })
]
  where
    nonzero : (b ∷ t ≡ []) ⊎ (1 ≤ b) → 1 ≤ b
    nonzero (inl e) = ground arith
    nonzero (inr h) = h

pub content-IsMpint : (v : List ℕ) → AreBytes v → IsMpint v (content v)
unfolding content
content-IsMpint v bytes =
    IsMpint-trimmed v (Writer.trim v) (trim-AreBytes v bytes) (from_be-trim v) (trim_starts v)
