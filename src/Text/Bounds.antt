-- ===== src/Text/Bounds.antt =====
-- How many bytes a string of a bounded number of UTF-16 units can take.
use bio_auth.Common.{
  ℕ, ◌+◌, ◌*◌, ◌≤◌, ◌≡◌, ◌⊎◌, inl, inr, some, List, [], ◌∷◌, ◌++◌, arith, length, Option-cases,
}
use bio_auth.Text.{Pending, between, feed, chars_from, chars, is_utf8, IsStr, units, utf16_len}

-- `used` bytes of the current character are behind; a character of four bytes lies above 0xffff.
abbrev Partway : Pending → ℕ → Type 0
Partway p used =
    (p.need ≡ 0) × (used ≡ 0)
    ⊎ (1 ≤ p.need) × (used + p.need ≤ 3)
    ⊎ (p.need ≡ 3) × (used ≡ 1) × (128 ≤ p.lo) × (16 + 128 ≤ p.acc * 64 + p.lo)
    ⊎ (p.need ≡ 2) × (used ≡ 2) × (128 ≤ p.lo) × (16 ≤ p.acc)
    ⊎ (p.need ≡ 1) × (used ≡ 3) × (128 ≤ p.lo) × (1024 ≤ p.acc)

feed_step :
    (p q : Pending) (b used : ℕ) (out : List ℕ)
    → Partway p used
    → feed p b ≡ some (q, out)
    → ((out ≡ []) × Partway q (used + 1)) ⊎ ((q ≡ between) × (used + 1 ≤ 3 * units out))
unfolding feed
feed_step p q b used out w e = ground arith

units-append : (cs ds : List ℕ) → units (cs ++ ds) ≡ units cs + units ds
units-append [] ds = omega arith
units-append (c ∷ cs) ds = omega (arith, units-append cs ds)

chars_from-length :
    (bs : List ℕ) (p : Pending) (used : ℕ) (cs : List ℕ)
    → Partway p used
    → chars_from p bs ≡ some cs
    → length bs + used ≤ 3 * units cs
unfolding chars_from
chars_from-length [] p used cs w e = ground arith
chars_from-length (b ∷ bs) p used cs w e = elim (Option-cases (feed p b)) [
  | inl f ↦ cc (rw (f, chars_from) at e)
  | inr ((q, out), f) ↦ elim (Option-cases (chars_from q bs)) [
    | inl g ↦ cc (rw (f, chars_from, g) at e)
    | inr (rest, g) ↦ ground (
      arith,
      feed_step p q b used out w f,
      chars_from-length bs q (used + 1) rest,
      chars_from-length bs q 0 rest,
      units-append out rest,
    )
  ]
]

-- A string takes at most three bytes for each UTF-16 unit.
pub length-utf16_len : (bs : List ℕ) → IsStr bs → length bs ≤ 3 * utf16_len bs
unfolding is_utf8 utf16_len chars
length-utf16_len bs h = elim (Option-cases (chars_from between bs)) [
  | inl e ↦ ground arith
  | inr (cs, e) ↦ ground (arith, chars_from-length bs between 0 cs)
]
