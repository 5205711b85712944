-- ===== src/Cbor/Canonical.antt =====
-- Each kind of item of phone-auth-protocol/src/cbor.rs, the writer against the reader.
use bio_auth.Common.{ℕ, ◌<◌, ◌^◌, ◌≡◌, ◌↔◌, sym, subst, ap, ◌∙◌, List, ◌++◌, Result, ok, length}
use bio_auth.Common.Bytes.{AreBytes}
use bio_auth.Common.Int.{ℤ, IsI64}
use bio_auth.Text.{IsStr}
use bio_auth.Cbor.Writer
use bio_auth.Cbor.Reader
use bio_auth.Cbor.Reader.{Reader, new}
use bio_auth.Cbor.Items.{
  array_item, uint_item, int_item, text_item, bytes_item, array-extend, uint-extend, int-extend,
  text-extend, bytes-extend,
}
use bio_auth.Cbor.Position.{
  Takes-weaken, Reads, Takes, Sees, Sees-new, Sees-advance, max_usize, advance,
}
use bio_auth.Cbor.RoundTrip.{array-Reads, uint-Reads, int-Reads, text-Reads, bytes-Reads}
use bio_auth.Cbor.Strict.{array-Takes, uint-Takes, int-Takes, text-Takes, bytes-Takes}

-- A reading that ends where `rest` begins.
abbrev pub Leaves : {E A : Type 0} → (Reader → Result E (A × Reader)) → List ℕ → List ℕ → A → Type 0
Leaves p buf rest a = (r : Reader) × (p (new buf) ≡ ok (a, r)) × Sees r rest

module _ {E A : Type 0} (p : Reader → Result E (A × Reader)) (item : A → List ℕ) (W : A → Type 0)
    (reads : (a : A) → W a → Reads p (item a) a)
    (takes : Takes p (λ used a. (used ≡ item a) × W a)) where
  canonical :
      (buf rest : List ℕ) (a : A)
      → AreBytes buf
      → length buf < max_usize
      → Leaves p buf rest a ↔ ((buf ≡ item a ++ rest) × W a)
  canonical buf rest a clean short = (
    λ (r, e, sees).
        let t = takes (new buf) buf a r (Sees-new buf short) clean e in
        let same : t.rest ≡ rest = sym t.sees.ahead ∙ sees.ahead in
        (t.split ∙ ap (λ (l : List ℕ). l ++ t.rest) t.fact.0 ∙ ap (◌++◌ (item a)) same, t.fact.1),
    λ (split, w).
        let start : Sees (new buf) (item a ++ rest) =
          subst (Sees (new buf)) split (Sees-new buf short) in
        (
          advance (new buf) (length (item a)),
          reads a w (new buf) rest start,
          Sees-advance (new buf) (item a) rest start,
        ),
  )

-- A list head that fits 64 bits is read from a buffer, leaving the rest, exactly if the buffer is what the writer makes of
-- it followed by that rest: no other encoding of it is accepted.
pub array-canonical :
    (buf rest : List ℕ) (n : ℕ)
    → AreBytes buf
    → length buf < max_usize
    → Leaves Reader.array buf rest n
      ↔ ((buf ≡ (Writer.array n Writer.new).buf ++ rest) × n < 2 ^ 64)
array-canonical buf rest n clean short = rw (array-extend n Writer.new) (
    canonical Reader.array array_item (λ n. n < 2 ^ 64) array-Reads array-Takes buf rest n clean
      short)

-- An unsigned number that fits 64 bits is read from a buffer, leaving the rest, exactly if the buffer is what the writer makes of
-- it followed by that rest: no other encoding of it is accepted.
pub uint-canonical :
    (buf rest : List ℕ) (n : ℕ)
    → AreBytes buf
    → length buf < max_usize
    → Leaves Reader.uint buf rest n ↔ ((buf ≡ (Writer.uint n Writer.new).buf ++ rest) × n < 2 ^ 64)
uint-canonical buf rest n clean short =
    rw (uint-extend n Writer.new) (
      canonical Reader.uint uint_item (λ n. n < 2 ^ 64) uint-Reads uint-Takes buf rest n clean
        short)

-- A signed number of 64 bits is read from a buffer, leaving the rest, exactly if the buffer is what the writer makes of
-- it followed by that rest: no other encoding of it is accepted.
pub int-canonical :
    (buf rest : List ℕ) (v : ℤ)
    → AreBytes buf
    → length buf < max_usize
    → Leaves Reader.int buf rest v ↔ ((buf ≡ (Writer.int v Writer.new).buf ++ rest) × IsI64 v)
int-canonical buf rest v clean short =
    rw (int-extend v Writer.new)
      (canonical Reader.int int_item (IsI64) int-Reads int-Takes buf rest v clean short)

-- A text of valid UTF-8 is read from a buffer, leaving the rest, exactly if the buffer is what the writer makes of
-- it followed by that rest: no other encoding of it is accepted.
pub text-canonical :
    (buf rest : List ℕ) (t : List ℕ)
    → AreBytes buf
    → length buf < max_usize
    → Leaves Reader.text buf rest t ↔ (
        (buf ≡ (Writer.text t Writer.new).buf ++ rest)
        × (IsStr t × (length t < 2 ^ 64) × AreBytes t))
text-canonical buf rest t clean short = rw (text-extend t Writer.new) (
    canonical Reader.text text_item (λ t. IsStr t × (length t < 2 ^ 64) × AreBytes t)
      (λ t h. text-Reads t h.0 h.1)
      (Takes-weaken _ _ (λ used t spent (same, a, b, c). (same, (a, b, c))) text-Takes) buf rest t
      clean short)

-- A byte string whose length fits 64 bits is read from a buffer, leaving the rest, exactly if the buffer is what the writer makes of
-- it followed by that rest: no other encoding of it is accepted.
pub bytes-canonical :
    (buf rest : List ℕ) (t : List ℕ)
    → AreBytes buf
    → length buf < max_usize
    → Leaves Reader.bytes buf rest t
      ↔ ((buf ≡ (Writer.bytes t Writer.new).buf ++ rest) × ((length t < 2 ^ 64) × AreBytes t))
bytes-canonical buf rest t clean short = rw (bytes-extend t Writer.new) (
    canonical Reader.bytes bytes_item (λ t. (length t < 2 ^ 64) × AreBytes t)
      (λ t h. bytes-Reads t h.0)
      (Takes-weaken _ _ (λ used t spent (same, a, b). (same, (a, b))) bytes-Takes) buf rest t clean
      short)
