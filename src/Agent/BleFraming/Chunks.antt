-- ===== src/Agent/BleFraming/Chunks.antt =====
-- phone-auth-agent/src/ble_framing.rs: the chunks that an encoder makes.
use native.Mathlib.Nat.{add-div_right, div-eq_of_lt}
use bio_auth.Common.{
  ℕ, zero, suc, ◌+◌, ◌-◌, ◌/◌, ◌≡◌, ◌≤◌, ◌<◌, refl, sym, ap, ◌∙◌, arith, List, [], ◌∷◌, ◌++◌, false,
  ok, leb, length, length-drop, take, drop, take-append-drop, Bool-cases, inl, inr, is_empty, All,
}
use bio_auth.Agent.BleFraming.{chunks_of, number, header, div_ceil, encode, BleFrameEncoder}

abbrev pub nth : List (List ℕ) → ℕ → List ℕ
nth [] i = []
nth (x ∷ xs) zero = x
nth (x ∷ xs) (suc i) = nth xs i

abbrev pub concat : List (List ℕ) → List ℕ
concat [] = []
concat (x ∷ xs) = x ++ concat xs

concat-chunks_of :
    (rounds size : ℕ) (frame : List ℕ)
    → length frame ≤ rounds
    → 1 ≤ size
    → concat (chunks_of rounds size frame) ≡ frame
unfolding chunks_of
concat-chunks_of zero size [] h pos = refl
concat-chunks_of zero size (b ∷ frame) h pos = absurd (omega arith)
concat-chunks_of (suc rounds) size [] h pos = refl
concat-chunks_of (suc rounds) size (b ∷ frame) h pos =
    ap (◌++◌ (take size (b ∷ frame))) (
      concat-chunks_of rounds size (drop size (b ∷ frame))
        (omega (arith, length-drop size (b ∷ frame))) pos)
    ∙ take-append-drop size (b ∷ frame)

abbrev pub AreFull : List (List ℕ) → Type 0
AreFull = All (λ part. 1 ≤ length part)

chunks_of-AreFull :
    (rounds size : ℕ) (frame : List ℕ) → 1 ≤ size → AreFull (chunks_of rounds size frame)
unfolding chunks_of
chunks_of-AreFull zero size frame pos = tt
chunks_of-AreFull (suc rounds) size [] pos = tt
chunks_of-AreFull (suc rounds) (suc size) (b ∷ frame) pos =
    (omega arith, chunks_of-AreFull rounds (suc size) (drop size frame) pos)
chunks_of-AreFull (suc rounds) zero (b ∷ frame) pos = absurd (omega arith)

length-chunks_of :
    (rounds size : ℕ) (frame : List ℕ)
    → length frame ≤ rounds
    → 1 ≤ size
    → length (chunks_of rounds size frame) ≡ div_ceil (length frame) size
unfolding chunks_of div_ceil
length-chunks_of zero size [] h pos =
    sym (div-eq_of_lt {n = 0 + (size - 1)} {m = size} (omega arith))
length-chunks_of zero size (b ∷ frame) h pos = absurd (omega arith)
length-chunks_of (suc rounds) size [] h pos =
    sym (div-eq_of_lt {n = 0 + (size - 1)} {m = size} (omega arith))
length-chunks_of (suc rounds) size (b ∷ frame) h pos =
    let n = length (b ∷ frame) in
    let left = length-drop size (b ∷ frame) in
    let ih = length-chunks_of rounds size (drop size (b ∷ frame)) (omega (arith, left)) pos in
    elim (Bool-cases (leb size n)) [
      | inl long ↦
          let shift : n + (size - 1) ≡ n - size + (size - 1) + size = ground (arith, long) in
          omega (
            arith,
            ih,
            ap (λ (k : ℕ). (k + (size - 1)) / size) left,
            ap (λ (k : ℕ). k / size) shift,
            add-div_right (n - size + (size - 1)) {k = size} pos,
          )
      | inr short ↦
          let none_left : n - size ≡ 0 = ground (arith, short) in
          let shift : n + (size - 1) ≡ n - 1 + size = omega arith in
          let small : n - 1 < size = ground (arith, short) in
          omega (
            arith,
            ih,
            ap (λ (k : ℕ). (k + (size - 1)) / size) left,
            ap (λ (k : ℕ). (k + (size - 1)) / size) none_left,
            div-eq_of_lt {n = 0 + (size - 1)} {m = size} (omega arith),
            ap (λ (k : ℕ). k / size) shift,
            add-div_right (n - 1) {k = size} pos,
            div-eq_of_lt {n = n - 1} {m = size} small,
          )
    ]

pub length-number :
    (id total index : ℕ) (parts : List (List ℕ))
    → length (number id total index parts) ≡ length parts
unfolding number
length-number id total index [] = refl
length-number id total index (part ∷ parts) = ap suc (length-number id total (suc index) parts)

pub nth-number :
    (id total index i : ℕ) (parts : List (List ℕ))
    → i < length parts
    → nth (number id total index parts) i ≡ header id (index + i) total ++ nth parts i
unfolding number
nth-number id total index i [] h = absurd (omega arith)
nth-number id total index zero (part ∷ parts) h =
    ap (λ (k : ℕ). header id k total ++ part) (omega arith)
nth-number id total index (suc i) (part ∷ parts) h =
    nth-number id total (suc index) i parts (omega arith)
    ∙ ap (λ (k : ℕ). header id k total ++ nth parts i) (omega arith)

pub nth-AreFull :
    (parts : List (List ℕ)) (i : ℕ) → AreFull parts → i < length parts → 1 ≤ length (nth parts i)
nth-AreFull [] i f h = absurd (omega arith)
nth-AreFull (part ∷ parts) zero (first, f) h = first
nth-AreFull (part ∷ parts) (suc i) (first, f) h = nth-AreFull parts i f (omega arith)

-- What `encode` makes: the numbered parts of the frame.
pub record Encoded (e : BleFrameEncoder) (frame : List ℕ) (chunks : List (List ℕ)) : Type 0 where
  pub parts : List (List ℕ)
  pub whole : concat parts ≡ frame
  pub full : AreFull parts
  pub some_parts : 1 ≤ length parts
  pub few : length parts ≤ 1024
  pub small : length frame ≤ 8192
  pub made : chunks ≡ number e.next_frame_id (length parts) 0 parts

some_frame : (frame : List ℕ) → is_empty frame ≡ false → 1 ≤ length frame
some_frame [] h = ground arith
some_frame (b ∷ frame) h = omega arith

some_part : (parts : List (List ℕ)) → 1 ≤ length (concat parts) → 1 ≤ length parts
some_part [] h = h
some_part (part ∷ parts) h = omega arith

pub encode_ok :
    (e : BleFrameEncoder) (frame : List ℕ) (att : ℕ) (chunks : List (List ℕ))
    → (encode e frame att).1 ≡ ok chunks
    → Encoded e frame chunks
unfolding encode
encode_ok e frame att chunks h =
    let size = att - 6 in
    let parts = chunks_of (length frame) size frame in
    let pos : 1 ≤ size = ground arith in
    let count = length-chunks_of (length frame) size frame (omega arith) pos in
    let whole = concat-chunks_of (length frame) size frame (omega arith) pos in
    let any : is_empty frame ≡ false = ground arith in
    let short : length frame ≤ 8192 = ground arith in
    let few : div_ceil (length frame) size ≤ 1024 = ground arith in
    let made : chunks ≡ number e.next_frame_id (div_ceil (length frame) size) 0 parts =
      ground arith in
    record {
      parts = parts;
      whole = whole;
      full = chunks_of-AreFull (length frame) size frame pos;
      some_parts = some_part parts (omega (arith, ap length whole, some_frame frame any));
      few = omega (arith, count, few);
      small = short;
      made = made ∙ ap (λ (n : ℕ). number e.next_frame_id n 0 parts) (sym count);
    }
