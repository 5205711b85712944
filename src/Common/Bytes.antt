-- ===== src/Common/Bytes.antt =====
-- Rust's `to_be_bytes` and `from_be_bytes`, for every width.
use Prim.Native.Nat.{ℕ, zero, suc, ◌+◌, ◌*◌, ◌/◌, ◌%◌, ◌^◌, ◌≤◌, ◌<◌}
use mathlib.Core.Path.{◌≡◌, refl, ap, ◌∙◌}
use mathlib.Core.List.{List, [], ◌∷◌, ◌++◌, append-nil, append_assoc}
use native.Mathlib.Omega.{arith}
use native.Mathlib.Nat.{pow-suc}
use bio_auth.Common.Lists.{length, length-append, All, All-append, all}
use bio_auth.Common.Tests.{ltb}
use mathlib.Core.Bool.{Bool, true}

abbrev pub IsByte : ℕ → Type 0
IsByte b = b < 256

abbrev pub AreBytes : List ℕ → Type 0
AreBytes = All IsByte

-- The `k` low bytes of `v`, most significant first.
unfoldable pub to_be : ℕ → ℕ → List ℕ
to_be zero v = []
to_be (suc k) v = to_be k (v / 256) ++ v % 256 ∷ []

unfoldable pub from_be : ℕ → List ℕ → ℕ
from_be acc [] = acc
from_be acc (b ∷ bs) = from_be (acc * 256 + b) bs

pub length-to_be : (k v : ℕ) → length (to_be k v) ≡ k
unfolding to_be
length-to_be zero v = refl
length-to_be (suc k) v =
    omega (arith, length-append (to_be k (v / 256)) (v % 256 ∷ []), length-to_be k (v / 256))

pub to_be-AreBytes : (k v : ℕ) → AreBytes (to_be k v)
unfolding to_be
to_be-AreBytes zero v = tt
to_be-AreBytes (suc k) v =
    All-append IsByte (to_be k (v / 256)) (v % 256 ∷ []) (to_be-AreBytes k (v / 256)) (omega arith)

from_be-snoc :
    (acc : ℕ) (bs : List ℕ) (b : ℕ) → from_be acc (bs ++ b ∷ []) ≡ from_be acc bs * 256 + b
unfolding from_be
from_be-snoc acc [] b = refl
from_be-snoc acc (x ∷ bs) b = from_be-snoc (acc * 256 + x) bs b

-- Writing and reading back.
pub from_be-to_be : (k v : ℕ) → v < 256 ^ k → from_be 0 (to_be k v) ≡ v
unfolding to_be
from_be-to_be zero v h = unfold from_be in omega arith
from_be-to_be (suc k) v h =
    omega
      (arith, from_be-snoc 0 (to_be k (v / 256)) (v % 256), from_be-to_be k (v / 256) (high k v h))
  where
    high : (k v : ℕ) → v < 256 ^ suc k → v / 256 < 256 ^ k
    high k v h = omega (arith, pow-suc 256 k)

low_step : (j acc b : ℕ) → b < 256 → to_be (suc j) (acc * 256 + b) ≡ to_be j acc ++ b ∷ []
unfolding to_be
low_step j acc b hb =
    let high : (acc * 256 + b) / 256 ≡ acc = omega arith in
    let low : (acc * 256 + b) % 256 ≡ b = omega arith in rw (high, low)

to_be-from_be_acc :
    (bs : List ℕ) (j acc : ℕ)
    → AreBytes bs
    → to_be (j + length bs) (from_be acc bs) ≡ to_be j acc ++ bs
unfolding from_be
to_be-from_be_acc [] j acc h =
    let e : j + 0 ≡ j = omega arith in rw append-nil (ap (λ (n : ℕ). to_be n acc) e)
to_be-from_be_acc (b ∷ bs) j acc h =
    let e : j + suc (length bs) ≡ suc j + length bs = omega arith in
    ap (λ (n : ℕ). to_be n (from_be (acc * 256 + b) bs)) e
    ∙ to_be-from_be_acc bs (suc j) (acc * 256 + b) h.1
    ∙ rw (low_step j acc b h.0) (append_assoc (to_be j acc) (b ∷ []) bs)

-- Reading and writing back: a byte string is the only one of its width for its number.
pub to_be-from_be : (bs : List ℕ) → AreBytes bs → to_be (length bs) (from_be 0 bs) ≡ bs
to_be-from_be bs h =
    let e : length bs ≡ 0 + length bs = omega arith in
    ap (λ (n : ℕ). to_be n (from_be 0 bs)) e ∙ unfold to_be in to_be-from_be_acc bs 0 0 h

scale : (acc b t : ℕ) → b < 256 → (acc * 256 + b + 1) * t ≤ (acc + 1) * (256 * t)
scale acc b t h = grind arith

from_be-lt_acc :
    (bs : List ℕ) (acc : ℕ) → AreBytes bs → from_be acc bs < (acc + 1) * 256 ^ length bs
unfolding from_be
from_be-lt_acc [] acc h = omega arith
from_be-lt_acc (b ∷ bs) acc h = omega (
  arith,
  from_be-lt_acc bs (acc * 256 + b) h.1,
  scale acc b (256 ^ length bs) h.0,
  ap (λ (t : ℕ). (acc + 1) * t) (pow-suc 256 (length bs)),
)

pub from_be-lt : (bs : List ℕ) → AreBytes bs → from_be 0 bs < 256 ^ length bs
from_be-lt bs h = omega (arith, from_be-lt_acc bs 0 h)

abbrev pub is_byte : ℕ → Bool
is_byte b = ltb b 256

pub all→AreBytes : (xs : List ℕ) → all is_byte xs ≡ true → AreBytes xs
all→AreBytes [] h = tt
all→AreBytes (x ∷ xs) h = (ground arith, all→AreBytes xs (ground arith))
