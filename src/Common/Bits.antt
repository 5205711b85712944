-- ===== src/Common/Bits.antt =====
-- The masks and shifts on one byte that the sources use, as arithmetic: tables, checked by evaluation.
use Prim.Native.Nat.{ℕ, zero, suc, ◌+◌, ◌*◌, ◌/◌, ◌%◌, ◌<◌, bit_and, bit_or}
use mathlib.Core.Path.{◌≡◌, refl}
use mathlib.Core.Bool.{Bool, true, ◌&&◌}
use native.Mathlib.Omega.{arith}
use bio_auth.Common.Tests.{◌==◌}

agree_below : ℕ → (ℕ → ℕ) → (ℕ → ℕ) → Bool
agree_below zero f g = true
agree_below (suc n) f g = f n == g n && agree_below n f g

agree_below_sound : (n : ℕ) (f g : ℕ → ℕ) (x : ℕ) → agree_below n f g ≡ true → x < n → f x ≡ g x
unfolding agree_below
agree_below_sound zero f g x e h = absurd (omega arith)
agree_below_sound (suc n) f g x e h = ground (arith, agree_below_sound n f g x)

pub and_1f : (b : ℕ) → b < 256 → bit_and b 0x1f ≡ b % 32
unfolding agree_below
and_1f b = agree_below_sound 256 (λ x. bit_and x 0x1f) (λ x. x % 32) b refl

or_table : (x : ℕ) → x < 256 → bit_or (x / 32 * 32) (x % 32) ≡ x
unfolding agree_below
or_table x = agree_below_sound 256 (λ x. bit_or (x / 32 * 32) (x % 32)) (λ x. x) x refl

-- `major << 5 | argument` on a `u8`.
pub or_shift_5 : (m a : ℕ) → m < 8 → a < 32 → bit_or (m * 32 % 256) a ≡ m * 32 + a
or_shift_5 m a hm ha =
    let high : (m * 32 + a) / 32 * 32 ≡ m * 32 % 256 = omega arith in
    let low : (m * 32 + a) % 32 ≡ a = omega arith in
    rw (high, low) at (or_table (m * 32 + a) (omega arith))

pub and_0f : (b : ℕ) → b < 256 → bit_and b 0x0f ≡ b % 16
unfolding agree_below
and_0f b = agree_below_sound 256 (λ x. bit_and x 0x0f) (λ x. x % 16) b refl

pub or_nibbles : (b : ℕ) → b < 256 → bit_or (b / 16 * 16 % 256) (b % 16) ≡ b
unfolding agree_below
or_nibbles b = agree_below_sound 256 (λ x. bit_or (x / 16 * 16 % 256) (x % 16)) (λ x. x) b refl
