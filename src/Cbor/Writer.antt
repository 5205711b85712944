-- ===== src/Cbor/Writer.antt =====
-- The `Writer` of phone-auth-protocol/src/cbor.rs.
use bio_auth.Common.{ℕ, ◌*◌, ◌%◌, ◌^◌, List, [], ◌∷◌, ◌++◌, bit_or, if◌then◌else◌, leb, length}
use bio_auth.Common.Bytes.{to_be}
use bio_auth.Common.Int.{ℤ, pos, negsuc}

abbrev pub major_uint : ℕ
major_uint = 0

abbrev pub major_negint : ℕ
major_negint = 1

abbrev pub major_bytes : ℕ
major_bytes = 2

abbrev pub major_text : ℕ
major_text = 3

abbrev pub major_array : ℕ
major_array = 4

pub record Writer : Type 0 where
  pub buf : List ℕ

abbrev pub new : Writer
new = record { buf = [] }

abbrev pub extend : Writer → List ℕ → Writer
extend w bs = record w { buf = w.buf ++ bs }

-- A call of a method: `w ▹ uint 1`.
infixl 20 ◌▹◌
abbrev pub ◌▹◌ : Writer → (Writer → Writer) → Writer
w ▹ f = f w

-- The bytes of one head: `major << 5` on a `u8`, with the argument in the shortest form that fits.
unfoldable pub head_bytes : ℕ → ℕ → List ℕ
head_bytes major argument =
    let high = major * 32 % 256 in
    if leb argument 23
    then bit_or high (argument % 256) ∷ []
    else (if leb argument 0xff
        then bit_or high 24 ∷ argument % 256 ∷ []
        else (if leb argument 0xffff
            then bit_or high 25 ∷ to_be 2 (argument % 2 ^ 16)
            else (if leb argument 0xffff_ffff
                then bit_or high 26 ∷ to_be 4 (argument % 2 ^ 32)
                else bit_or high 27 ∷ to_be 8 argument)))

unfoldable pub head : ℕ → ℕ → Writer → Writer
head major argument w = extend w (head_bytes major argument)

unfoldable pub array : ℕ → Writer → Writer
array len w = head major_array len w

unfoldable pub uint : ℕ → Writer → Writer
uint value w = head major_uint value w

-- `(-1 - value) as u64` of a negative value `-(n + 1)` is `n`.
unfoldable pub int : ℤ → Writer → Writer
int (pos n) w = head major_uint n w
int (negsuc n) w = head major_negint n w

unfoldable pub text : List ℕ → Writer → Writer
text value w = extend (head major_text (length value) w) value

unfoldable pub bytes : List ℕ → Writer → Writer
bytes value w = extend (head major_bytes (length value) w) value
