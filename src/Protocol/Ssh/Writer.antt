-- ===== src/Protocol/Ssh/Writer.antt =====
-- `SshWriter` of phone-auth-protocol/src/ssh.rs. Each method is given by the bytes that it appends.
use bio_auth.Common.{
  ℕ, zero, suc, ◌+◌, ◌%◌, ◌^◌, List, [], ◌∷◌, ◌++◌, Bool, false, if◌then◌else◌, leb, ◌==◌, length,
  is_empty,
}
use bio_auth.Common.Bytes.{to_be}

unfoldable pub uint32 : ℕ → List ℕ
uint32 value = to_be 4 (value % 2 ^ 32)

abbrev pub uint8 : ℕ → List ℕ
uint8 value = value ∷ []

unfoldable pub string : List ℕ → List ℕ
string value = uint32 (length value % 2 ^ 32) ++ value

abbrev pub text : List ℕ → List ℕ
text value = string value

-- What is left from the first byte that is not zero.
unfoldable pub trim : List ℕ → List ℕ
trim [] = []
trim (b ∷ bs) = let rest = trim bs in if b == 0 then rest else b ∷ bs

-- The high bit of a byte: `byte & 0x80 != 0`.
abbrev pub is_high : List ℕ → Bool
is_high [] = false
is_high (b ∷ bs) = leb 128 (b % 256)

unfoldable pub mpint : List ℕ → List ℕ
mpint value =
    let trimmed = trim value in
    if is_empty trimmed
    then uint32 0
    else (if is_high trimmed
        then uint32 (length trimmed % 2 ^ 32 + 1) ++ (0 ∷ trimmed)
        else string trimmed)

-- `repeat_n(0, n)`.
unfoldable pub zeros : ℕ → List ℕ
zeros zero = []
zeros (suc n) = 0 ∷ zeros n
