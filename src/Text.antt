-- ===== src/Text.antt =====
-- What the crates use of Rust's `str`: a string is its bytes, and `core::str::from_utf8` is the check
-- that they are well-formed UTF-8. With it, `utf16_len` of phone-auth-protocol/src/lib.rs.
pub mod Bounds
use bio_auth.Common.{
  ℕ, ◌+◌, ◌-◌, ◌≡◌, ◌*◌, ◌==◌, Bool, true, false, ◌||◌, Option, none, some, List, [], ◌∷◌, ◌++◌,
  if◌then◌else◌, leb, within, all,
}

-- The bytes of one character that are still to come: how many, the bits read so far, and the range
-- that the next byte must lie in.
pub record Pending : Type 0 where
  pub need : ℕ
  pub acc : ℕ
  pub lo : ℕ
  pub hi : ℕ

abbrev pub between : Pending
between = record { need = 0; acc = 0; lo = 0; hi = 0 }

abbrev pub expecting : ℕ → ℕ → ℕ → ℕ → Option (Pending × List ℕ)
expecting need acc lo hi = some (record { need = need; acc = acc; lo = lo; hi = hi }, [])

-- The first byte of a character, by the table of the Unicode standard.
abbrev pub lead : ℕ → Option (Pending × List ℕ)
lead b =
    if leb b 0x7f
    then some (between, b ∷ [])
    else (if within 0xc2 0xdf b
        then expecting 1 (b - 0xc0) 0x80 0xbf
        else (if b == 0xe0
            then expecting 2 0 0xa0 0xbf
            else (if b == 0xed
                then expecting 2 13 0x80 0x9f
                else (if within 0xe1 0xef b
                    then expecting 2 (b - 0xe0) 0x80 0xbf
                    else (if b == 0xf0
                        then expecting 3 0 0x90 0xbf
                        else (if within 0xf1 0xf3 b
                            then expecting 3 (b - 0xf0) 0x80 0xbf
                            else (if b == 0xf4 then expecting 3 4 0x80 0x8f else none)))))))

unfoldable pub feed : Pending → ℕ → Option (Pending × List ℕ)
feed p b =
    if p.need == 0
    then lead b
    else (if within p.lo p.hi b
        then (let acc = p.acc * 64 + (b - 0x80) in
            if p.need == 1 then some (between, acc ∷ []) else expecting (p.need - 1) acc 0x80 0xbf)
        else none)

unfoldable pub chars_from : Pending → List ℕ → Option (List ℕ)
chars_from p [] = if p.need == 0 then some [] else none
chars_from p (b ∷ bs) = elim (feed p b) [
  | none ↦ none
  | some (q, out) ↦ elim (chars_from q bs) [ none ↦ none | some rest ↦ some (out ++ rest) ]
]

-- The characters of a byte string; `none` if it is not UTF-8.
unfoldable pub chars : List ℕ → Option (List ℕ)
unfolding chars_from feed
chars bs = chars_from between bs

unfoldable pub is_utf8 : List ℕ → Bool
unfolding chars
is_utf8 bs = elim (chars bs) [ none ↦ false | some _ ↦ true ]

abbrev pub IsStr : List ℕ → Type 0
IsStr bs = is_utf8 bs ≡ true

-- `char::is_whitespace`.
abbrev pub is_whitespace : ℕ → Bool
is_whitespace c =
    within 0x09 0x0d c
    || c == 0x20
    || c == 0x85
    || c == 0xa0
    || c == 0x1680
    || within 0x2000 0x200a c
    || within 0x2028 0x2029 c
    || c == 0x202f
    || c == 0x205f
    || c == 0x3000

-- `value.trim().is_empty()`.
unfoldable pub is_blank : List ℕ → Bool
unfolding chars
is_blank bs = elim (chars bs) [ none ↦ true | some cs ↦ all is_whitespace cs ]

-- `char::len_utf16`.
abbrev pub len_utf16 : ℕ → ℕ
len_utf16 c = if leb 0x10000 c then 2 else 1

abbrev pub units : List ℕ → ℕ
units [] = 0
units (c ∷ cs) = len_utf16 c + units cs

unfoldable pub utf16_len : List ℕ → ℕ
unfolding chars
utf16_len bs = elim (chars bs) [ none ↦ 0 | some cs ↦ units cs ]
