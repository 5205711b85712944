-- ===== src/Cbor/Reader.antt =====
-- The `Reader` of phone-auth-protocol/src/cbor.rs. A method returns its value and the reader behind
-- it; no caller looks at a reader after an error.
use bio_auth.Common.{
  ℕ, ◌+◌, ◌/◌, ◌^◌, ◌==◌, List, [], ◌∷◌, Result, ok, err, ◌>>=◌, ◌>>◌, refuse, not, bit_and,
  if◌then◌else◌, leb, ltb, length, take as first_bytes, drop,
}
use bio_auth.Common.Bytes.{from_be}
use bio_auth.Common.Int.{ℤ, pos, negsuc}
use bio_auth.Text.{is_utf8}
use bio_auth.Cbor.Writer.{major_uint, major_negint, major_bytes, major_text, major_array}

pub data CborError : Type 0 where
  truncated trailing_bytes non_canonical_integer unsupported_item : CborError
  unexpected_type out_of_range invalid_utf8 : CborError

pub record Reader : Type 0 where
  pub buf : List ℕ
  pub pos : ℕ

abbrev pub Read : Type 0 → Type 0
Read A = Reader → Result CborError (A × Reader)

abbrev pub new : List ℕ → Reader
new buf = record { buf = buf; pos = 0 }

-- `usize` is 64 bits wide. `buf.get(pos..end)` is `None` if the end lies behind the buffer's.
unfoldable pub take : ℕ → Read (List ℕ)
take len r = do
  let end = r.pos + len
  refuse (leb (2 ^ 64) end) out_of_range
  refuse (ltb (length r.buf) end) truncated
  ok (first_bytes len (drop r.pos r.buf), record r { pos = end })

abbrev pub first : List ℕ → Result CborError ℕ
first [] = err truncated
first (b ∷ bs) = ok b

-- One of the arms for 24 to 27: an argument of `width` bytes, which must be above `short`.
unfoldable pub argument_of : ℕ → ℕ → Read ℕ
argument_of width short r = do
  (bs, r') ← take width r
  refuse (not (length bs == width)) truncated
  let value = from_be 0 bs
  refuse (leb value short) non_canonical_integer
  ok (value, r')

unfoldable pub argument : ℕ → Read ℕ
argument additional r =
    if leb additional 23
    then ok (additional, r)
    else (if additional == 24
        then argument_of 1 23 r
        else (if additional == 25
            then argument_of 2 0xff r
            else (if additional == 26
                then argument_of 4 0xffff r
                else (if additional == 27
                    then argument_of 8 0xffff_ffff r
                    else err unsupported_item))))

unfoldable pub head : Read (ℕ × ℕ)
head r = do
  (bs, r1) ← take 1 r
  initial ← first bs
  let major = initial / 32
  (value, r2) ← argument (bit_and initial 0x1f) r1
  ok ((major, value), r2)

unfoldable pub expect : ℕ → Read ℕ
expect major r = do
  ((actual, value), r') ← head r
  refuse (not (actual == major)) unexpected_type
  ok (value, r')

unfoldable pub array : Read ℕ
array r = expect major_array r

unfoldable pub uint : Read ℕ
uint r = expect major_uint r

-- `i64::try_from` of a `u64`, and `-1 - value`.
abbrev pub signed : ℕ → ℕ → Result CborError ℤ
signed major value =
    if major == major_uint
    then (if ltb value (2 ^ 63) then ok (pos value) else err out_of_range)
    else (if major == major_negint
        then (if ltb value (2 ^ 63) then ok (negsuc value) else err out_of_range)
        else err unexpected_type)

unfoldable pub int : Read ℤ
int r = do ((major, value), r') ← head r; number ← signed major value; ok (number, r')

unfoldable pub text : Read (List ℕ)
text r = do
  (len, r1) ← expect major_text r
  refuse (leb (2 ^ 64) len) out_of_range
  (bs, r2) ← take len r1
  refuse (not (is_utf8 bs)) invalid_utf8
  ok (bs, r2)

unfoldable pub bytes : Read (List ℕ)
bytes r = do (len, r1) ← expect major_bytes r; refuse (leb (2 ^ 64) len) out_of_range; take len r1

unfoldable pub finish : Reader → Result CborError (Unit {0})
finish r = refuse (not (r.pos == length r.buf)) trailing_bytes
