-- ===== src/Protocol/Bounds.antt =====
-- How long the items of a checked message can be.
use bio_auth.Common.{
  ℕ, ◌+◌, ◌*◌, ◌≤◌, ◌≡◌, arith, List, ◌++◌, ok, length, length-append, false, String, ◌%◌, [],
}
use bio_auth.Common.Int.{ℤ, pos, negsuc}
use bio_auth.Common.Bytes.{length-to_be}
use bio_auth.Text.{is_blank, utf16_len}
use bio_auth.Text.Bounds.{length-utf16_len}
use bio_auth.Cbor.Writer.{head_bytes}
use bio_auth.Cbor.Items.{array_item, uint_item, int_item, text_item, bytes_item}
use bio_auth.Protocol.Defs.{check_text}
use bio_auth.Protocol.Items.{IsText, header_items}

pub check_text_ok :
    (field : String) (t : List ℕ) (max : ℕ)
    → check_text field t max ≡ ok tt
    → (is_blank t ≡ false) × (utf16_len t ≤ max)
unfolding check_text
check_text_ok field t max e = ground arith

pub length-checked :
    (field : String) (t : List ℕ) (max : ℕ)
    → IsText t
    → check_text field t max ≡ ok tt
    → length t ≤ 3 * max
length-checked field t max typed e =
    omega (arith, length-utf16_len t typed.0, (check_text_ok field t max e).1)

pub length-head_bytes : (m v : ℕ) → length (head_bytes m v) ≤ 9
unfolding head_bytes
length-head_bytes m v =
    ground (arith, length-to_be 2 (v % 65536), length-to_be 4 (v % 4294967296), length-to_be 8 v)

pub head_bytes_pos : (m v : ℕ) → 1 ≤ length (head_bytes m v)
unfolding head_bytes
head_bytes_pos m v = ground arith

pub length-int_item : (v : ℤ) → length (int_item v) ≤ 9
length-int_item (pos n) = length-head_bytes 0 n
length-int_item (negsuc n) = length-head_bytes 1 n

pub length-text_item : (t : List ℕ) → length (text_item t) ≤ 9 + length t
unfolding text_item
length-text_item t =
    omega (arith, length-append (head_bytes 3 (length t)) t, length-head_bytes 3 (length t))

pub length-bytes_item : (t : List ℕ) → length (bytes_item t) ≤ 9 + length t
unfolding bytes_item
length-bytes_item t =
    omega (arith, length-append (head_bytes 2 (length t)) t, length-head_bytes 2 (length t))

pub length-header_items :
    (n t : ℕ) → (1 ≤ length (header_items n t)) × (length (header_items n t) ≤ 18)
length-header_items n t = omega (
  arith,
  head_bytes_pos 4 n,
  length-head_bytes 4 n,
  length-head_bytes 0 t,
  length-append (array_item n) (uint_item t ++ []),
  length-append (uint_item t) [],
)

pub at_most : (xs ys : List ℕ) {a b : ℕ} → length xs ≤ a → length ys ≤ b → length (xs ++ ys) ≤ a + b
at_most xs ys h k = omega (arith, length-append xs ys)

-- The item of a checked text.
pub checked_item :
    (field : String) (t : List ℕ) (max : ℕ)
    → IsText t
    → check_text field t max ≡ ok tt
    → length (text_item t) ≤ 9 + 3 * max
checked_item field t max typed e =
    omega (arith, length-text_item t, length-checked field t max typed e)

pub array_item_size : (n : ℕ) (t : List ℕ) → length t ≡ n → length (bytes_item t) ≤ 9 + n
array_item_size n t e = omega (arith, length-bytes_item t)
