-- ===== src/Cbor/Items.antt =====
-- The bytes of one item of phone-auth-protocol/src/cbor.rs, and the methods of the writer in terms
-- of them.
use bio_auth.Common.{ℕ, ◌≡◌, refl, ap, List, ◌++◌, append_assoc, length}
use bio_auth.Common.Int.{ℤ, pos, negsuc}
use bio_auth.Cbor.Writer.{
  Writer, head_bytes, extend, major_array, major_uint, major_negint, major_text, major_bytes,
}
use bio_auth.Cbor.Writer

abbrev pub array_item : ℕ → List ℕ
array_item n = head_bytes major_array n

abbrev pub uint_item : ℕ → List ℕ
uint_item n = head_bytes major_uint n

abbrev pub int_item : ℤ → List ℕ
int_item (pos n) = head_bytes major_uint n
int_item (negsuc n) = head_bytes major_negint n

unfoldable pub text_item : List ℕ → List ℕ
text_item t = head_bytes major_text (length t) ++ t

unfoldable pub bytes_item : List ℕ → List ℕ
bytes_item t = head_bytes major_bytes (length t) ++ t

pub array-extend : (n : ℕ) (w : Writer) → Writer.array n w ≡ extend w (array_item n)
unfolding Writer.array Writer.head
array-extend n w = refl

pub uint-extend : (n : ℕ) (w : Writer) → Writer.uint n w ≡ extend w (uint_item n)
unfolding Writer.uint Writer.head
uint-extend n w = refl

pub int-extend : (v : ℤ) (w : Writer) → Writer.int v w ≡ extend w (int_item v)
unfolding Writer.int Writer.head
int-extend (pos n) w = refl
int-extend (negsuc n) w = refl

pub text-extend : (t : List ℕ) (w : Writer) → Writer.text t w ≡ extend w (text_item t)
unfolding Writer.text Writer.head text_item
text-extend t w =
    ap (λ (b : List ℕ). record w { buf = b })
      (append_assoc w.buf (head_bytes major_text (length t)) t)

pub bytes-extend : (t : List ℕ) (w : Writer) → Writer.bytes t w ≡ extend w (bytes_item t)
unfolding Writer.bytes Writer.head bytes_item
bytes-extend t w =
    ap (λ (b : List ℕ). record w { buf = b })
      (append_assoc w.buf (head_bytes major_bytes (length t)) t)

pub ruleset writes = (array-extend, uint-extend, int-extend, text-extend, bytes-extend)
