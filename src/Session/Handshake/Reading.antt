-- ===== src/Session/Handshake/Reading.antt =====
-- The readers of handshake.rs of phone-auth-session/src on what the writer wrote, and the envelope.
use bio_auth.Common.{
  ℕ, ◌≤◌, ◌<◌, ◌^◌, ◌≡◌, refl, sym, subst, List, [], ◌∷◌, ◌++◌, append-nil, append_assoc, arith,
  length, ok, String, is_empty, ◌||◌, ltb, false,
}
use bio_auth.Cbor.Reader
use bio_auth.Cbor.Reader.{Reader, Read, new}
use bio_auth.Cbor.Items.{array_item, text_item, bytes_item, writes}
use bio_auth.Cbor.RoundTrip.{array-Reads, text-Reads, bytes-Reads}
use bio_auth.Cbor.Position.{Reads, Sees, Sees-new, Sees-advance, finish-Sees}
use bio_auth.Protocol.Codec.{Reads-bind, Reads-pure, check-Reads}
use bio_auth.Protocol.Items.{IsText, refuse_same}
use bio_auth.Session.Handshake.Parser.{Parser, item, expect, fixed}
use bio_auth.Session.Handshake.Hello.{envelope, envelope_fields, decode_envelope, read_whole}

pub item-Reads :
    {A : Type 0} (p : Read A) (xs : List ℕ) (a : A) → Reads p xs a → Reads (item p) xs a
item-Reads p xs a reads r rest s = rw (reads r rest s)

pub whole-Reads :
    {A : Type 0} (fields : Parser A) (xs : List ℕ) (a : A)
    → Reads fields xs a
    → length xs < 2 ^ 64
    → read_whole fields xs ≡ ok a
unfolding read_whole
whole-Reads fields xs a reads short =
    let start : Sees (new xs) (xs ++ []) =
      subst (Sees (new xs)) (sym (append-nil xs)) (Sees-new xs short) in
    let read = reads (new xs) [] start in
    let done = finish-Sees _ (Sees-advance (new xs) xs [] start) in rw (read, done) refl

pub expect-Reads :
    (p : Read ℕ) (xs : List ℕ) (n : ℕ) (message : String)
    → Reads p xs n
    → Reads (expect p n message) xs tt
unfolding expect
expect-Reads p xs n message reads =
    subst (λ (z : List ℕ). Reads (expect p n message) z tt) (append-nil xs)
      (Reads-bind _ _ xs [] n tt (item-Reads p xs n reads)
        (check-Reads _ tt (refuse_same n n _ refl)))

pub fixed-Reads :
    (message : String) (t : List ℕ) → length t ≡ 32 → Reads (fixed message) (bytes_item t) t
unfolding fixed
fixed-Reads message t size =
    subst (λ (xs : List ℕ). Reads (fixed message) xs t) (append-nil (bytes_item t))
      (Reads-bind _ _ (bytes_item t) [] t t
        (item-Reads Reader.bytes _ t (bytes-Reads t (omega arith)))
        (Reads-bind _ _ [] [] tt t (check-Reads _ tt (refuse_same (length t) 32 _ size))
          (Reads-pure t)))

pub text-field : (t : List ℕ) → IsText t → Reads (item Reader.text) (text_item t) t
text-field t h = item-Reads Reader.text _ t (text-Reads t h.0 h.1)

pub bytes-field : (t : List ℕ) → length t < 2 ^ 64 → Reads (item Reader.bytes) (bytes_item t) t
bytes-field t h = item-Reads Reader.bytes _ t (bytes-Reads t h)

unfoldable pub envelope_items : List ℕ → List ℕ → List ℕ
envelope_items unsigned signature =
    array_item 2 ++ (bytes_item unsigned ++ (bytes_item signature ++ []))

pub envelope-items : (u s : List ℕ) → envelope u s ≡ envelope_items u s
unfolding envelope envelope_items
envelope-items u s = simp (envelope, envelope_items, writes, append_assoc, append-nil)

-- The size of a frame that `decode_envelope` takes.
abbrev pub Fits : List ℕ → Type 0
Fits frame = (1 ≤ length frame) × (length frame ≤ 8192)

size_ok : (frame : List ℕ) → Fits frame → (is_empty frame || ltb 8192 (length frame)) ≡ false
size_ok [] h = absurd (omega arith)
size_ok (x ∷ frame) h = ground arith

envelope-Reads :
    (u s : List ℕ)
    → length u < 2 ^ 64
    → length s < 2 ^ 64
    → Reads envelope_fields (envelope u s) (u, s)
unfolding envelope_fields envelope_items
envelope-Reads u s hu hs = rw (envelope-items u s) (
    Reads-bind _ _ _ _ tt (u, s) (expect-Reads Reader.array _ 2 _ (array-Reads 2 (omega arith)))
      (Reads-bind _ _ _ _ u (u, s) (bytes-field u hu)
        (Reads-bind _ _ _ _ s (u, s) (bytes-field s hs) (Reads-pure (u, s)))))

pub decode_envelope-envelope :
    (u s : List ℕ)
    → length u < 2 ^ 64
    → length s < 2 ^ 64
    → Fits (envelope u s)
    → decode_envelope (envelope u s) ≡ ok (u, s)
unfolding decode_envelope
decode_envelope-envelope u s hu hs fits =
    rw (size_ok (envelope u s) fits)
      (whole-Reads envelope_fields (envelope u s) (u, s) (envelope-Reads u s hu hs) (omega arith))

pub decode_envelope_size :
    (frame : List ℕ) {u s : List ℕ} → decode_envelope frame ≡ ok (u, s) → Fits frame
unfolding decode_envelope
decode_envelope_size [] e = cc
decode_envelope_size (x ∷ frame) e = ground arith
