-- ===== src/Session/Framing/RoundTrip.antt =====
-- The two directions of phone-auth-session/src/framing.rs, against each other.
use bio_auth.Common.{
  ℕ, ◌≡◌, ◌≤◌, ◌↔◌, refl, sym, ap, subst, ◌∙◌, List, [], ◌∷◌, ◌++◌, ok, arith, take, drop, ◌||◌,
  ltb, length, length-append, take-length, drop-length, take-append-drop, length-take, All-take,
  false, ◌==◌, refuse, >>=-eq-ok, append_assoc,
}
use bio_auth.Common.Bytes.{
  AreBytes, IsByte, to_be, from_be, length-to_be, from_be-to_be, to_be-from_be,
}
use bio_auth.Session.Framing.{write_frame, read_exact, read_frame, max_frame, invalid_data}

pub read_exact_front : (xs ys : List ℕ) → read_exact (length xs) (xs ++ ys) ≡ ok (xs, ys)
unfolding read_exact
read_exact_front xs ys =
    let enough : ltb (length (xs ++ ys)) (length xs) ≡ false =
      ground (arith, length-append xs ys) in
    rw (enough, take-length xs ys, drop-length xs ys) refl

read_exact_ok :
    (n : ℕ) (s xs ys : List ℕ)
    → read_exact n s ≡ ok (xs, ys)
    → (s ≡ xs ++ ys) × (length xs ≡ n) × (xs ≡ take n s)
unfolding read_exact
read_exact_ok n s xs ys e =
    let enough : n ≤ length s = ground arith in
    let front : take n s ≡ xs = ground arith in
    let back : drop n s ≡ ys = ground arith in
    (
      rw (← front, ← back) (sym (take-append-drop n s)),
      rw (← front) (length-take n s enough),
      sym front,
    )

abbrev IsFrame : List ℕ → Type 0
IsFrame frame = (1 ≤ length frame) × (length frame ≤ 8192)

written :
    (s frame out : List ℕ)
    → write_frame s frame ≡ ok out
    → IsFrame frame × (out ≡ s ++ (to_be 4 (length frame) ++ frame))
unfolding write_frame
written s [] out e = ground arith
written s (x ∷ frame) out e = ground arith

write_ok :
    (s frame : List ℕ)
    → IsFrame frame
    → write_frame s frame ≡ ok (s ++ (to_be 4 (length frame) ++ frame))
unfolding write_frame
write_ok s [] h = absurd (omega arith)
write_ok s (x ∷ frame) h = ground arith

read_back :
    (frame rest : List ℕ)
    → IsFrame frame
    → read_frame ((to_be 4 (length frame) ++ frame) ++ rest) ≡ ok (frame, rest)
unfolding read_frame
read_back frame rest h =
    let head = to_be 4 (length frame) in
    let size = from_be-to_be 4 (length frame) (omega arith) in
    let first : read_exact 4 ((head ++ frame) ++ rest) ≡ ok (head, frame ++ rest) =
      subst (λ (k : ℕ). read_exact k ((head ++ frame) ++ rest) ≡ ok (head, frame ++ rest))
        (length-to_be 4 (length frame))
        (ap (read_exact (length head)) (append_assoc head frame rest)
          ∙ read_exact_front head (frame ++ rest)) in
    let fits : (length frame == 0 || ltb 8192 (length frame)) ≡ false = ground arith in
    rw (first, size, fits) (read_exact_front frame rest)

read_ok :
    (stream frame rest : List ℕ)
    → AreBytes stream
    → read_frame stream ≡ ok (frame, rest)
    → IsFrame frame × (stream ≡ (to_be 4 (length frame) ++ frame) ++ rest)
unfolding read_frame
read_ok stream frame rest clean e =
    let ((head, behind), first, e1) = >>=-eq-ok (read_exact 4 stream) _ e in
    let len = from_be 0 head in
    let (u, fits, second) = >>=-eq-ok (refuse (len == 0 || ltb max_frame len) invalid_data) _ e1 in
    let (split, width, front) = read_exact_ok 4 stream head behind first in
    let (split2, width2, front2) = read_exact_ok len behind frame rest second in
    let spelled : to_be 4 (length frame) ≡ head =
      ap (to_be 4) width2
      ∙ subst (λ (k : ℕ). to_be k len ≡ head) width
          (to_be-from_be head (subst AreBytes (sym front) (All-take IsByte 4 stream clean))) in
    (
      ground (arith, fits, width2),
      split
          ∙ ap (◌++◌ head) split2
          ∙ sym (append_assoc head frame rest)
          ∙ ap (λ (z : List ℕ). (z ++ frame) ++ rest) (sym spelled),
    )

-- A frame of one to 8192 bytes is read from a stream, leaving the rest, exactly if the stream is what
-- writing that frame to an empty one makes, followed by the rest.
pub read_frame_iff :
    (stream frame rest : List ℕ)
    → AreBytes stream
    → (read_frame stream ≡ ok (frame, rest))
      ↔ ((out : List ℕ) × (write_frame [] frame ≡ ok out) × (stream ≡ out ++ rest))
read_frame_iff stream frame rest clean = (
  λ e.
      let (fits, split) = read_ok stream frame rest clean e in
      (to_be 4 (length frame) ++ frame, write_ok [] frame fits, split),
  λ (out, e, split).
      let (fits, whole) = written [] frame out e in rw (split, whole) (read_back frame rest fits),
)
