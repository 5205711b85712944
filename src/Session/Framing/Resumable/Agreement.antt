-- ===== src/Session/Framing/Resumable/Agreement.antt =====
-- phone-auth-session/src/framing.rs: read_frame_resumable against read_frame.
use bio_auth.Common.{
  ℕ, ◌≡◌, ◌≤◌, ◌+◌, refl, sym, ap, ◌∙◌, subst, List, ◌++◌, ◌||◌, Result, ok, err, length, take,
  drop, ltb, ◌==◌, arith, append_assoc, Bool-cases, inl, inr, false, take-append-drop, drop-drop,
  length-drop, length-take,
}
use bio_auth.Common.Bytes.{from_be}
use bio_auth.Session.Framing.{
  IoError, max_frame, prefix, invalid_data, invalid_input, unexpected_eof, would_block, read_exact,
  read_frame,
}
use bio_auth.Session.Framing.Resumable.{
  Connection, deliver, read_announced, fill_to, read_body, read_frame_resumable,
}
use bio_auth.Session.Framing.Resumable.Keeps.{flat, total, Collects, fill_to_lem}
use bio_auth.Session.Framing.RoundTrip.{read_exact_front}

within :
    (n : ℕ) (xs ys : List ℕ)
    → n ≤ length xs
    → read_exact n (xs ++ ys) ≡ ok (take n xs, drop n xs ++ ys)
within n xs ys h =
    let split : take n xs ++ (drop n xs ++ ys) ≡ xs ++ ys =
      sym (append_assoc (take n xs) (drop n xs) ys)
      ∙ ap (λ (z : List ℕ). z ++ ys) (take-append-drop n xs) in
    subst (λ (k : ℕ). read_exact k (xs ++ ys) ≡ ok (take n xs, drop n xs ++ ys))
      (length-take n xs h)
      (ap (read_exact (length (take n xs))) (sym split)
        ∙ read_exact_front (take n xs) (drop n xs ++ ys))

-- What a call is to return: the frame that read_frame takes off the bytes, or its refusal of the
-- announced length, or else an error with every byte still there.
abbrev pub Agrees : Connection → Connection → Result IoError (List ℕ) → Type 0
Agrees c d (ok frame) = read_frame (total c) ≡ ok (frame, total d)
Agrees c d (err invalid_data) = read_frame (total c) ≡ err invalid_data
Agrees c d (err invalid_input) = total d ≡ total c
Agrees c d (err unexpected_eof) = total d ≡ total c
Agrees c d (err would_block) = total d ≡ total c

failed :
    (c d : Connection) (e : IoError) → total d ≡ total c → ¬ (e ≡ invalid_data) → Agrees c d (err e)
failed c d invalid_data h other = absurd (other refl)
failed c d invalid_input h other = h
failed c d unexpected_eof h other = h
failed c d would_block h other = h

-- The bytes of `c` begin with a prefix that announces `len`, a legal length.
module _ (c d : Connection) (same : total d ≡ total c) (head : prefix ≤ length d.pending) where
  abbrev pub len : ℕ
  len = from_be 0 (take prefix d.pending)

  pub first :
      read_exact prefix (total c)
      ≡ ok (take prefix d.pending, drop prefix d.pending ++ flat d.stream)
  first = ap (read_exact prefix) (sym same) ∙ within prefix d.pending (flat d.stream) head

  deliver_lem :
      (f : Connection) (r : Result IoError (Unit {0}))
      → (len == 0 || ltb max_frame len) ≡ false
      → Collects (prefix + len) d (f, r)
      → Agrees c (deliver len f r).0 (deliver len f r).1
  unfolding deliver read_frame
  deliver_lem f (err e) fits (kept, there, kind) =
      failed c f e (kept ∙ same) (λ p. kind (ap (λ (z : IoError). err z) p))
  deliver_lem f (ok done) fits (kept, there, kind) =
      let enough : prefix + len ≤ length f.pending = there refl in
      let again : read_exact prefix (total c)
          ≡ ok (take prefix f.pending, drop prefix f.pending ++ flat f.stream) =
        ap (read_exact prefix) (sym (kept ∙ same))
        ∙ within prefix f.pending (flat f.stream) (omega arith) in
      let behind : drop prefix d.pending ++ flat d.stream ≡ drop prefix f.pending ++ flat f.stream =
        ground (arith, first, again) in
      rw (first, fits, behind)
        (within len (drop prefix f.pending) (flat f.stream)
            (omega (arith, length-drop prefix f.pending))
          ∙ ap (λ (z : List ℕ). ok (take len (drop prefix f.pending), z ++ flat f.stream))
              (drop-drop prefix len f.pending))

  body_lem : Agrees c (read_body len d).0 (read_body len d).1
  unfolding read_body read_frame
  body_lem = elim (Bool-cases (len == 0 || ltb max_frame len)) [
    | inl bad ↦ rw (bad, first, bad) refl
    | inr fits ↦
        let x = fill_to (prefix + len) d in
        rw (fits) (deliver_lem x.0 x.1 fits (fill_to_lem (prefix + len) d))
  ]

announced_lem :
    (c d : Connection) (r : Result IoError (Unit {0}))
    → Collects prefix c (d, r)
    → Agrees c (read_announced d r).0 (read_announced d r).1
unfolding read_announced
announced_lem c d (err e) (same, there, kind) =
    failed c d e same (λ p. kind (ap (λ (z : IoError). err z) p))
announced_lem c d (ok done) (same, there, kind) = body_lem c d same (there refl)

-- One call, whatever arrives, returns the frame that read_frame takes off the kept and the coming bytes
-- and keeps exactly the rest, or reports invalid data as read_frame does, or fails with no byte lost.
pub read_frame_resumable_lem :
    (c : Connection) → Agrees c (read_frame_resumable c).0 (read_frame_resumable c).1
unfolding read_frame_resumable
read_frame_resumable_lem c =
    let x = fill_to prefix c in announced_lem c x.0 x.1 (fill_to_lem prefix c)
