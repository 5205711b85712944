-- ===== src/Session/Framing/Resumable/Waits.antt =====
-- phone-auth-session/src/framing.rs: read_frame_resumable goes on until the frame is there.
use bio_auth.Common.{
  ℕ, zero, suc, ◌≡◌, ◌≤◌, ◌-◌, refl, ap, List, [], ◌∷◌, ◌++◌, Result, ok, err, length, take, drop,
  ltb, arith, Bool-cases, inl, inr, length-append, length-drop,
}
use bio_auth.Session.Framing.{IoError, invalid_data, invalid_input, unexpected_eof, would_block}
use bio_auth.Session.Framing.Resumable.{
  Arrival, arrived, timed_out, read, Connection, chunk_size, absorb, fill, fill_to,
}
use bio_auth.Session.Framing.Resumable.Keeps.{flat, total}

abbrev pub timeouts : List Arrival → ℕ
timeouts [] = 0
timeouts (timed_out ∷ stream) = suc (timeouts stream)
timeouts (arrived bytes ∷ stream) = timeouts stream

-- A read of no bytes is the end of the stream.
abbrev pub IsLive : List Arrival → Type 0
IsLive [] = Unit
IsLive (timed_out ∷ stream) = IsLive stream
IsLive (arrived bytes ∷ stream) = (1 ≤ length bytes) × IsLive stream

-- What a read may return.
abbrev Reads : List Arrival → List Arrival → Result IoError (List ℕ) → Type 0
Reads s t (ok []) = flat t ≡ []
Reads s t (ok (b ∷ bytes)) = IsLive t × (timeouts t ≤ timeouts s)
Reads s t (err would_block) = IsLive t × (suc (timeouts t) ≤ timeouts s)
Reads s t (err unexpected_eof) = ⊥
Reads s t (err invalid_data) = ⊥
Reads s t (err invalid_input) = ⊥

taken :
    (s t : List Arrival) (n : ℕ) (bytes : List ℕ)
    → 1 ≤ n
    → 1 ≤ length bytes
    → IsLive t
    → timeouts t ≤ timeouts s
    → Reads s t (ok (take n bytes))
taken s t n [] pos some live low = absurd (omega arith)
taken s t zero (b ∷ bytes) pos some live low = absurd (omega arith)
taken s t (suc n) (b ∷ bytes) pos some live low = (live, low)

whole :
    (s t : List Arrival) (bytes : List ℕ)
    → 1 ≤ length bytes
    → IsLive t
    → timeouts t ≤ timeouts s
    → Reads s t (ok bytes)
whole s t [] some live low = absurd (omega arith)
whole s t (b ∷ bytes) some live low = (live, low)

reads : (n : ℕ) (s : List Arrival) → 1 ≤ n → IsLive s → Reads s (read n s).0 (read n s).1
unfolding read
reads n [] pos live = refl
reads n (timed_out ∷ s) pos live = (live, omega arith)
reads n (arrived bytes ∷ s) pos (some, live) = elim (Bool-cases (ltb n (length bytes))) [
  | inl long ↦
      let left : 1 ≤ length (drop n bytes) = ground (arith, length-drop n bytes) in
      rw (long) (
        taken (arrived bytes ∷ s) (arrived (drop n bytes) ∷ s) n bytes pos some (left, live)
          (omega arith))
  | inr fits ↦ rw (fits) (whole (arrived bytes ∷ s) s bytes some live (omega arith))
]

-- What filling up to `target` bytes may end with.
abbrev pub Ends : ℕ → Connection → Connection → Result IoError (Unit {0}) → Type 0
Ends target c d (ok done) = IsLive d.stream × (timeouts d.stream ≤ timeouts c.stream)
Ends target c d (err would_block) = IsLive d.stream × (suc (timeouts d.stream) ≤ timeouts c.stream)
Ends target c d (err unexpected_eof) = suc (length (total d)) ≤ target
Ends target c d (err invalid_data) = ⊥
Ends target c d (err invalid_input) = ⊥

later :
    (target : ℕ) (c d f : Connection) (r : Result IoError (Unit {0}))
    → timeouts d.stream ≤ timeouts c.stream
    → Ends target d f r
    → Ends target c f r
later target c d f (ok done) low (live, e) = (live, omega arith)
later target c d f (err would_block) low (live, e) = (live, omega arith)
later target c d f (err unexpected_eof) low e = e
later target c d f (err invalid_data) low e = absurd e
later target c d f (err invalid_input) low e = absurd e

absorb-Ends :
    (rounds target : ℕ) (c : Connection) (s : List Arrival) (got : Result IoError (List ℕ))
    → suc (length c.pending) ≤ target
    → Reads c.stream s got
    → ((d : Connection)
        → IsLive d.stream
        → Ends target d (fill rounds target d).0 (fill rounds target d).1)
    → Ends target c (absorb (fill rounds target) c s got).0 (absorb (fill rounds target) c s got).1
unfolding absorb
absorb-Ends rounds target c s (ok []) short h next =
    omega (arith, length-append c.pending (flat s), ap length h)
absorb-Ends rounds target c s (ok (b ∷ bytes)) short (live, low) next =
    let d : Connection = record { stream = s; pending = c.pending ++ (b ∷ bytes) } in
    let x = fill rounds target d in later target c d x.0 x.1 low (next d live)
absorb-Ends rounds target c s (err would_block) short h next = h
absorb-Ends rounds target c s (err unexpected_eof) short h next = absurd h
absorb-Ends rounds target c s (err invalid_data) short h next = absurd h
absorb-Ends rounds target c s (err invalid_input) short h next = absurd h

chunk_pos : (m : ℕ) → 1 ≤ m → 1 ≤ chunk_size m
unfolding chunk_size
chunk_pos m h = elim (Bool-cases (ltb m 1024)) [
  | inl small ↦ rw (small) h
  | inr large ↦ rw (large) (omega arith)
]

fill-Ends :
    (rounds target : ℕ) (c : Connection)
    → IsLive c.stream
    → Ends target c (fill rounds target c).0 (fill rounds target c).1
unfolding fill
fill-Ends zero target c live = (live, omega arith)
fill-Ends (suc rounds) target c live = elim (Bool-cases (ltb (length c.pending) target)) [
  | inl short ↦
      let n = chunk_size (target - length c.pending) in
      rw (short) (
        absorb-Ends rounds target c (read n c.stream).0 (read n c.stream).1 (ground arith)
          (reads n c.stream (chunk_pos (target - length c.pending) (ground arith)) live)
          (fill-Ends rounds target))
  | inr there ↦ rw (there) (live, omega arith)
]

pub fill_to-Ends :
    (target : ℕ) (c : Connection)
    → IsLive c.stream
    → Ends target c (fill_to target c).0 (fill_to target c).1
unfolding fill_to
fill_to-Ends target c live = fill-Ends (target - length c.pending) target c live
