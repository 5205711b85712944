-- ===== src/Session/Framing/Resumable/Resumption.antt =====
-- phone-auth-session/src/framing.rs: read_frame_resumable called again after each timeout, as the
-- reader in phone-auth-agent/src/qr_network.rs is.
use bio_auth.Common.{
  ℕ, zero, suc, ◌≡◌, ◌≤◌, ◌+◌, refl, ap, ◌∙◌, List, ◌++◌, ◌||◌, Result, ok, err, length, drop, ltb,
  ◌==◌, arith, Bool-cases, inl, inr, false, length-append, length-drop,
}
use bio_auth.Session.Framing.{
  IoError, max_frame, prefix, invalid_data, invalid_input, unexpected_eof, would_block, read_exact,
  read_frame,
}
use bio_auth.Session.Framing.Resumable.{
  Connection, deliver, read_announced, fill_to, read_body, read_frame_resumable,
}
use bio_auth.Session.Framing.Resumable.Keeps.{flat, total, Collects, fill_to_lem}
use bio_auth.Session.Framing.Resumable.Agreement.{Agrees, len, first, read_frame_resumable_lem}
use bio_auth.Session.Framing.Resumable.Waits.{timeouts, IsLive, Ends, fill_to-Ends}

-- What one call may end with.
abbrev Turn : Connection → Connection → Result IoError (List ℕ) → Type 0
Turn c d (ok frame) = Unit
Turn c d (err invalid_data) = Unit
Turn c d (err would_block) = IsLive d.stream × (suc (timeouts d.stream) ≤ timeouts c.stream)
Turn c d (err unexpected_eof) = read_frame (total c) ≡ err unexpected_eof
Turn c d (err invalid_input) = ⊥

short_read : (n : ℕ) (s : List ℕ) → suc (length s) ≤ n → read_exact n s ≡ err unexpected_eof
unfolding read_exact
short_read n s h = ground arith

deliver-Turn :
    (c d : Connection) (same : total d ≡ total c) (head : prefix ≤ length d.pending)
    (f : Connection) (r : Result IoError (Unit {0}))
    → (len c d same head == 0 || ltb max_frame (len c d same head)) ≡ false
    → total f ≡ total d
    → timeouts d.stream ≤ timeouts c.stream
    → Ends (prefix + len c d same head) d f r
    → Turn c (deliver (len c d same head) f r).0 (deliver (len c d same head) f r).1
unfolding deliver read_frame
deliver-Turn c d same head f (ok done) fits kept low h = tt
deliver-Turn c d same head f (err would_block) fits kept low (live, less) = (live, omega arith)
deliver-Turn c d same head f (err invalid_data) fits kept low h = tt
deliver-Turn c d same head f (err invalid_input) fits kept low h = h
deliver-Turn c d same head f (err unexpected_eof) fits kept low h =
    let behind = drop prefix d.pending ++ flat d.stream in
    let missing : suc (length behind) ≤ len c d same head = omega (
      arith,
      h,
      ap length kept,
      length-append d.pending (flat d.stream),
      length-append (drop prefix d.pending) (flat d.stream),
      length-drop prefix d.pending,
    ) in
    rw (first c d same head, fits) (short_read (len c d same head) behind missing)

body-Turn :
    (c d : Connection) (same : total d ≡ total c) (head : prefix ≤ length d.pending)
    → IsLive d.stream
    → timeouts d.stream ≤ timeouts c.stream
    → Turn c (read_body (len c d same head) d).0 (read_body (len c d same head) d).1
unfolding read_body
body-Turn c d same head live low =
    let n = len c d same head in
    elim (Bool-cases (n == 0 || ltb max_frame n)) [
      | inl bad ↦ rw (bad) tt
      | inr fits ↦
          let x = fill_to (prefix + n) d in
          rw (fits) (
            deliver-Turn c d same head x.0 x.1 fits (fill_to_lem (prefix + n) d).0 low
              (fill_to-Ends (prefix + n) d live))
    ]

announced-Turn :
    (c d : Connection) (r : Result IoError (Unit {0}))
    → Collects prefix c (d, r)
    → Ends prefix c d r
    → Turn c (read_announced d r).0 (read_announced d r).1
unfolding read_announced read_frame
announced-Turn c d (ok done) (same, there, kind) (live, low) =
    body-Turn c d same (there refl) live low
announced-Turn c d (err would_block) all h = h
announced-Turn c d (err invalid_data) all h = tt
announced-Turn c d (err invalid_input) all h = h
announced-Turn c d (err unexpected_eof) (same, there, kind) h =
    let none_read = short_read prefix (total c) (omega (arith, h, ap length same)) in
    rw (none_read) refl

turn :
    (c : Connection)
    → IsLive c.stream
    → Turn c (read_frame_resumable c).0 (read_frame_resumable c).1
unfolding read_frame_resumable
turn c live =
    let x = fill_to prefix c in
    announced-Turn c x.0 x.1 (fill_to_lem prefix c) (fill_to-Ends prefix c live)

abbrev again :
    (Connection → Connection × Result IoError (List ℕ))
    → Connection
    → Result IoError (List ℕ)
    → Connection × Result IoError (List ℕ)
again next d (ok frame) = (d, ok frame)
again next d (err would_block) = next d
again next d (err invalid_data) = (d, err invalid_data)
again next d (err invalid_input) = (d, err invalid_input)
again next d (err unexpected_eof) = (d, err unexpected_eof)

-- Up to so many calls, each after a timeout of the one before.
unfoldable pub resume : ℕ → Connection → Connection × Result IoError (List ℕ)
resume zero c = (c, err would_block)
resume (suc calls) c = let (d, r) = read_frame_resumable c in again (resume calls) d r

abbrev Delivers : List ℕ → List ℕ → Connection × Result IoError (List ℕ) → Type 0
Delivers frame rest x = (x.1 ≡ ok frame) × (total x.0 ≡ rest)

again_lem :
    (c d : Connection) (r : Result IoError (List ℕ)) (calls : ℕ) (frame rest : List ℕ)
    → Turn c d r
    → Agrees c d r
    → read_frame (total c) ≡ ok (frame, rest)
    → (IsLive d.stream
        → suc (timeouts d.stream) ≤ timeouts c.stream
        → read_frame (total d) ≡ ok (frame, rest)
        → Delivers frame rest (resume calls d))
    → Delivers frame rest (again (resume calls) d r)
again_lem c d (ok got) calls frame rest turn same e next =
    (ground (arith, same, e), ground (arith, same, e))
again_lem c d (err would_block) calls frame rest (live, less) same e next =
    next live less (ap read_frame same ∙ e)
again_lem c d (err invalid_data) calls frame rest turn same e next =
    absurd (ground (arith, same, e))
again_lem c d (err invalid_input) calls frame rest turn same e next = absurd turn
again_lem c d (err unexpected_eof) calls frame rest turn same e next =
    absurd (ground (arith, turn, e))

-- When no read but the last returns no bytes, the kept and the coming bytes start with a frame, and
-- there are more calls than timeouts to come, calling again after each timeout delivers that frame and
-- leaves exactly the bytes behind it.
pub resume_lem :
    (calls : ℕ) (c : Connection) (frame rest : List ℕ)
    → IsLive c.stream
    → suc (timeouts c.stream) ≤ calls
    → read_frame (total c) ≡ ok (frame, rest)
    → ((resume calls c).1 ≡ ok frame) × (total (resume calls c).0 ≡ rest)
unfolding resume
resume_lem zero c frame rest live enough e = absurd (omega arith)
resume_lem (suc calls) c frame rest live enough e =
    let x = read_frame_resumable c in
    again_lem c x.0 x.1 calls frame rest (turn c live) (read_frame_resumable_lem c) e
      (λ live2 less e2. resume_lem calls x.0 frame rest live2 (omega arith) e2)
