-- ===== src/Session/Framing/Resumable/Keeps.antt =====
-- phone-auth-session/src/framing.rs, read_frame_resumable: no byte is lost between calls.
use bio_auth.Common.{
  ℕ, zero, suc, ◌≡◌, ◌≤◌, ◌+◌, ◌-◌, refl, sym, ap, ◌∙◌, List, [], ◌∷◌, ◌++◌, Result, ok, err,
  length, take, drop, ltb, arith, append_assoc, Bool-cases, inl, inr, length-append,
  take-append-drop,
}
use bio_auth.Session.Framing.{IoError, invalid_data}
use bio_auth.Session.Framing.Resumable.{
  Arrival, arrived, timed_out, read, Connection, chunk_size, absorb, fill, fill_to,
}

abbrev pub flat : List Arrival → List ℕ
flat [] = []
flat (timed_out ∷ stream) = flat stream
flat (arrived bytes ∷ stream) = bytes ++ flat stream

-- The bytes that are kept and those still to come.
abbrev pub total : Connection → List ℕ
total c = c.pending ++ flat c.stream

abbrev bytes_of : Result IoError (List ℕ) → List ℕ
bytes_of (ok bytes) = bytes
bytes_of (err e) = []

pub read_lem : (n : ℕ) (s : List Arrival) → bytes_of (read n s).1 ++ flat (read n s).0 ≡ flat s
unfolding read
read_lem n [] = refl
read_lem n (timed_out ∷ s) = refl
read_lem n (arrived bytes ∷ s) = elim (Bool-cases (ltb n (length bytes))) [
  | inl long ↦ rw (long) (
      sym (append_assoc (take n bytes) (drop n bytes) (flat s))
      ∙ ap (λ (z : List ℕ). z ++ flat s) (take-append-drop n bytes))
  | inr fits ↦ rw (fits) refl
]

read_kind : (n : ℕ) (s : List Arrival) → ¬ ((read n s).1 ≡ err invalid_data)
unfolding read
read_kind n [] e = ground arith
read_kind n (timed_out ∷ s) e = ground arith
read_kind n (arrived bytes ∷ s) e = elim (Bool-cases (ltb n (length bytes))) [
  | inl long ↦ ground arith
  | inr fits ↦ ground arith
]

-- Nothing is lost, what is reported as there is there, and no frame is called bad.
abbrev pub Collects : ℕ → Connection → Connection × Result IoError (Unit {0}) → Type 0
Collects target c r =
    (total r.0 ≡ total c)
    × (r.1 ≡ ok tt → target ≤ length r.0.pending)
    × (¬ (r.1 ≡ err invalid_data))

absorb_lem :
    (rounds target : ℕ) (c : Connection) (s : List Arrival) (got : Result IoError (List ℕ))
    → target ≤ suc rounds + length c.pending
    → bytes_of got ++ flat s ≡ flat c.stream
    → ¬ (got ≡ err invalid_data)
    → ((d : Connection)
        → target ≤ rounds + length d.pending
        → Collects target d (fill rounds target d))
    → Collects target c (absorb (fill rounds target) c s got)
unfolding absorb
absorb_lem rounds target c s (err e) h kept kind next =
    (ap (◌++◌ c.pending) kept, λ p. ground arith, λ p. ground arith)
absorb_lem rounds target c s (ok []) h kept kind next =
    (ap (◌++◌ c.pending) kept, λ p. ground arith, λ p. ground arith)
absorb_lem rounds target c s (ok (b ∷ bytes)) h kept kind next =
    let d : Connection = record { stream = s; pending = c.pending ++ (b ∷ bytes) } in
    let (same, there, kind) = next d (ground (arith, length-append c.pending (b ∷ bytes))) in
    (same ∙ append_assoc c.pending (b ∷ bytes) (flat s) ∙ ap (◌++◌ c.pending) kept, there, kind)

fill_lem :
    (rounds target : ℕ) (c : Connection)
    → target ≤ rounds + length c.pending
    → Collects target c (fill rounds target c)
unfolding fill
fill_lem zero target c h = (refl, λ e. omega arith, λ e. ground arith)
fill_lem (suc rounds) target c h = elim (Bool-cases (ltb (length c.pending) target)) [
  | inl short ↦
      let n = chunk_size (target - length c.pending) in
      rw (short) (
        absorb_lem rounds target c (read n c.stream).0 (read n c.stream).1 h (read_lem n c.stream)
          (read_kind n c.stream) (fill_lem rounds target))
  | inr there ↦ rw (there) (refl, λ e. ground arith, λ e. ground arith)
]

pub fill_to_lem : (target : ℕ) (c : Connection) → Collects target c (fill_to target c)
unfolding fill_to
fill_to_lem target c = fill_lem (target - length c.pending) target c (omega arith)
