-- ===== src/Session/Framing/Resumable.antt =====
-- phone-auth-session/src/framing.rs, read_frame_resumable: a frame collected across short reads and
-- timeouts, with what has arrived of it kept between the calls.
pub mod Keeps
pub mod Agreement
pub mod Waits
pub mod Resumption
use bio_auth.Common.{
  ℕ, zero, suc, ◌+◌, ◌-◌, List, [], ◌∷◌, ◌++◌, Bool, ◌||◌, Result, ok, err, length, take, drop, ltb,
  ◌==◌, is_empty, if◌then◌else◌,
}
use bio_auth.Common.Bytes.{from_be}
use bio_auth.Session.Framing.{IoError, max_frame, prefix, invalid_data, unexpected_eof, would_block}

-- What a socket with a read timeout has for the next call of `Read::read`.
pub data Arrival : Type 0 where
  arrived : List ℕ → Arrival
  timed_out : Arrival

-- `Read::read` into a buffer of `n` bytes.
unfoldable pub read : ℕ → List Arrival → List Arrival × Result IoError (List ℕ)
read n [] = ([], ok [])
read n (timed_out ∷ stream) = (stream, err would_block)
read n (arrived bytes ∷ stream) =
    if ltb n (length bytes)
    then (arrived (drop n bytes) ∷ stream, ok (take n bytes))
    else (stream, ok bytes)

pub record Connection : Type 0 where
  pub stream : List Arrival
  pub pending : List ℕ

unfoldable pub chunk_size : ℕ → ℕ
chunk_size missing = if ltb missing 1024 then missing else 1024

-- One round of the loop of `fill_to`, with what the read returned and the rounds after it.
unfoldable pub absorb :
    (Connection → Connection × Result IoError (Unit {0}))
    → Connection
    → List Arrival
    → Result IoError (List ℕ)
    → Connection × Result IoError (Unit {0})
absorb rest c stream (err e) = (record c { stream = stream }, err e)
absorb rest c stream (ok []) = (record c { stream = stream }, err unexpected_eof)
absorb rest c stream (ok (b ∷ bytes)) =
    rest (record { stream = stream; pending = c.pending ++ (b ∷ bytes) })

-- The loop: a round that goes on adds at least one byte, so the number of bytes missing bounds the
-- rounds.
unfoldable pub fill : ℕ → ℕ → Connection → Connection × Result IoError (Unit {0})
fill zero target c = (c, ok tt)
fill (suc rounds) target c =
    let missing = target - length c.pending in
    let (stream, got) = read (chunk_size missing) c.stream in
    let round = absorb (fill rounds target) c stream got in
    if ltb (length c.pending) target then round else (c, ok tt)

unfoldable pub fill_to : ℕ → Connection → Connection × Result IoError (Unit {0})
fill_to target c = fill (target - length c.pending) target c

-- What follows the second `fill_to`.
unfoldable pub deliver :
    ℕ → Connection → Result IoError (Unit {0}) → Connection × Result IoError (List ℕ)
deliver len c (err e) = (c, err e)
deliver len c (ok done) =
    (record c { pending = drop (prefix + len) c.pending }, ok (take len (drop prefix c.pending)))

unfoldable pub read_body : ℕ → Connection → Connection × Result IoError (List ℕ)
read_body len c =
    if len == 0 || ltb max_frame len
    then (record c { pending = [] }, err invalid_data)
    else (let (d, filled) = fill_to (prefix + len) c in deliver len d filled)

-- What follows the first `fill_to`.
unfoldable pub read_announced :
    Connection → Result IoError (Unit {0}) → Connection × Result IoError (List ℕ)
read_announced c (err e) = (c, err e)
read_announced c (ok done) = read_body (from_be 0 (take prefix c.pending)) c

unfoldable pub read_frame_resumable : Connection → Connection × Result IoError (List ℕ)
read_frame_resumable c = let (d, filled) = fill_to prefix c in read_announced d filled
