-- ===== src/Session/Framing.antt =====
-- phone-auth-session/src/framing.rs: a frame behind its length, on a stream of bytes.
pub mod RoundTrip
pub mod Resumable
use bio_auth.Common.{
  ℕ, List, ◌++◌, Bool, ◌||◌, Result, ok, err, ◌>>=◌, ◌>>◌, refuse, length, take, drop, ltb, ◌==◌,
  is_empty, if◌then◌else◌,
}
use bio_auth.Common.Bytes.{to_be, from_be}

abbrev pub max_frame : ℕ
max_frame = 8192

abbrev pub prefix : ℕ
prefix = 4

-- The kinds of `io::Error` that these functions make or pass on.
pub data IoError : Type 0 where
  invalid_input invalid_data unexpected_eof would_block : IoError

-- The stream is what was written to it so far.
unfoldable pub write_frame : List ℕ → List ℕ → Result IoError (List ℕ)
write_frame stream frame = do
  refuse (is_empty frame || ltb max_frame (length frame)) invalid_input
  ok (stream ++ (to_be prefix (length frame) ++ frame))

-- `Read::read_exact`: the bytes asked for, and the stream behind them.
unfoldable pub read_exact : ℕ → List ℕ → Result IoError (List ℕ × List ℕ)
read_exact n stream =
    if ltb (length stream) n then err unexpected_eof else ok (take n stream, drop n stream)

unfoldable pub read_frame : List ℕ → Result IoError (List ℕ × List ℕ)
read_frame stream = do
  (head, behind) ← read_exact prefix stream
  let len = from_be 0 head
  refuse (len == 0 || ltb max_frame len) invalid_data
  read_exact len behind
