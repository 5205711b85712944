-- ===== src/Session/Examples/Frames.antt =====
-- A stream whose frames come in pieces, with a timeout in between.
use bio_auth.Common.{◌≡◌, refl, [], ◌∷◌, ok, err, arith}
use bio_auth.Common.Bytes.{from_be}
use bio_auth.Session.Framing.{read_frame, would_block, read_exact}
use bio_auth.Session.Framing.Resumable.{
  Connection, arrived, timed_out, read_frame_resumable, read_announced, read_body, deliver, fill_to,
  fill, absorb, read, chunk_size,
}
use bio_auth.Session.Framing.Resumable.Keeps.{total}
use bio_auth.Session.Framing.Resumable.Agreement.{read_frame_resumable_lem}
use bio_auth.Session.Framing.Resumable.Resumption.{resume, resume_lem}

-- Half a prefix is kept, and the rest comes with the body.
abbrev half : Connection
half = record {
  stream = arrived (0 ∷ 2 ∷ 7 ∷ []) ∷ (arrived (8 ∷ 0 ∷ []) ∷ []);
  pending = 0 ∷ 0 ∷ [];
}

interrupted :
    read_frame_resumable
      (record { stream = arrived (0 ∷ []) ∷ (timed_out ∷ half.stream); pending = 0 ∷ [] })
    ≡ (half, err would_block)
unfolding read_frame_resumable read_announced fill_to fill absorb read chunk_size
interrupted = refl

read_frame_resumable_lem_example : read_frame (total half) ≡ ok (7 ∷ 8 ∷ [], 0 ∷ [])
unfolding read_frame_resumable read_announced read_body deliver fill_to fill absorb read chunk_size
    from_be
read_frame_resumable_lem_example = read_frame_resumable_lem half

-- Two timeouts, one inside the prefix and one inside the body.
abbrev slow : Connection
slow = record {
  stream =
      arrived (0 ∷ [])
      ∷ (timed_out ∷ (arrived (0 ∷ 2 ∷ 7 ∷ []) ∷ (timed_out ∷ (arrived (8 ∷ 0 ∷ []) ∷ []))));
  pending = 0 ∷ [];
}

resume_lem_example : ((resume 3 slow).1 ≡ ok (7 ∷ 8 ∷ [])) × (total (resume 3 slow).0 ≡ 0 ∷ [])
unfolding read_frame read_exact from_be
resume_lem_example =
    resume_lem 3 slow (7 ∷ 8 ∷ []) (0 ∷ []) (omega arith, (omega arith, (omega arith, tt)))
      (omega arith) refl
