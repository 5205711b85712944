-- ===== src/Agent/Examples.antt =====
-- The agent's modules on concrete inputs.
pub mod Logins
use bio_auth.Common.{ℕ, ◌≡◌, refl, arith, List, [], ◌∷◌, ok, err, some, none}
use bio_auth.Common.Bytes.{to_be, from_be}
use bio_auth.Common.Counting.{mem}
use bio_auth.Agent.IdMap.{get, contains, put, remove}
use bio_auth.Agent.BleFraming.{
  BleFrameEncoder, BleFrameDecoder, encode, chunks_of, header, number, div_ceil, add_chunk, accept,
  store, invalid_data,
}
use bio_auth.Agent.BleFraming.Bounds.{IsBounded, IsSound, add_chunk-IsBounded}
use bio_auth.Agent.BleFraming.Arrival.{feed, pick, at_last}
use bio_auth.Agent.BleFraming.Delivery.{encode-feed}

abbrev encoder : BleFrameEncoder
encoder = record { next_frame_id = 258 }

abbrev idle : BleFrameDecoder
idle = record { partial = [] }

-- Five bytes in chunks of two.
abbrev sent : List (List ℕ)
sent =
    (1 ∷ 2 ∷ 0 ∷ 0 ∷ 0 ∷ 3 ∷ 10 ∷ 20 ∷ [])
    ∷ ((1 ∷ 2 ∷ 0 ∷ 1 ∷ 0 ∷ 3 ∷ 30 ∷ 40 ∷ []) ∷ ((1 ∷ 2 ∷ 0 ∷ 2 ∷ 0 ∷ 3 ∷ 50 ∷ []) ∷ []))

abbrev frame : List ℕ
frame = 10 ∷ 20 ∷ 30 ∷ 40 ∷ 50 ∷ []

made : (encode encoder frame 8).1 ≡ ok sent
unfolding encode chunks_of header number div_ceil to_be
made = refl

abbrev order : List ℕ
order = 2 ∷ 0 ∷ 1 ∷ []

encode-feed_example :
    ((feed idle (pick sent order)).1 ≡ ok none ∷ (ok none ∷ (ok (some frame) ∷ [])))
    × (get 258 (feed idle (pick sent order)).0.partial ≡ none)
unfolding contains mem at_last
encode-feed_example =
    encode-feed encoder frame 8 sent order idle made (omega arith) refl (omega arith)
      (refl, (refl, (refl, tt))) (omega arith, (omega arith, (omega arith, tt))) refl

-- A chunk that comes twice ends its frame.
repeated :
    (feed idle (pick sent (0 ∷ 0 ∷ []))).1
    ≡ ok none ∷ (err (invalid_data "inconsistent or duplicate BLE chunk") ∷ [])
unfolding feed add_chunk accept store from_be get contains put remove
repeated = refl

add_chunk-IsBounded_example :
    IsBounded (add_chunk idle (1 ∷ 2 ∷ 0 ∷ 0 ∷ 0 ∷ 3 ∷ 10 ∷ [])).0
    × IsSound (add_chunk idle (1 ∷ 2 ∷ 0 ∷ 0 ∷ 0 ∷ 3 ∷ 10 ∷ [])).1
add_chunk-IsBounded_example =
    add_chunk-IsBounded idle (1 ∷ 2 ∷ 0 ∷ 0 ∷ 0 ∷ 3 ∷ 10 ∷ [])
      (record { few = omega arith; each = tt })
