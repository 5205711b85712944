-- ===== src/Agent/BleFraming.antt =====
-- phone-auth-agent/src/ble_framing.rs: frames in chunks of a characteristic's size.
pub mod Parts
pub mod Bounds
pub mod Chunks
pub mod Reassembly
pub mod Arrival
pub mod Delivery
use bio_auth.Common.{
  ℕ, zero, suc, ◌+◌, ◌-◌, ◌*◌, ◌/◌, ◌%◌, ◌^◌, List, [], ◌∷◌, ◌++◌, Bool, ◌||◌, ◌&&◌, not, Option,
  none, some, Result, ok, err, ◌>>=◌, String, if◌then◌else◌, ltb, leb, ◌==◌, length, take, drop,
  is_empty,
}
use bio_auth.Common.Bytes.{to_be, from_be}
use bio_auth.Session.Framing.{max_frame}
use bio_auth.Agent.IdMap.{get, contains, put, remove, get_or}

abbrev pub header_bytes : ℕ
header_bytes = 6

abbrev pub max_chunks : ℕ
max_chunks = 1024

abbrev pub max_partial_frames : ℕ
max_partial_frames = 4

-- `io::Error` of the kinds that are made here; `frame_size` is the one whose text names a size.
pub data BleError : Type 0 where
  frame_size : ℕ → BleError
  invalid_input invalid_data : String → BleError

pub record BleFrameEncoder : Type 0 where
  pub next_frame_id : ℕ

-- `slice::chunks`; the length bounds the number of chunks.
unfoldable pub chunks_of : ℕ → ℕ → List ℕ → List (List ℕ)
chunks_of zero size frame = []
chunks_of (suc rounds) size [] = []
chunks_of (suc rounds) size (b ∷ frame) =
    take size (b ∷ frame) ∷ chunks_of rounds size (drop size (b ∷ frame))

unfoldable pub header : ℕ → ℕ → ℕ → List ℕ
header frame_id index total =
    to_be 2 frame_id ++ (to_be 2 (index % 2 ^ 16) ++ to_be 2 (total % 2 ^ 16))

-- `enumerate` and `map`.
unfoldable pub number : ℕ → ℕ → ℕ → List (List ℕ) → List (List ℕ)
number frame_id total index [] = []
number frame_id total index (part ∷ parts) =
    (header frame_id index total ++ part) ∷ number frame_id total (suc index) parts

-- `div_ceil`.
unfoldable pub div_ceil : ℕ → ℕ → ℕ
div_ceil n d = (n + (d - 1)) / d

unfoldable pub encode :
    BleFrameEncoder → List ℕ → ℕ → BleFrameEncoder × Result BleError (List (List ℕ))
encode e frame att_payload_bytes =
    if is_empty frame || ltb max_frame (length frame)
    then (e, err (frame_size (length frame)))
    else (if leb att_payload_bytes header_bytes
        then (e, err (invalid_input "BLE MTU is too small"))
        else (let data_bytes = att_payload_bytes - header_bytes in
            let total = div_ceil (length frame) data_bytes in
            if ltb max_chunks total
            then (e, err (invalid_input "BLE frame needs too many chunks"))
            else (
              record { next_frame_id = (e.next_frame_id + 1) % 2 ^ 16 },
              ok (number e.next_frame_id total 0 (chunks_of (length frame) data_bytes frame)),
            )))

pub record PartialFrame : Type 0 where
  pub total : ℕ
  pub chunks : List (ℕ × List ℕ)
  pub bytes : ℕ

abbrev pub new_partial : ℕ → PartialFrame
new_partial total = record { total = total; chunks = []; bytes = 0 }

pub record BleFrameDecoder : Type 0 where
  pub partial : List (ℕ × PartialFrame)

-- The chunks in their order.
unfoldable pub gather : ℕ → ℕ → List (ℕ × List ℕ) → Result BleError (List ℕ)
gather zero index chunks = ok []
gather (suc rounds) index chunks = elim (get index chunks) [
  | none ↦ err (invalid_data "BLE frame is missing a chunk")
  | some part ↦ do rest ← gather rounds (suc index) chunks; ok (part ++ rest)
]

abbrev pub found : Result BleError (List ℕ) → Result BleError (Option (List ℕ))
found (err e) = err e
found (ok frame) = ok (some frame)

-- A frame with one chunk more: kept, or taken out and put together.
unfoldable pub store :
    BleFrameDecoder → ℕ → PartialFrame → BleFrameDecoder × Result BleError (Option (List ℕ))
store d frame_id frame =
    if not (length frame.chunks == frame.total)
    then (record { partial = put frame_id frame d.partial }, ok none)
    else (record { partial = remove frame_id d.partial }, found (gather frame.total 0 frame.chunks))

unfoldable pub accept :
    BleFrameDecoder → ℕ → ℕ → ℕ → List ℕ → BleFrameDecoder × Result BleError (Option (List ℕ))
accept d frame_id index total payload =
    let frame = get_or frame_id (new_partial total) d.partial in
    let without : BleFrameDecoder = record { partial = remove frame_id d.partial } in
    if not (frame.total == total) || contains index frame.chunks
    then (without, err (invalid_data "inconsistent or duplicate BLE chunk"))
    else (let bytes = frame.bytes + length payload in
        if ltb max_frame bytes
        then (without, err (invalid_data "BLE frame exceeds the size limit"))
        else store d frame_id
            (record frame { chunks = put index payload frame.chunks; bytes = bytes }))

unfoldable pub add_chunk :
    BleFrameDecoder → List ℕ → BleFrameDecoder × Result BleError (Option (List ℕ))
add_chunk d chunk =
    if leb (length chunk) header_bytes
    then (d, err (invalid_data "BLE chunk has no payload"))
    else (let frame_id = from_be 0 (take 2 chunk) in
        let index = from_be 0 (take 2 (drop 2 chunk)) in
        let total = from_be 0 (take 2 (drop 4 chunk)) in
        if total == 0 || ltb max_chunks total || leb total index
        then (d, err (invalid_data "BLE chunk header is invalid"))
        else (if not (contains frame_id d.partial) && leb max_partial_frames (length d.partial)
            then (d, err (invalid_data "too many partial BLE frames"))
            else accept d frame_id index total (drop header_bytes chunk)))
