-- ===== src/Agent/BleFraming/Arrival.antt =====
-- phone-auth-agent/src/ble_framing.rs: chunks that arrive one after another.
use bio_auth.Common.{
  ℕ, ◌%◌, ◌^◌, ◌≡◌, ◌≤◌, ◌<◌, refl, ap, ◌∙◌, arith, List, [], ◌∷◌, ◌++◌, false, ◌||◌, ◌&&◌, not,
  Option, none, some, Result, ok, ltb, leb, ◌==◌, length,
}
use bio_auth.Common.Bytes.{to_be, from_be, from_be-to_be}
use bio_auth.Agent.IdMap.{contains}
use bio_auth.Agent.BleFraming.{BleFrameDecoder, BleError, accept, add_chunk, header}
use bio_auth.Agent.BleFraming.Chunks.{nth}

-- The outcomes of a decoder that is given chunks one after another, and what it then holds.
unfoldable pub feed :
    BleFrameDecoder → List (List ℕ) → BleFrameDecoder × List (Result BleError (Option (List ℕ)))
feed d [] = (d, [])
feed d (chunk ∷ chunks) =
    let (next, outcome) = add_chunk d chunk in
    let (last, outcomes) = feed next chunks in (last, outcome ∷ outcomes)

pub feed-step :
    (d next : BleFrameDecoder) (chunk : List ℕ) (chunks : List (List ℕ))
    (outcome : Result BleError (Option (List ℕ)))
    → add_chunk d chunk ≡ (next, outcome)
    → feed d (chunk ∷ chunks) ≡ ((feed next chunks).0, outcome ∷ (feed next chunks).1)
unfolding feed
feed-step d next chunk chunks outcome e =
    ap (λ x. ((feed x.0 chunks).0, x.1 ∷ (feed x.0 chunks).1)) e

-- The chunks in a given order.
abbrev pub pick : List (List ℕ) → List ℕ → List (List ℕ)
pick chunks [] = []
pick chunks (i ∷ is) = nth chunks i ∷ pick chunks is

-- Nothing until the last chunk, and then the frame.
unfoldable pub at_last : List ℕ → List ℕ → List (Result BleError (Option (List ℕ)))
at_last frame [] = []
at_last frame (i ∷ []) = ok (some frame) ∷ []
at_last frame (i ∷ j ∷ is) = ok none ∷ at_last frame (j ∷ is)

abbrev pub HasRoom : ℕ → BleFrameDecoder → Type 0
HasRoom id d = (not (contains id d.partial) && leb 4 (length d.partial)) ≡ false

-- A chunk with a header that is in order reaches `accept`.
pub add_chunk-header :
    (d : BleFrameDecoder) (id index total : ℕ) (payload : List ℕ)
    → id < 65536
    → index < total
    → total ≤ 1024
    → 1 ≤ length payload
    → HasRoom id d
    → add_chunk d (header id index total ++ payload) ≡ accept d id index total payload
unfolding add_chunk header to_be
add_chunk-header d id index total payload hid hindex htotal some_bytes room =
    let e1 : from_be 0 (to_be 2 id) ≡ id = from_be-to_be 2 id (omega arith) in
    let e2 : from_be 0 (to_be 2 (index % 2 ^ 16)) ≡ index =
      from_be-to_be 2 (index % 2 ^ 16) (omega arith) ∙ omega arith in
    let e3 : from_be 0 (to_be 2 (total % 2 ^ 16)) ≡ total =
      from_be-to_be 2 (total % 2 ^ 16) (omega arith) ∙ omega arith in
    let long : leb (length (header id index total ++ payload)) 6 ≡ false = ground arith in
    let fits : (total == 0 || ltb 1024 total || leb total index) ≡ false = ground arith in
    rw (long, e1, e2, e3, fits, room) refl
