-- ===== src/Agent/BleFraming/Bounds.antt =====
-- phone-auth-agent/src/ble_framing.rs: what a decoder holds, and how much of it.
use bio_auth.Common.{
  ℕ, ◌+◌, ◌≡◌, ◌≢◌, ◌≤◌, ◌<◌, refl, ap, arith, List, Bool, true, false, ◌||◌, ◌&&◌, not, Option,
  none, some, Result, ok, err, ltb, leb, ◌==◌, length, take, drop, All, String, str, text_eq,
  Bool-cases, inl, inr,
}
use bio_auth.Common.Counting.{length-distinct}
use bio_auth.Common.Bytes.{from_be}
use bio_auth.Agent.IdMap.{
  get, contains, put, remove, get_or, length-put, length-remove, put-All, remove-All, get-All,
}
use bio_auth.Agent.BleFraming.{
  BleFrameDecoder, PartialFrame, BleError, invalid_data, new_partial, store, accept, add_chunk,
}
use bio_auth.Agent.BleFraming.Parts.{keys, AreChunks, whole, length-keys, more-AreChunks}

pub record IsPartial (f : PartialFrame) : Type 0 where
  pub chunked : AreChunks f.total f.bytes f.chunks
  pub unfinished : length f.chunks < f.total
  pub small : f.total ≤ 1024

-- At most four frames are under way, each within the limits.
pub record IsBounded (d : BleFrameDecoder) : Type 0 where
  pub few : length d.partial ≤ 4
  pub each : All (λ (e : ℕ × PartialFrame). IsPartial e.1) d.partial

-- Outcomes that keep the promises: no frame above the limit, and never a chunk missing.
abbrev pub IsSound : Result BleError (Option (List ℕ)) → Type 0
IsSound (ok none) = Unit
IsSound (ok (some frame)) = length frame ≤ 8192
IsSound (err e) = e ≢ invalid_data "BLE frame is missing a chunk"

abbrev Keeps : BleFrameDecoder × Result BleError (Option (List ℕ)) → Type 0
Keeps x = IsBounded x.0 × IsSound x.1

removed :
    (d : BleFrameDecoder) (id : ℕ)
    → IsBounded d
    → IsBounded (record { partial = remove id d.partial })
removed d id b = record {
  few = omega (arith, b.few, length-remove id d.partial);
  each = remove-All (λ (e : ℕ × PartialFrame). IsPartial e.1) id d.partial b.each;
}

-- Room for the frame: it is under way, or fewer than four are.
abbrev HasRoom : ℕ → BleFrameDecoder → Type 0
HasRoom id d = (not (contains id d.partial) && leb 4 (length d.partial)) ≡ false

store-Keeps :
    (d : BleFrameDecoder) (id : ℕ) (f : PartialFrame)
    → IsBounded d
    → HasRoom id d
    → AreChunks f.total f.bytes f.chunks
    → f.total ≤ 1024
    → Keeps (store d id f)
unfolding store
store-Keeps d id f b room c small = elim (Bool-cases (length f.chunks == f.total)) [
  | inl full ↦
      let (out, e, size) = whole f.total f.bytes f.chunks c (ground arith) in
      rw (full, e) (removed d id b, size)
  | inr more ↦
      let most = length-distinct f.total (keys f.chunks) c.distinct c.below in
      let part : IsPartial f = record {
        chunked = c;
        unfinished = ground (arith, most, length-keys f.chunks);
        small = small;
      } in
      rw more (
        record {
          few = ground (arith, length-put id f d.partial, b.few);
          each = put-All (λ (e : ℕ × PartialFrame). IsPartial e.1) id f d.partial part b.each;
        },
        tt,
      )
]

names_missing : BleError → Bool
names_missing (invalid_data text) = text_eq (str text) (str "BLE frame is missing a chunk")
names_missing other = false

other_text :
    (text : String)
    → text_eq (str text) (str "BLE frame is missing a chunk") ≡ false
    → invalid_data text ≢ invalid_data "BLE frame is missing a chunk"
unfolding names_missing
other_text text differs e =
    let same : text_eq (str text) (str "BLE frame is missing a chunk") ≡ true =
      ap names_missing e in
    cc

-- The frame that a chunk belongs to: the one under way, or a new one.
frame-IsPartial :
    (d : BleFrameDecoder) (id total : ℕ)
    → IsBounded d
    → 1 ≤ total
    → total ≤ 1024
    → IsPartial (get_or id (new_partial total) d.partial)
frame-IsPartial d id total b pos small = go (get id d.partial) refl
  where
    fresh : IsPartial (new_partial total)
    fresh = record {
      chunked = record { distinct = tt; below = tt; counted = refl; bounded = omega arith };
      unfinished = pos;
      small = small;
    }

    go :
        (o : Option PartialFrame)
        → get id d.partial ≡ o
        → IsPartial (elim o [ none ↦ new_partial total | some f ↦ f ])
    go none e = fresh
    go (some f) e = get-All (λ (e : ℕ × PartialFrame). IsPartial e.1) id f d.partial b.each e

accept-Keeps :
    (d : BleFrameDecoder) (id index total : ℕ) (payload : List ℕ)
    → IsBounded d
    → HasRoom id d
    → 1 ≤ total
    → total ≤ 1024
    → index < total
    → Keeps (accept d id index total payload)
unfolding accept
accept-Keeps d id index total payload b room pos small below =
    let f = get_or id (new_partial total) d.partial in
    let p = frame-IsPartial d id total b pos small in
    elim (Bool-cases (not (f.total == total) || contains index f.chunks)) [
      | inl bad ↦ rw bad (removed d id b, other_text "inconsistent or duplicate BLE chunk" refl)
      | inr fits ↦ elim (Bool-cases (ltb 8192 (f.bytes + length payload))) [
        | inl long ↦
            rw (fits, long) (removed d id b, other_text "BLE frame exceeds the size limit" refl)
        | inr short ↦
            let same : f.total ≡ total = ground (arith, fits) in
            let new : contains index f.chunks ≡ false = ground (arith, fits) in
            rw (fits, short)
              (store-Keeps d id
                (record f { chunks = put index payload f.chunks; bytes = f.bytes + length payload })
                b room
                (more-AreChunks f.total f.bytes index f.chunks payload p.chunked new
                  (omega (arith, same)) (ground (arith, short)))
                p.small)
      ]
    ]

-- A decoder stays within its limits whatever bytes arrive: at most four frames under way, each of fewer
-- chunks than announced, at most 1024, with distinct indices below their number and no more than 8192
-- bytes. What it delivers has at most 8192 bytes, and it never finds a chunk of a full frame missing.
pub add_chunk-IsBounded :
    (d : BleFrameDecoder) (chunk : List ℕ)
    → IsBounded d
    → IsBounded (add_chunk d chunk).0 × IsSound (add_chunk d chunk).1
unfolding add_chunk
add_chunk-IsBounded d chunk b =
    let id = from_be 0 (take 2 chunk) in
    let index = from_be 0 (take 2 (drop 2 chunk)) in
    let total = from_be 0 (take 2 (drop 4 chunk)) in
    elim (Bool-cases (leb (length chunk) 6)) [
      | inl short ↦ rw short (b, other_text "BLE chunk has no payload" refl)
      | inr long ↦ elim (Bool-cases (total == 0 || ltb 1024 total || leb total index)) [
        | inl bad ↦ rw (long, bad) (b, other_text "BLE chunk header is invalid" refl)
        | inr fits ↦ elim (Bool-cases (not (contains id d.partial) && leb 4 (length d.partial))) [
          | inl many ↦ rw (long, fits, many) (b, other_text "too many partial BLE frames" refl)
          | inr room ↦
              let (pos, small, below) = header_fits total index fits in
              rw (long, fits, room)
                (accept-Keeps d id index total (drop 6 chunk) b room pos small below)
        ]
      ]
    ]
  where
    header_fits :
        (total index : ℕ)
        → (total == 0 || ltb 1024 total || leb total index) ≡ false
        → (1 ≤ total) × (total ≤ 1024) × (index < total)
    header_fits total index h = (ground arith, ground arith, ground arith)
