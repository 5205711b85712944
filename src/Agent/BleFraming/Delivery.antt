-- ===== src/Agent/BleFraming/Delivery.antt =====
-- phone-auth-agent/src/ble_framing.rs: every order of an encoder's chunks gives the frame.
use bio_auth.Common.{
  ℕ, ◌+◌, ◌^◌, ◌≡◌, ◌≤◌, ◌<◌, refl, sym, ap, subst, ◌∙◌, arith, List, [], ◌∷◌, ◌++◌, true, false,
  Option, none, some, ok, ltb, ◌==◌, length, length-append, append_assoc, All-prefix, All-middle,
}
use bio_auth.Common.Counting.{
  mem, IsDistinct, AreBelow, weight, weight-le, prefix-IsDistinct, not_before, weight-snoc,
}
use bio_auth.Agent.IdMap.{
  get-contains, get_or-put, get, contains, put, remove, get_or, get-remove, put_new, contains-put,
}
use bio_auth.Agent.BleFraming.{
  BleFrameDecoder, PartialFrame, BleFrameEncoder, new_partial, store, accept, add_chunk, encode,
  header,
}
use bio_auth.Agent.BleFraming.Chunks.{
  nth, concat, AreFull, Encoded, encode_ok, length-number, nth-number, nth-AreFull,
}
use bio_auth.Agent.BleFraming.Reassembly.{
  size_of, entries, length-entries, entries-snoc, contains-entries, weigh_all, gather-entries,
}
use bio_auth.Agent.BleFraming.Arrival.{feed, feed-step, pick, at_last, HasRoom, add_chunk-header}

-- A decoder that has had some of the parts.
record HasHad (id : ℕ) (parts : List (List ℕ)) (is : List ℕ) (d : BleFrameDecoder) : Type 0 where
  held : get_or id (new_partial (length parts)) d.partial ≡ record {
    total = length parts;
    chunks = entries parts is;
    bytes = weight (size_of parts) is;
  }
  room : HasRoom id d

module _ (id : ℕ) (parts : List (List ℕ)) (hid : id < 65536) (few : length parts ≤ 1024)
    (full : AreFull parts) (small : length (concat parts) ≤ 8192) where
  grown : List ℕ → ℕ → PartialFrame
  grown is i = record {
    total = length parts;
    chunks = entries parts (is ++ i ∷ []);
    bytes = weight (size_of parts) (is ++ i ∷ []);
  }

  add_part :
      (d : BleFrameDecoder) (is : List ℕ) (i : ℕ)
      → HasHad id parts is d
      → IsDistinct (is ++ i ∷ [])
      → AreBelow (length parts) (is ++ i ∷ [])
      → i < length parts
      → mem i is ≡ false
      → add_chunk d (header id i (length parts) ++ nth parts i) ≡ store d id (grown is i)
  unfolding grown accept
  add_part d is i had distinct below here new =
      let reach =
        add_chunk-header d id i (length parts) (nth parts i) hid here few
          (nth-AreFull parts i full here) had.room in
      let absent : contains i (entries parts is) ≡ false = contains-entries parts i is ∙ new in
      let bytes = weight-snoc (size_of parts) is i in
      let most = weight-le (size_of parts) (length parts) (is ++ i ∷ []) distinct below in
      let light : ltb 8192 (weight (size_of parts) is + length (nth parts i)) ≡ false =
        ground (arith, bytes, most, weigh_all parts, small) in
      let same : (length parts == length parts) ≡ true = ground arith in
      rw
        (
          reach,
          had.held,
          same,
          absent,
          light,
          put_new i (nth parts i) (entries parts is) absent,
          entries-snoc parts is i,
          bytes,
        )
        refl

  unfinished :
      (d : BleFrameDecoder) (is : List ℕ) (i : ℕ)
      → length (is ++ i ∷ []) < length parts
      → store d id (grown is i) ≡ (record { partial = put id (grown is i) d.partial }, ok none)
  unfolding grown store
  unfinished d is i more =
      let count = length-entries parts (is ++ i ∷ []) in
      let open_yet : (length (entries parts (is ++ i ∷ [])) == length parts) ≡ false =
        ground (arith, count, more) in
      rw open_yet refl

  finished :
      (d : BleFrameDecoder) (is : List ℕ) (i : ℕ)
      → IsDistinct (is ++ i ∷ [])
      → AreBelow (length parts) (is ++ i ∷ [])
      → length (is ++ i ∷ []) ≡ length parts
      → store d id (grown is i)
        ≡ (record { partial = remove id d.partial }, ok (some (concat parts)))
  unfolding grown store
  finished d is i distinct below all =
      let count = length-entries parts (is ++ i ∷ []) in
      let done : (length (entries parts (is ++ i ∷ [])) == length parts) ≡ true =
        ground (arith, count, all) in
      rw (done, gather-entries parts (is ++ i ∷ []) distinct below all) refl

  had_more :
      (d : BleFrameDecoder) (is : List ℕ) (i : ℕ)
      → HasHad id parts (is ++ i ∷ []) (record { partial = put id (grown is i) d.partial })
  unfolding grown
  had_more d is i = record {
    held = get_or-put id (grown is i) (new_partial (length parts)) d.partial;
    room = rw (contains-put id (grown is i) d.partial) refl;
  }

  had_none :
      (d : BleFrameDecoder)
      → contains id d.partial ≡ false
      → length d.partial < 4
      → HasHad id parts [] d
  unfolding weight
  had_none d new room =
      let nothing : get id d.partial ≡ none = get-contains id d.partial new in
      record {
        held =
            ap
              (λ (o : Option PartialFrame). elim o [
                | none ↦ new_partial (length parts)
                | some f ↦ f
              ])
              nothing;
        room = ground (arith, room);
      }

  module _ (chunks : List (List ℕ))
      (made : (i : ℕ)
        → i < length parts
        → nth chunks i ≡ header id i (length parts) ++ nth parts i) where
    feed-pick :
        (todo : List ℕ) (is : List ℕ) (i : ℕ) (d : BleFrameDecoder)
        → HasHad id parts is d
        → IsDistinct (is ++ i ∷ todo)
        → AreBelow (length parts) (is ++ i ∷ todo)
        → length (is ++ i ∷ todo) ≡ length parts
        → ((feed d (pick chunks (i ∷ todo))).1 ≡ at_last (concat parts) (i ∷ todo))
          × (get id (feed d (pick chunks (i ∷ todo))).0.partial ≡ none)
    unfolding feed at_last
    feed-pick [] is i d had distinct below all =
        let here = All-middle (λ k. k < length parts) is i [] below in
        let step : add_chunk d (nth chunks i)
            ≡ (record { partial = remove id d.partial }, ok (some (concat parts))) =
          ap (add_chunk d) (made i here)
          ∙ add_part d is i had distinct below here (not_before i is [] distinct)
          ∙ finished d is i distinct below all in
        let gone : get id (remove id d.partial) ≡ none =
          ground (arith, get-remove id id d.partial) in
        let whole =
          feed-step d (record { partial = remove id d.partial }) (nth chunks i) []
            (ok (some (concat parts))) step in
        (ap (λ x. x.1) whole, ap (λ x. get id x.0.partial) whole ∙ gone)
    feed-pick (j ∷ todo) is i d had distinct below all =
        let assoc : is ++ i ∷ j ∷ todo ≡ (is ++ i ∷ []) ++ j ∷ todo =
          sym (append_assoc is (i ∷ []) (j ∷ todo)) in
        let distinct2 = subst IsDistinct assoc distinct in
        let below2 = subst (AreBelow (length parts)) assoc below in
        let count = length-append (is ++ i ∷ []) (j ∷ todo) in
        let here = All-middle (λ k. k < length parts) is i (j ∷ todo) below in
        let step : add_chunk d (nth chunks i)
            ≡ (record { partial = put id (grown is i) d.partial }, ok none) =
          ap (add_chunk d) (made i here)
          ∙ add_part d is i had (prefix-IsDistinct (is ++ i ∷ []) (j ∷ todo) distinct2)
              (All-prefix (λ k. k < length parts) (is ++ i ∷ []) (j ∷ todo) below2) here
              (not_before i is (j ∷ todo) distinct)
          ∙ unfinished d is i (omega (arith, count, ap length assoc, all)) in
        let (later, gone) =
          feed-pick todo (is ++ i ∷ []) j (record { partial = put id (grown is i) d.partial })
            (had_more d is i) distinct2 below2 (ap length (sym assoc) ∙ all) in
        let whole =
          feed-step d (record { partial = put id (grown is i) d.partial }) (nth chunks i)
            (pick chunks (j ∷ todo)) (ok none) step in
        (ap (λ x. x.1) whole ∙ ap (◌∷◌ (ok none)) later, ap (λ x. get id x.0.partial) whole ∙ gone)

-- A frame arrives whatever the order in which its chunks do: where a decoder has room for the frame and
-- nothing of its number, each of an encoder's chunks, given once and in any order, is taken without an
-- outcome but the last, which gives the very frame; and nothing of the frame is kept.
pub encode-feed :
    (e : BleFrameEncoder) (frame : List ℕ) (att_payload_bytes : ℕ) (chunks : List (List ℕ))
    (order : List ℕ) (d : BleFrameDecoder)
    → (encode e frame att_payload_bytes).1 ≡ ok chunks
    → e.next_frame_id < 2 ^ 16
    → contains e.next_frame_id d.partial ≡ false
    → length d.partial < 4
    → IsDistinct order
    → AreBelow (length chunks) order
    → length order ≡ length chunks
    → ((feed d (pick chunks order)).1 ≡ at_last frame order)
      × (get e.next_frame_id (feed d (pick chunks order)).0.partial ≡ none)
encode-feed e frame att chunks order d made hid new room distinct below all =
    let r = encode_ok e frame att chunks made in
    let id = e.next_frame_id in
    let count : length chunks ≡ length r.parts =
      ap length r.made ∙ length-number id (length r.parts) 0 r.parts in
    let each : (i : ℕ)
        → i < length r.parts
        → nth chunks i ≡ header id i (length r.parts) ++ nth r.parts i =
      λ i h.
        ap (λ (l : List (List ℕ)). nth l i) r.made
        ∙ nth-number id (length r.parts) 0 i r.parts h
        ∙ ap (λ (k : ℕ). header id k (length r.parts) ++ nth r.parts i) (from_zero i) in
    rw (sym r.whole) (
      go r count each order distinct (subst (λ (n : ℕ). AreBelow n order) count below)
        (all ∙ count))
  where
    from_zero : (i : ℕ) → 0 + i ≡ i
    from_zero i = omega arith

    go :
        (r : Encoded e frame chunks)
        → length chunks ≡ length r.parts
        → ((i : ℕ)
            → i < length r.parts
            → nth chunks i ≡ header e.next_frame_id i (length r.parts) ++ nth r.parts i)
        → (order : List ℕ) → IsDistinct order
        → AreBelow (length r.parts) order
        → length order ≡ length r.parts
        → ((feed d (pick chunks order)).1 ≡ at_last (concat r.parts) order)
          × (get e.next_frame_id (feed d (pick chunks order)).0.partial ≡ none)
    go r count each [] distinct below all = absurd (omega (arith, all, r.some_parts))
    go r count each (i ∷ todo) distinct below all =
        let small : length (concat r.parts) ≤ 8192 = omega (arith, ap length r.whole, r.small) in
        feed-pick e.next_frame_id r.parts hid r.few r.full small chunks each todo [] i d
          (had_none e.next_frame_id r.parts hid r.few r.full small d new room) distinct below all
