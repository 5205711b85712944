-- ===== src/Session/Channel/Link.antt =====
-- The channels of phone-auth-session/src/channel.rs at the two ends of one session.
use bio_auth.Common.{
  ℕ, ◌≡◌, ◌≤◌, ◌<◌, ◌+◌, ◌^◌, ◌↔◌, refl, sym, ap, subst, ◌∙◌, List, [], ◌∷◌, ◌++◌, ok, arith, take,
  drop, Option-cases, inl, inr, some, ◌||◌, leb, ltb, is_empty, length, length-append, take-length,
  drop-length, take-append-drop, length-take, length-drop, All-take, false, ◌==◌, true,
}
use bio_auth.Common.Bytes.{
  AreBytes, IsByte, to_be, from_be, length-to_be, from_be-to_be, to_be-from_be,
}
use bio_auth.Session.Channel.{Aead, SecureChannel, next_counter, nonce, seal, open_record}

-- What the cipher promises: it opens what it sealed, nothing but that, and adds 16 bytes.
pub record IsAead (lib : Aead) : Type 0 where
  pub opens :
      (k : lib.Key) (n a m c : List ℕ) → lib.encrypt k n a m ≡ some c → lib.decrypt k n a c ≡ some m
  pub authentic :
      (k : lib.Key) (n a m c : List ℕ) → lib.decrypt k n a c ≡ some m → lib.encrypt k n a m ≡ some c
  pub tagged :
      (k : lib.Key) (n a m c : List ℕ) → lib.encrypt k n a m ≡ some c → length c ≡ length m + 16

-- The sending side of one end stands where the receiving side of the other does.
pub record Linked (lib : Aead) (s r : SecureChannel lib) : Type 0 where
  pub keys : s.send ≡ r.receive
  pub bindings : s.binding ≡ r.binding
  pub counters : s.send_counter ≡ r.receive_counter

-- The bytes of one record: the counter in eight bytes, and the text, of 1 to 8192 bytes, enciphered under the
-- key, with four zeros and the counter as the nonce, and with the session's binding as associated data.
pub record IsRecord (lib : Aead) (key : lib.Key) (binding : List ℕ) (counter : ℕ)
    (m sealed : List ℕ) : Type 0 where
  pub cipher : List ℕ
  pub some_text : 1 ≤ length m
  pub small : length m ≤ 8192
  pub made : lib.encrypt key (0 ∷ 0 ∷ 0 ∷ 0 ∷ to_be 8 counter) binding m ≡ some cipher
  pub below : counter + 1 < 2 ^ 64
  pub whole : sealed ≡ to_be 8 counter ++ cipher

module _ (lib : Aead) where
  abbrev Sealing : (s : SecureChannel lib) (m sealed : List ℕ) → Type 0
  Sealing s m sealed = IsRecord lib s.send s.binding s.send_counter m sealed

  record Opening (r r' : SecureChannel lib) (m sealed : List ℕ) : Type 0 where
    long : 24 < length sealed
    small : length sealed ≤ 8216
    counter : from_be 0 (take 8 sealed) ≡ r.receive_counter
    clear :
        lib.decrypt r.receive (0 ∷ 0 ∷ 0 ∷ 0 ∷ to_be 8 r.receive_counter) r.binding (drop 8 sealed)
        ≡ some m
    below : r.receive_counter + 1 < 2 ^ 64
    moved : r' ≡ record r { receive_counter = r.receive_counter + 1 }

  no_text : (m : List ℕ) → is_empty m ≡ false → 1 ≤ length m
  no_text [] h = ground arith
  no_text (x ∷ m) h = omega arith

  sealing :
      (s s' : SecureChannel lib) (m sealed : List ℕ)
      → seal lib s m ≡ (s', ok sealed)
      → Sealing s m sealed
  unfolding seal next_counter nonce
  sealing s s' m sealed e =
      elim (Option-cases (lib.encrypt s.send (nonce lib s.send_counter) s.binding m)) [
        | inl bad ↦ ground arith
        | inr (cipher, made) ↦ record {
          cipher = cipher;
          some_text = ground (arith, no_text m);
          small = ground arith;
          made = made;
          below = ground arith;
          whole = ground arith;
        }
      ]

  written :
      (s : SecureChannel lib) (m out : List ℕ)
      → Sealing s m out
      → seal lib s m ≡ (record s { send_counter = s.send_counter + 1 }, ok out)
  unfolding seal next_counter nonce
  written s [] out w = absurd (omega (arith, w.some_text))
  written s (x ∷ m) out w =
      let small : ltb 8192 (length (x ∷ m)) ≡ false = ground (arith, w.small) in
      let roomy : ltb (s.send_counter + 1) (2 ^ 64) ≡ true = ground (arith, w.below) in
      rw (w.whole, small, w.made, roomy) refl

  opening :
      (r r' : SecureChannel lib) (m sealed : List ℕ)
      → open_record lib r sealed ≡ (r', ok m)
      → Opening r r' m sealed
  unfolding open_record next_counter nonce
  opening r r' m sealed e =
      let k = from_be 0 (take 8 sealed) in
      elim (Option-cases (lib.decrypt r.receive (nonce lib k) r.binding (drop 8 sealed))) [
        | inl bad ↦ ground arith
        | inr (clear, plain) ↦
            let counter : k ≡ r.receive_counter = ground arith in
            let same : clear ≡ m = ground arith in
            record {
              long = ground arith;
              small = ground arith;
              counter = counter;
              clear =
                  subst
                    (λ (z : ℕ).
                      lib.decrypt r.receive (nonce lib z) r.binding (drop 8 sealed) ≡ some m)
                    counter (plain ∙ ap some same);
              below = ground arith;
              moved = ground arith;
            }
      ]

  opened :
      (r r' : SecureChannel lib) (m sealed : List ℕ)
      → Opening r r' m sealed
      → open_record lib r sealed ≡ (r', ok m)
  unfolding open_record next_counter nonce
  opened r r' m sealed w =
      let size : (leb (length sealed) 24 || ltb 8216 (length sealed)) ≡ false =
        ground (arith, w.long, w.small) in
      let turn : (r.receive_counter == r.receive_counter) ≡ true = ground arith in
      let roomy : ltb (r.receive_counter + 1) (2 ^ 64) ≡ true = ground (arith, w.below) in
      rw (w.moved, size, w.counter, turn, w.clear, roomy) refl

  head_taken : (n : ℕ) (xs : List ℕ) → take 8 (to_be 8 n ++ xs) ≡ to_be 8 n
  head_taken n xs =
      subst (λ (k : ℕ). take k (to_be 8 n ++ xs) ≡ to_be 8 n) (length-to_be 8 n)
        (take-length (to_be 8 n) xs)

  head_dropped : (n : ℕ) (xs : List ℕ) → drop 8 (to_be 8 n ++ xs) ≡ xs
  head_dropped n xs =
      subst (λ (k : ℕ). drop k (to_be 8 n ++ xs) ≡ xs) (length-to_be 8 n)
        (drop-length (to_be 8 n) xs)

  -- The bytes of a record are its counter and its cipher text.
  head_rebuilt :
      (n : ℕ) (out : List ℕ)
      → AreBytes out
      → 24 < length out
      → from_be 0 (take 8 out) ≡ n
      → out ≡ to_be 8 n ++ drop 8 out
  head_rebuilt n out clean long h =
      let width : length (take 8 out) ≡ 8 = length-take 8 out (omega arith) in
      let front : to_be 8 (from_be 0 (take 8 out)) ≡ take 8 out =
        subst (λ (k : ℕ). to_be k (from_be 0 (take 8 out)) ≡ take 8 out) width
          (to_be-from_be (take 8 out) (All-take IsByte 8 out clean)) in
      sym (take-append-drop 8 out)
      ∙ ap (λ (z : List ℕ). z ++ drop 8 out) (sym front ∙ ap (to_be 8) h)

  module _ (laws : IsAead lib) (s r : SecureChannel lib) (linked : Linked lib s r) where
    delivered :
        (m out : List ℕ)
        → Sealing s m out
        → Opening r (record r { receive_counter = r.receive_counter + 1 }) m out
    delivered m out w =
        let size : length w.cipher ≡ length m + 16 = laws.tagged _ _ _ _ _ w.made in
        let whole : length out ≡ 8 + length w.cipher =
          ap length w.whole
          ∙ length-append (to_be 8 s.send_counter) w.cipher
          ∙ ap (λ (k : ℕ). k + length w.cipher) (length-to_be 8 s.send_counter) in
        let front : take 8 out ≡ to_be 8 s.send_counter =
          ap (take 8) w.whole ∙ head_taken s.send_counter w.cipher in
        let back : drop 8 out ≡ w.cipher =
          ap (drop 8) w.whole ∙ head_dropped s.send_counter w.cipher in
        record {
          long = omega (arith, whole, size, w.some_text);
          small = omega (arith, whole, size, w.small);
          counter =
              ap (from_be 0) front
              ∙ from_be-to_be 8 s.send_counter (omega (arith, w.below))
              ∙ linked.counters;
          clear =
              rw (← linked.keys, ← linked.bindings, ← linked.counters, back)
                (laws.opens _ _ _ _ _ w.made);
          below = omega (arith, w.below, linked.counters);
          moved = refl;
        }

    traced :
        (r' : SecureChannel lib) (m out : List ℕ)
        → AreBytes out
        → Opening r r' m out
        → Sealing s m out
    traced r' m out clean w =
        let made = laws.authentic _ _ _ _ _ w.clear in
        let size : length (drop 8 out) ≡ length m + 16 = laws.tagged _ _ _ _ _ made in
        let left = length-drop 8 out in
        record {
          cipher = drop 8 out;
          some_text = omega (arith, size, left, w.long);
          small = omega (arith, size, left, w.small);
          made = rw (linked.keys, linked.bindings, linked.counters) made;
          below = omega (arith, w.below, linked.counters);
          whole = rw linked.counters (head_rebuilt r.receive_counter out clean w.long w.counter);
        }

    -- Between two ends of one channel that stand at one counter, over a cipher that opens exactly what it
    -- sealed: one end seals a text to some bytes, and the other opens these bytes to the text, each
    -- exactly if the text has 1 to 8192 bytes, the counter can still move on in 64 bits, and the bytes are
    -- the counter and the text enciphered under the shared key, with the nonce of that counter and the
    -- session's binding as associated data. The two thus agree on what is a record, and both counters
    -- then move on by one.
    pub seal_iff_open :
        (m out : List ℕ)
        → AreBytes out
        → ((seal lib s m ≡ (record s { send_counter = s.send_counter + 1 }, ok out))
            ↔ IsRecord lib s.send s.binding s.send_counter m out)
          × ((open_record lib r out ≡ (record r { receive_counter = r.receive_counter + 1 }, ok m))
              ↔ IsRecord lib s.send s.binding s.send_counter m out)
    seal_iff_open m out clean = (
      (λ e. sealing s _ m out e, λ w. written s m out w),
      (λ e. traced _ m out clean (opening r _ m out e), λ w. opened r _ m out (delivered m out w)),
    )
