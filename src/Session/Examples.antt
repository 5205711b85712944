-- ===== src/Session/Examples.antt =====
-- Two ends of one channel over a toy cipher, and a stream of two frames.
pub mod Frames
pub mod Handshakes
pub mod HandshakeEnds
use bio_auth.Common.{
  ℕ, ◌≡◌, ◌+◌, refl, sym, ap, ◌∙◌, List, [], ◌∷◌, ◌++◌, Option, some, none, ok, arith, length, take,
  drop, text_eq, text_eq_refl, text_eq→eq, take-append-drop, Bool-cases, inl, inr, if◌then◌else◌,
  subst,
}
use bio_auth.Common.Bytes.{to_be, from_be}
use bio_auth.Session.Channel.{
  Aead, SecureChannel, KeySchedule, server, client, new, nonce, next_counter, seal, open_record,
}
use bio_auth.Session.Channel.Link.{IsAead, Linked, seal_iff_open, IsRecord}
use bio_auth.Session.Channel.Order.{receive_all, open_once}
use bio_auth.Session.Framing.{write_frame, read_frame}
use bio_auth.Session.Framing.RoundTrip.{read_frame_iff}

abbrev pub first_byte : List ℕ → ℕ
first_byte [] = 0
first_byte (b ∷ bytes) = b

-- The tag of sixteen bytes names the key, the last byte of the nonce, and the first of the associated data.
abbrev pub tag : ℕ → List ℕ → List ℕ → List ℕ
tag k n a =
    k
    ∷ first_byte (drop 11 n)
    ∷ first_byte a
    ∷ (0 ∷ 0 ∷ 0 ∷ 0 ∷ 0 ∷ 0 ∷ 0 ∷ 0 ∷ 0 ∷ 0 ∷ 0 ∷ 0 ∷ 0 ∷ [])

abbrev pub toy_decrypt : ℕ → List ℕ → List ℕ → List ℕ → Option (List ℕ)
toy_decrypt k n a c = if text_eq (take 16 c) (tag k n a) then some (drop 16 c) else none

abbrev pub toy : Aead
toy = record {
  Key = ℕ;
  from_key = first_byte;
  encrypt = λ k n a m. some (tag k n a ++ m);
  decrypt = toy_decrypt;
}

marked : (t m c : List ℕ) → some (t ++ m) ≡ some c → t ++ m ≡ c
marked t m c e = ground arith

toy_opens :
    (k : ℕ) (n a m c : List ℕ) → some (tag k n a ++ m) ≡ some c → toy_decrypt k n a c ≡ some m
toy_opens k n a m c e =
    subst (λ (z : List ℕ). toy_decrypt k n a z ≡ some m) (marked (tag k n a) m c e)
      (rw (text_eq_refl (tag k n a)) refl)

toy_authentic :
    (k : ℕ) (n a m c : List ℕ) → toy_decrypt k n a c ≡ some m → some (tag k n a ++ m) ≡ some c
toy_authentic k n a m c e = elim (Bool-cases (text_eq (take 16 c) (tag k n a))) [
  | inl same ↦
      let front : take 16 c ≡ tag k n a = text_eq→eq (take 16 c) (tag k n a) same in
      let back : drop 16 c ≡ m = ground arith in
      ap some (
        ap (λ (z : List ℕ). z ++ m) (sym front)
        ∙ ap (◌++◌ (take 16 c)) (sym back)
        ∙ take-append-drop 16 c)
  | inr other ↦ ground arith
]

toy_tagged : (k : ℕ) (n a m c : List ℕ) → some (tag k n a ++ m) ≡ some c → length c ≡ length m + 16
toy_tagged k n a m c e = omega (arith, ap length (marked (tag k n a) m c e))

toy-IsAead : IsAead toy
toy-IsAead = record {
  opens = λ k n a m c e. toy_opens k n a m c e;
  authentic = λ k n a m c e. toy_authentic k n a m c e;
  tagged = λ k n a m c e. toy_tagged k n a m c e;
}

abbrev schedule : KeySchedule
schedule = record { client_to_server = 11 ∷ []; server_to_client = 22 ∷ []; exporter = [] }

abbrev desktop : SecureChannel toy
desktop = record {
  send = 22;
  receive = 11;
  binding = 5 ∷ [];
  send_counter = 0;
  receive_counter = 0;
}

abbrev phone : SecureChannel toy
phone = record { send = 11; receive = 22; binding = 5 ∷ []; send_counter = 0; receive_counter = 0 }

abbrev sealed : List ℕ
sealed = 0 ∷ 0 ∷ 0 ∷ 0 ∷ 0 ∷ 0 ∷ 0 ∷ 0 ∷ (tag 22 [] (5 ∷ []) ++ 7 ∷ 8 ∷ [])

ends : Linked toy (new toy server schedule (5 ∷ [])) (new toy client schedule (5 ∷ []))
unfolding new
ends = record { keys = refl; bindings = refl; counters = refl }

sent : seal toy desktop (7 ∷ 8 ∷ []) ≡ (record desktop { send_counter = 1 }, ok sealed)
unfolding seal nonce next_counter to_be
sent = refl

written : IsRecord toy 22 (5 ∷ []) 0 (7 ∷ 8 ∷ []) sealed
unfolding to_be
written = record {
  cipher = tag 22 (0 ∷ 0 ∷ 0 ∷ 0 ∷ to_be 8 0) (5 ∷ []) ++ 7 ∷ 8 ∷ [];
  some_text = omega arith;
  small = omega arith;
  made = refl;
  below = omega arith;
  whole = refl;
}

seal_iff_open_example :
    open_record toy phone sealed ≡ (record phone { receive_counter = 1 }, ok (7 ∷ 8 ∷ []))
unfolding new
seal_iff_open_example =
    (seal_iff_open toy toy-IsAead desktop phone ends (7 ∷ 8 ∷ []) sealed (ground arith)).1.1 written

arrived : (open_record toy phone sealed).1 ≡ ok (7 ∷ 8 ∷ [])
unfolding open_record from_be to_be nonce next_counter
arrived = refl

open_once_example : ¬ (
    (open_record toy (receive_all toy (open_record toy phone sealed).0 ((1 ∷ []) ∷ [])) sealed).1
    ≡ ok (7 ∷ 8 ∷ []))
open_once_example = open_once toy phone sealed ((1 ∷ []) ∷ []) (7 ∷ 8 ∷ []) (7 ∷ 8 ∷ []) arrived

read_frame_iff_example : read_frame (0 ∷ 0 ∷ 0 ∷ 2 ∷ 7 ∷ 8 ∷ 0 ∷ []) ≡ ok (7 ∷ 8 ∷ [], 0 ∷ [])
unfolding write_frame to_be
read_frame_iff_example =
    (read_frame_iff (0 ∷ 0 ∷ 0 ∷ 2 ∷ 7 ∷ 8 ∷ 0 ∷ []) (7 ∷ 8 ∷ []) (0 ∷ []) (ground arith)).1
      (0 ∷ 0 ∷ 0 ∷ 2 ∷ 7 ∷ 8 ∷ [], refl, refl)
