-- ===== src/Session/Channel/Order.antt =====
-- The counters of phone-auth-session/src/channel.rs over any number of records.
use bio_auth.Common.{ℕ, ◌≡◌, ◌≤◌, ◌<◌, List, [], ◌∷◌, ok, arith, take}
use bio_auth.Common.Bytes.{from_be}
use bio_auth.Session.Channel.{Aead, SecureChannel, next_counter, open_record}

module _ (lib : Aead) where
  -- The records that arrive, one after another.
  unfoldable pub receive_all : SecureChannel lib → List (List ℕ) → SecureChannel lib
  receive_all c [] = c
  receive_all c (r ∷ rs) = receive_all (open_record lib c r).0 rs

  -- A record moves the counter by one if it is opened, and not at all if it is refused.
  counter_step :
      (c : SecureChannel lib) (r : List ℕ)
      → c.receive_counter ≤ (open_record lib c r).0.receive_counter
  unfolding open_record next_counter
  counter_step c r = ground arith

  opened_counter :
      (c : SecureChannel lib) (r m : List ℕ)
      → (open_record lib c r).1 ≡ ok m
      → (from_be 0 (take 8 r) < (open_record lib c r).0.receive_counter)
  unfolding open_record next_counter
  opened_counter c r m e = ground arith

  counter_all :
      (rs : List (List ℕ)) (c : SecureChannel lib)
      → c.receive_counter ≤ (receive_all c rs).receive_counter
  unfolding receive_all
  counter_all [] c = omega arith
  counter_all (r ∷ rs) c = omega (arith, counter_step c r, counter_all rs (open_record lib c r).0)

  refused :
      (c : SecureChannel lib) (r m : List ℕ)
      → from_be 0 (take 8 r) < c.receive_counter
      → ¬ ((open_record lib c r).1 ≡ ok m)
  unfolding open_record
  refused c r m old e = ground arith

  -- A record that was opened is never opened again, whatever other records arrive in between: a channel
  -- accepts each record at most once.
  pub open_once :
      (c : SecureChannel lib) (r : List ℕ) (between : List (List ℕ)) (m again : List ℕ)
      → (open_record lib c r).1 ≡ ok m
      → ¬ ((open_record lib (receive_all (open_record lib c r).0 between) r).1 ≡ ok again)
  open_once c r between m again e =
      refused (receive_all (open_record lib c r).0 between) r again
        (omega (arith, opened_counter c r m e, counter_all between (open_record lib c r).0))
