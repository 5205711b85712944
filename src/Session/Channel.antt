-- ===== src/Session/Channel.antt =====
-- phone-auth-session/src/channel.rs: records in order, each under its own counter. The cipher is a
-- parameter.
pub mod Link
pub mod Order
use bio_auth.Common.{
  ℕ, ◌+◌, ◌^◌, List, [], ◌∷◌, ◌++◌, Bool, ◌||◌, not, Option, none, some, Result, ok, err, ◌>>=◌,
  ◌>>◌, refuse, length, take, drop, leb, ltb, ◌==◌, is_empty, String, if◌then◌else◌,
}
use bio_auth.Common.Bytes.{to_be, from_be}
use bio_auth.Cbor.Reader.{CborError}

-- `ChaCha20Poly1305::new`, and its `encrypt` and `decrypt`: key, nonce, associated data, text.
pub record Aead : Type 1 where
  pub Key : Type 0
  pub from_key : List ℕ → Key
  pub encrypt : Key → List ℕ → List ℕ → List ℕ → Option (List ℕ)
  pub decrypt : Key → List ℕ → List ℕ → List ℕ → Option (List ℕ)

abbrev pub max_frame : ℕ
max_frame = 8192

abbrev pub record_overhead : ℕ
record_overhead = 8 + 16

pub data Role : Type 0 where
  server client : Role

pub data SessionError : Type 0 where
  invalid_bootstrap invalid_frame : String → SessionError
  bootstrap_expired identity_key signature peer_mismatch : SessionError
  cbor : CborError → SessionError
  verifier_identity_mismatch kdf encrypt decrypt replay counter_exhausted : SessionError

pub record SecureChannel (lib : Aead) : Type 0 where
  pub send : lib.Key
  pub receive : lib.Key
  pub binding : List ℕ
  pub send_counter : ℕ
  pub receive_counter : ℕ

pub record KeySchedule : Type 0 where
  pub client_to_server : List ℕ
  pub server_to_client : List ℕ
  pub exporter : List ℕ

module _ (lib : Aead) where
  unfoldable pub new : Role → KeySchedule → List ℕ → SecureChannel lib
  new server schedule binding = record {
    send = lib.from_key schedule.server_to_client;
    receive = lib.from_key schedule.client_to_server;
    binding = binding;
    send_counter = 0;
    receive_counter = 0;
  }
  new client schedule binding = record {
    send = lib.from_key schedule.client_to_server;
    receive = lib.from_key schedule.server_to_client;
    binding = binding;
    send_counter = 0;
    receive_counter = 0;
  }

  -- Four bytes of zero, and the counter.
  unfoldable pub nonce : ℕ → List ℕ
  nonce counter = 0 ∷ 0 ∷ 0 ∷ 0 ∷ to_be 8 counter

  -- `checked_add(1)` on a `u64`.
  unfoldable pub next_counter : ℕ → Option ℕ
  next_counter counter = if ltb (counter + 1) (2 ^ 64) then some (counter + 1) else none

  unfoldable pub seal :
      SecureChannel lib → List ℕ → SecureChannel lib × Result SessionError (List ℕ)
  seal c cleartext =
      if is_empty cleartext || ltb max_frame (length cleartext)
      then (c, err (invalid_frame "invalid cleartext frame size"))
      else elim (lib.encrypt c.send (nonce c.send_counter) c.binding cleartext) [
        | none ↦ (c, err encrypt)
        | some cipher ↦ elim (next_counter c.send_counter) [
          | none ↦ (c, err counter_exhausted)
          | some n ↦ (record c { send_counter = n }, ok (to_be 8 c.send_counter ++ cipher))
        ]
      ]

  unfoldable pub open_record :
      SecureChannel lib → List ℕ → SecureChannel lib × Result SessionError (List ℕ)
  open_record c sealed =
      if leb (length sealed) record_overhead || ltb (max_frame + record_overhead) (length sealed)
      then (c, err (invalid_frame "invalid encrypted record size"))
      else (let counter = from_be 0 (take 8 sealed) in
          if not (counter == c.receive_counter)
          then (c, err replay)
          else elim (lib.decrypt c.receive (nonce counter) c.binding (drop 8 sealed)) [
            | none ↦ (c, err decrypt)
            | some clear ↦ elim (next_counter c.receive_counter) [
              | none ↦ (c, err counter_exhausted)
              | some n ↦ (record c { receive_counter = n }, ok clear)
            ]
          ])
