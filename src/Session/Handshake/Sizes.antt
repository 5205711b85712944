-- ===== src/Session/Handshake/Sizes.antt =====
-- How long the messages of phone-auth-session/src/handshake.rs are.
use bio_auth.Common.{ℕ, ◌+◌, ◌≤◌, arith, List, length, length-append}
use bio_auth.Cbor.Items.{bytes_item}
use bio_auth.Protocol.Bounds.{
  length-head_bytes, head_bytes_pos, length-int_item, length-text_item, length-bytes_item,
}
use bio_auth.Session.Bootstrap.{ServerBootstrap}
use bio_auth.Session.Handshake.{ClientHello, PairingIntent, intent_wire}
use bio_auth.Session.Handshake.Hello.{envelope, encode_server_hello}
use bio_auth.Session.Handshake.Reading.{envelope_items, envelope-items}
use bio_auth.Session.Handshake.RoundTrip.{
  server_items, encode_server-items, client_items, body_items, encode_client-items, encode_of,
}

-- An envelope is longer than its parts.
pub length-envelope :
    (u s : List ℕ) → (length u ≤ length (envelope u s)) × (length s ≤ length (envelope u s))
unfolding envelope_items bytes_item
length-envelope u s = rw (envelope-items u s) (omega (arith, length-append {0}))

-- A hello is longer than the key in it.
pub length-server :
    (b : ServerBootstrap) (spki ephemeral : List ℕ)
    → length spki ≤ length (encode_server_hello b spki ephemeral)
unfolding server_items bytes_item
length-server b spki ephemeral =
    rw (encode_server-items b spki ephemeral) (omega (arith, length-append {0}))

pub length-client :
    (m : ClientHello) (intent : PairingIntent)
    → length m.identity_spki ≤ length (encode_of m intent)
unfolding client_items body_items bytes_item
length-client m intent = rw (encode_client-items m intent) (omega (arith, length-append {0}))

pub size-envelope :
    (u s : List ℕ)
    → (1 ≤ length (envelope u s)) × (length (envelope u s) ≤ length u + length s + 27)
unfolding envelope_items
size-envelope u s = rw (envelope-items u s) (
    omega (
      arith,
      length-append {0},
      head_bytes_pos 4 2,
      length-head_bytes 4 2,
      length-bytes_item u,
      length-bytes_item s,
    ))

pub size-server :
    (b : ServerBootstrap) (spki ephemeral : List ℕ)
    → length (encode_server_hello b spki ephemeral)
      ≤ 81
        + length b.session_id
        + length b.nonce
        + length b.verifier_id
        + length spki
        + length ephemeral
unfolding server_items
size-server b spki ephemeral = rw (encode_server-items b spki ephemeral) (
    omega (
      arith,
      length-append {0},
      length-head_bytes 4 8,
      length-head_bytes 0 16,
      length-head_bytes 0 1,
      length-text_item b.session_id,
      length-bytes_item b.nonce,
      length-text_item b.verifier_id,
      length-int_item b.expires_at_ms,
      length-bytes_item spki,
      length-bytes_item ephemeral,
    ))

size-body :
    (m : ClientHello) (intent : PairingIntent)
    → length (body_items m intent)
      ≤ 81
        + length m.session_id
        + length m.nonce
        + length m.verifier_id
        + length m.device_id
        + length m.server_ephemeral
        + length m.ephemeral
        + length m.identity_spki
unfolding body_items
size-body m intent = omega (
  arith,
  length-append {0},
  length-text_item m.session_id,
  length-bytes_item m.nonce,
  length-text_item m.verifier_id,
  length-int_item m.expires_at_ms,
  length-text_item m.device_id,
  length-bytes_item m.server_ephemeral,
  length-bytes_item m.ephemeral,
  length-bytes_item m.identity_spki,
  length-head_bytes 0 (intent_wire intent),
)

pub size-client :
    (m : ClientHello) (intent : PairingIntent)
    → length (encode_of m intent)
      ≤ 108
        + length m.session_id
        + length m.nonce
        + length m.verifier_id
        + length m.device_id
        + length m.server_ephemeral
        + length m.ephemeral
        + length m.identity_spki
unfolding client_items
size-client m intent = rw (encode_client-items m intent) (
    omega (
      arith,
      length-append {0},
      length-head_bytes 4 11,
      length-head_bytes 0 17,
      length-head_bytes 0 2,
      size-body m intent,
    ))
