-- ===== src/Session/Handshake/RoundTrip.antt =====
-- What handshake.rs of phone-auth-session/src writes is read back: the two hellos.
use bio_auth.Common.{
  ℕ, ◌<◌, ◌^◌, ◌≡◌, refl, subst, List, [], ◌++◌, append-nil, append_assoc, arith, length, ok, some,
  true,
}
use bio_auth.Common.Int.{IsI64}
use bio_auth.Cbor.Reader
use bio_auth.Cbor.Reader.{Reader, Read, new}
use bio_auth.Cbor.Items.{array_item, uint_item, int_item, text_item, bytes_item, writes}
use bio_auth.Cbor.RoundTrip.{array-Reads, uint-Reads, int-Reads}
use bio_auth.Cbor.Position.{Reads}
use bio_auth.Protocol.Codec.{Reads-bind, Reads-pure, check-Reads}
use bio_auth.Protocol.Items.{IsText}
use bio_auth.Session.Bootstrap.{ServerBootstrap}
use bio_auth.Session.Handshake.{
  ServerHello, ClientHello, PairingIntent, intent_wire, intent_from_wire,
}
use bio_auth.Session.Handshake.Hello.{
  encode_server_hello, server_fields, client_body, decode_server_hello, encode_client_hello,
  client_fields, decode_client_hello, carries_intent, read_intent,
}
use bio_auth.Session.Handshake.Reading.{
  item-Reads, whole-Reads, expect-Reads, fixed-Reads, text-field, bytes-field,
}

pub record IsTypedServer (m : ServerHello) : Type 0 where
  pub session_id_typed : IsText m.session_id
  pub nonce_typed : length m.nonce ≡ 32
  pub verifier_id_typed : IsText m.verifier_id
  pub expires_at_ms_typed : IsI64 m.expires_at_ms
  pub identity_spki_typed : length m.identity_spki < 2 ^ 64
  pub ephemeral_typed : length m.ephemeral ≡ 32

unfoldable pub server_items : ServerHello → List ℕ
server_items m =
    array_item 8
    ++ (uint_item 16
        ++ (uint_item 1
            ++ (text_item m.session_id
                ++ (bytes_item m.nonce
                    ++ (text_item m.verifier_id
                        ++ (int_item m.expires_at_ms
                            ++ (bytes_item m.identity_spki ++ (bytes_item m.ephemeral ++ []))))))))

-- The hello that `begin` writes.
abbrev pub hello_of : ServerBootstrap → List ℕ → List ℕ → ServerHello
hello_of b spki ephemeral = record {
  session_id = b.session_id;
  nonce = b.nonce;
  verifier_id = b.verifier_id;
  expires_at_ms = b.expires_at_ms;
  identity_spki = spki;
  ephemeral = ephemeral;
}

pub encode_server-items :
    (b : ServerBootstrap) (spki ephemeral : List ℕ)
    → encode_server_hello b spki ephemeral ≡ server_items (hello_of b spki ephemeral)
unfolding encode_server_hello server_items
encode_server-items b spki ephemeral =
    simp (encode_server_hello, server_items, writes, append_assoc, append-nil)

server-Reads : (m : ServerHello) → IsTypedServer m → Reads server_fields (server_items m) m
unfolding server_fields server_items
server-Reads m w =
    Reads-bind _ _ _ _ tt m (expect-Reads Reader.array _ 8 _ (array-Reads 8 (omega arith))) (
      Reads-bind _ _ _ _ tt m (expect-Reads Reader.uint _ 16 _ (uint-Reads 16 (omega arith))) (
        Reads-bind _ _ _ _ tt m (expect-Reads Reader.uint _ 1 _ (uint-Reads 1 (omega arith))) (
          Reads-bind _ _ _ _ m.session_id m (text-field _ w.session_id_typed) (
            Reads-bind _ _ _ _ m.nonce m (fixed-Reads _ _ w.nonce_typed) (
              Reads-bind _ _ _ _ m.verifier_id m (text-field _ w.verifier_id_typed) (
                Reads-bind _ _ _ _ m.expires_at_ms m
                  (item-Reads Reader.int _ _ (int-Reads _ w.expires_at_ms_typed))
                  (Reads-bind _ _ _ _ m.identity_spki m (bytes-field _ w.identity_spki_typed) (
                    Reads-bind _ _ _ _ m.ephemeral m (fixed-Reads _ _ w.ephemeral_typed)
                      (Reads-pure m)))))))))

pub decode_server-encode :
    (b : ServerBootstrap) (spki ephemeral : List ℕ)
    → IsTypedServer (hello_of b spki ephemeral)
    → length (encode_server_hello b spki ephemeral) < 2 ^ 64
    → decode_server_hello (encode_server_hello b spki ephemeral) ≡ ok (hello_of b spki ephemeral)
unfolding decode_server_hello
decode_server-encode b spki ephemeral w short =
    let m = hello_of b spki ephemeral in
    whole-Reads server_fields (encode_server_hello b spki ephemeral) m
      (rw (encode_server-items b spki ephemeral) (server-Reads m w)) short

pub record IsTypedClient (m : ClientHello) : Type 0 where
  pub session_id_typed : IsText m.session_id
  pub nonce_typed : length m.nonce ≡ 32
  pub verifier_id_typed : IsText m.verifier_id
  pub expires_at_ms_typed : IsI64 m.expires_at_ms
  pub device_id_typed : IsText m.device_id
  pub server_ephemeral_typed : length m.server_ephemeral ≡ 32
  pub ephemeral_typed : length m.ephemeral ≡ 32
  pub identity_spki_typed : length m.identity_spki < 2 ^ 64

unfoldable pub body_items : ClientHello → PairingIntent → List ℕ
body_items m intent =
    text_item m.session_id
    ++ (bytes_item m.nonce
        ++ (text_item m.verifier_id
            ++ (int_item m.expires_at_ms
                ++ (text_item m.device_id
                    ++ (bytes_item m.server_ephemeral
                        ++ (bytes_item m.ephemeral
                            ++ (bytes_item m.identity_spki
                                ++ (uint_item (intent_wire intent) ++ []))))))))

unfoldable pub client_items : ClientHello → PairingIntent → List ℕ
unfolding body_items
client_items m intent = array_item 11 ++ (uint_item 17 ++ (uint_item 2 ++ body_items m intent))

abbrev pub encode_of : ClientHello → PairingIntent → List ℕ
encode_of m intent =
    encode_client_hello m.session_id m.nonce m.verifier_id m.expires_at_ms m.device_id
      m.server_ephemeral m.ephemeral m.identity_spki intent

pub encode_client-items :
    (m : ClientHello) (intent : PairingIntent) → encode_of m intent ≡ client_items m intent
unfolding encode_client_hello client_items
encode_client-items m intent =
    simp (encode_client_hello, client_items, writes, append_assoc, append-nil)

intent-Reads :
    (intent : PairingIntent)
    → Reads (read_intent true) (uint_item (intent_wire intent)) (some intent)
unfolding read_intent intent_from_wire
intent-Reads intent =
    subst (λ (z : List ℕ). Reads (read_intent true) z (some intent))
      (append-nil (uint_item (intent_wire intent)))
      (Reads-bind _ _ (uint_item (intent_wire intent)) [] (intent_wire intent) (some intent)
        (item-Reads Reader.uint _ _ (uint-Reads _ (small intent)))
        (Reads-bind _ _ [] [] intent (some intent) (check-Reads _ intent (known intent))
          (Reads-pure (some intent))))
  where
    small : (i : PairingIntent) → intent_wire i < 2 ^ 64
    small PairingIntent.resume = omega arith
    small PairingIntent.pair = omega arith

    known : (i : PairingIntent) → intent_from_wire (intent_wire i) ≡ ok i
    known PairingIntent.resume = refl
    known PairingIntent.pair = refl

body-Reads :
    (m : ClientHello) (intent : PairingIntent)
    → IsTypedClient m
    → Reads (client_body true) (body_items m intent) (record m { intent = some intent })
unfolding client_body body_items
body-Reads m intent w =
    let out : ClientHello = record m { intent = some intent } in
    Reads-bind _ _ _ _ m.session_id out (text-field _ w.session_id_typed) (
      Reads-bind _ _ _ _ m.nonce out (fixed-Reads _ _ w.nonce_typed) (
        Reads-bind _ _ _ _ m.verifier_id out (text-field _ w.verifier_id_typed) (
          Reads-bind _ _ _ _ m.expires_at_ms out
            (item-Reads Reader.int _ _ (int-Reads _ w.expires_at_ms_typed))
            (Reads-bind _ _ _ _ m.device_id out (text-field _ w.device_id_typed) (
              Reads-bind _ _ _ _ m.server_ephemeral out (fixed-Reads _ _ w.server_ephemeral_typed) (
                Reads-bind _ _ _ _ m.ephemeral out (fixed-Reads _ _ w.ephemeral_typed) (
                  Reads-bind _ _ _ _ m.identity_spki out (bytes-field _ w.identity_spki_typed) (
                    Reads-bind _ _ _ _ (some intent) out (intent-Reads intent)
                      (Reads-pure out)))))))))

known_shape : carries_intent 11 2 ≡ ok true
unfolding carries_intent
known_shape = refl

client-Reads :
    (m : ClientHello) (intent : PairingIntent)
    → IsTypedClient m
    → Reads client_fields (client_items m intent) (record m { intent = some intent })
unfolding client_fields client_items body_items
client-Reads m intent w =
    let out : ClientHello = record m { intent = some intent } in
    Reads-bind _ _ _ _ 11 out (item-Reads Reader.array _ 11 (array-Reads 11 (omega arith))) (
      Reads-bind _ _ _ _ tt out (expect-Reads Reader.uint _ 17 _ (uint-Reads 17 (omega arith))) (
        Reads-bind _ _ _ _ 2 out (item-Reads Reader.uint _ 2 (uint-Reads 2 (omega arith))) (
          Reads-bind _ client_body [] (body_items m intent) true out
            (check-Reads (carries_intent 11 2) true known_shape) (body-Reads m intent w))))

pub decode_client-encode :
    (m : ClientHello) (intent : PairingIntent)
    → IsTypedClient m
    → length (encode_of m intent) < 2 ^ 64
    → decode_client_hello (encode_of m intent) ≡ ok (record m { intent = some intent })
unfolding decode_client_hello
decode_client-encode m intent w short =
    whole-Reads client_fields (encode_of m intent) (record m { intent = some intent })
      (rw (encode_client-items m intent) (client-Reads m intent w)) short
