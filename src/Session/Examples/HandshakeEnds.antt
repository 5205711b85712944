-- ===== src/Session/Examples/HandshakeEnds.antt =====
-- The conditions at either end of the pairing of Handshakes, met.
use bio_auth.Common.{ℕ, ◌≡◌, refl, List, [], ◌∷◌, some, ok, arith, str, true, ◌⊎◌}
use bio_auth.Common.Int.{pos}
use bio_auth.Common.Bytes.{to_be, from_be}
use bio_auth.Text.{is_utf8}
use bio_auth.Cbor.Reader
use bio_auth.Cbor.Writer
use bio_auth.Session.Crypto.{hash_identity}
use bio_auth.Session.Bootstrap.{validate}
use bio_auth.Session.Handshake.{HandshakeOutcome, PeerExpectation, VerifierExpectation, pair}
use bio_auth.Session.Handshake.Parser.{expect}
use bio_auth.Session.Handshake.Hello.{
  encode_server_hello, encode_client_hello, envelope, decode_envelope, envelope_fields, read_whole,
}
use bio_auth.Session.Handshake.Server.{finish}
use bio_auth.Session.Handshake.Client.{respond}
use bio_auth.Session.Examples.Handshakes.{
  libraries, code, server_text, begun_with, hello, client_text, answer, phone_hello, key_schedule,
  zeros, server_public, client_public,
}
use bio_auth.Session.Channel.{new, server, client}
use bio_auth.Session.Keys.{derive, split, verification_code, SessionBindingInputs, session_binding}
use bio_auth.Session.Keys.Injective.{session_binding-inj, Collision}
use bio_auth.Session.Handshake.{ServerHello, intent_from_wire}
use bio_auth.Session.Handshake.Parser.{fixed}
use bio_auth.Session.Handshake.Hello.{
  client_fields, client_body, read_intent, carries_intent, decode_client_hello, server_fields,
  decode_server_hello,
}
use bio_auth.Session.Handshake.Outcome.{binding_of}
use bio_auth.Session.Handshake.Safety.{finish_iff}
use bio_auth.Session.Handshake.Trust.{respond_iff}

answer_opens : decode_envelope answer ≡ ok (client_text, 6 ∷ [])
unfolding decode_envelope envelope envelope_fields read_whole encode_client_hello expect
    Reader.array Reader.bytes Reader.expect Reader.head Reader.take Reader.argument
    Reader.argument_of Reader.finish Writer.array Writer.uint Writer.int Writer.text Writer.bytes
    Writer.head Writer.head_bytes to_be from_be
answer_opens = refl

hello_opens : decode_envelope hello ≡ ok (server_text, 5 ∷ [])
unfolding decode_envelope envelope envelope_fields read_whole encode_server_hello expect
    Reader.array Reader.bytes Reader.expect Reader.head Reader.take Reader.argument
    Reader.argument_of Reader.finish Writer.array Writer.uint Writer.int Writer.text Writer.bytes
    Writer.head Writer.head_bytes to_be from_be
hello_opens = refl

answer_reads : decode_client_hello client_text ≡ ok phone_hello
unfolding decode_client_hello client_fields client_body read_intent carries_intent intent_from_wire
    read_whole encode_client_hello fixed is_utf8 Reader.text Reader.uint Reader.int expect
    Reader.array Reader.bytes Reader.expect Reader.head Reader.take Reader.argument
    Reader.argument_of Reader.finish Writer.array Writer.uint Writer.int Writer.text Writer.bytes
    Writer.head Writer.head_bytes to_be from_be
answer_reads = refl

abbrev desktop_hello : ServerHello
desktop_hello = record {
  session_id = str "s1";
  nonce = zeros 32;
  verifier_id = str "v1";
  expires_at_ms = pos 1000;
  identity_spki = 5 ∷ [];
  ephemeral = server_public;
}

hello_reads : decode_server_hello server_text ≡ ok desktop_hello
unfolding decode_server_hello server_fields read_whole encode_server_hello fixed is_utf8 Reader.text
    Reader.uint Reader.int expect Reader.array Reader.bytes Reader.expect Reader.head Reader.take
    Reader.argument Reader.argument_of Reader.finish Writer.array Writer.uint Writer.int Writer.text
    Writer.bytes Writer.head Writer.head_bytes to_be from_be
hello_reads = refl

abbrev at_desktop : HandshakeOutcome libraries
at_desktop = record {
  channel =
      new libraries.aead server key_schedule
        (binding_of libraries (str "tcp") (str "s1") server_public client_public key_schedule);
  peer_identity_spki = 6 ∷ [];
  peer_device_id = str "phone";
  verification_code = verification_code libraries (zeros 32);
  was_pairing = true;
  intent = some pair;
}

finish_iff_example :
    finish libraries begun_with answer PeerExpectation.pairing (str "tcp") ≡ ok at_desktop
unfolding derive split
finish_iff_example =
    (finish_iff libraries begun_with answer PeerExpectation.pairing (str "tcp") at_desktop).1
      (record {
        unsigned = client_text;
        der = 6 ∷ [];
        hello = phone_hello;
        schedule = key_schedule;
        opened = answer_opens;
        read = answer_reads;
        echoed = record {
          session = refl;
          verifier = refl;
          nonce = refl;
          deadline = refl;
          key = refl;
        };
        expected = tt;
        signed = (6, 6, refl, refl, refl);
        keys = refl;
        result = refl;
      })

abbrev at_phone : HandshakeOutcome libraries
at_phone = record {
  channel =
      new libraries.aead client key_schedule
        (binding_of libraries (str "tcp") (str "s1") server_public client_public key_schedule);
  peer_identity_spki = 5 ∷ [];
  peer_device_id = str "v1";
  verification_code = verification_code libraries (zeros 32);
  was_pairing = true;
  intent = some pair;
}

respond_iff_example :
    respond libraries hello
      (VerifierExpectation.scanned code)
      (str "phone")
      6
      (str "tcp")
      (pos 7)
      (4 ∷ [])
    ≡ ok (answer, at_phone)
unfolding derive split validate hash_identity
respond_iff_example =
    (respond_iff libraries hello (VerifierExpectation.scanned code) (str "phone") 6 (str "tcp")
        (pos 7) (4 ∷ []) answer at_phone).1
      (record {
        unsigned = server_text;
        der = 5 ∷ [];
        hello = desktop_hello;
        spki = 6 ∷ [];
        schedule = key_schedule;
        client_unsigned = client_text;
        named = refl;
        opened = hello_opens;
        read = hello_reads;
        vouched =
            (refl, record { session = refl; verifier = refl; nonce = refl; deadline = refl }, refl);
        live = refl;
        signed = (5, 5, refl, refl, refl);
        own = refl;
        written = refl;
        answered = refl;
        keys = refl;
        result = refl;
      })

abbrev inputs : List ℕ → SessionBindingInputs
inputs session_id = record {
  transport_name = str "tcp";
  session_id = session_id;
  server_ephemeral = server_public;
  client_ephemeral = client_public;
  exporter = zeros 32;
}

session_binding-inj_example : (inputs (str "s1") ≡ inputs (str "s2")) ⊎ Collision libraries
unfolding session_binding
session_binding-inj_example =
    session_binding-inj libraries (inputs (str "s1")) (inputs (str "s2")) (omega arith)
      (omega arith) refl
