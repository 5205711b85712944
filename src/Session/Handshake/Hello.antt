-- ===== src/Session/Handshake/Hello.antt =====
-- The two hellos and their envelope, of phone-auth-session/src/handshake.rs.
use bio_auth.Common.{
  ℕ, List, Bool, true, false, ◌||◌, ◌&&◌, Option, none, some, Result, ok, err, refuse, map_err,
  ◌==◌, ltb, length, is_empty, if◌then◌else◌, ◌>>=◌ as then_result,
}
use bio_auth.Common.Int.{ℤ}
use bio_auth.Cbor.Reader
use bio_auth.Cbor.Writer.{new, ◌▹◌, array, uint, text, bytes, int}
use bio_auth.Session.Channel.{SessionError, invalid_frame, cbor}
use bio_auth.Session.Bootstrap.{ServerBootstrap}
use bio_auth.Session.Handshake.{
  ServerHello, ClientHello, PairingIntent, intent_wire, intent_from_wire, server_hello,
  client_hello, version, version_with_intent, max_handshake_frame,
}
use bio_auth.Session.Handshake.Parser.{Parser, ◌>>=◌, ◌>>◌, pure, item, check, expect, fixed}

unfoldable pub encode_server_hello : ServerBootstrap → List ℕ → List ℕ → List ℕ
encode_server_hello bootstrap identity_spki ephemeral =
    (new
      ▹ array 8
      ▹ uint server_hello
      ▹ uint version
      ▹ text bootstrap.session_id
      ▹ bytes bootstrap.nonce
      ▹ text bootstrap.verifier_id
      ▹ int bootstrap.expires_at_ms
      ▹ bytes identity_spki
      ▹ bytes ephemeral).buf

unfoldable pub server_fields : Parser ServerHello
server_fields = do
  expect Reader.array 8 "invalid server hello"
  expect Reader.uint server_hello "invalid server hello"
  expect Reader.uint version "invalid server hello"
  session_id ← item Reader.text
  nonce ← fixed "invalid nonce"
  verifier_id ← item Reader.text
  expires_at_ms ← item Reader.int
  identity_spki ← item Reader.bytes
  ephemeral ← fixed "invalid verifier ephemeral key"
  pure (record {
    session_id = session_id;
    nonce = nonce;
    verifier_id = verifier_id;
    expires_at_ms = expires_at_ms;
    identity_spki = identity_spki;
    ephemeral = ephemeral;
  })

-- All fields, and then the end of the frame.
unfoldable pub read_whole : {A : Type 0} → Parser A → List ℕ → Result SessionError A
read_whole fields frame =
    then_result (fields (Reader.new frame))
      λ x. then_result (map_err cbor (Reader.finish x.1)) λ _. ok x.0

unfoldable pub decode_server_hello : List ℕ → Result SessionError ServerHello
decode_server_hello frame = read_whole server_fields frame

unfoldable pub encode_client_hello :
    List ℕ → List ℕ → List ℕ → ℤ → List ℕ → List ℕ → List ℕ → List ℕ → PairingIntent → List ℕ
encode_client_hello session_id nonce verifier_id expires_at_ms device_id server_ephemeral ephemeral
      identity_spki intent =
    (new
      ▹ array 11
      ▹ uint client_hello
      ▹ uint version_with_intent
      ▹ text session_id
      ▹ bytes nonce
      ▹ text verifier_id
      ▹ int expires_at_ms
      ▹ text device_id
      ▹ bytes server_ephemeral
      ▹ bytes ephemeral
      ▹ bytes identity_spki
      ▹ uint (intent_wire intent)).buf

-- `match (fields, version)`.
unfoldable pub carries_intent : ℕ → ℕ → Result SessionError Bool
carries_intent fields found =
    if fields == 11 && found == version_with_intent
    then ok true
    else (if fields == 10 && found == version
        then ok false
        else err (invalid_frame "invalid client hello"))

unfoldable pub read_intent : Bool → Parser (Option PairingIntent)
read_intent true = do
  value ← item Reader.uint
  intent ← check (intent_from_wire value)
  pure (some intent)
read_intent false = pure none

-- The fields behind the version.
unfoldable pub client_body : Bool → Parser ClientHello
client_body with_intent = do
  session_id ← item Reader.text
  nonce ← fixed "invalid nonce"
  verifier_id ← item Reader.text
  expires_at_ms ← item Reader.int
  device_id ← item Reader.text
  server_ephemeral ← fixed "invalid verifier ephemeral key"
  ephemeral ← fixed "invalid client ephemeral key"
  identity_spki ← item Reader.bytes
  intent ← read_intent with_intent
  pure (record {
    session_id = session_id;
    nonce = nonce;
    verifier_id = verifier_id;
    expires_at_ms = expires_at_ms;
    device_id = device_id;
    server_ephemeral = server_ephemeral;
    ephemeral = ephemeral;
    identity_spki = identity_spki;
    intent = intent;
  })

unfoldable pub client_fields : Parser ClientHello
client_fields = do
  fields ← item Reader.array
  expect Reader.uint client_hello "invalid client hello"
  found ← item Reader.uint
  with_intent ← check (carries_intent fields found)
  client_body with_intent

unfoldable pub decode_client_hello : List ℕ → Result SessionError ClientHello
decode_client_hello frame = read_whole client_fields frame

unfoldable pub envelope : List ℕ → List ℕ → List ℕ
envelope unsigned signature = (new ▹ array 2 ▹ bytes unsigned ▹ bytes signature).buf

unfoldable pub envelope_fields : Parser (List ℕ × List ℕ)
envelope_fields = do
  expect Reader.array 2 "invalid handshake envelope"
  unsigned ← item Reader.bytes
  signature ← item Reader.bytes
  pure (unsigned, signature)

unfoldable pub decode_envelope : List ℕ → Result SessionError (List ℕ × List ℕ)
decode_envelope frame =
    then_result
      (refuse (is_empty frame || ltb max_handshake_frame (length frame))
        (invalid_frame "invalid handshake frame size"))
      λ _. read_whole envelope_fields frame
