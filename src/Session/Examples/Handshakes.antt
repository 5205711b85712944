-- ===== src/Session/Examples/Handshakes.antt =====
-- A pairing over toy libraries that keep the promises of the real ones.
use bio_auth.Common.{
  ℕ, zero, suc, ◌≡◌, ◌+◌, ◌==◌, refl, ap, List, [], ◌∷◌, Option, some, none, ok, arith, length, str,
  ==_iff,
}
use bio_auth.Common.Int.{pos}
use bio_auth.Protocol.Enrolment.{authorization}
use bio_auth.Verifier.Signature.{P256}
use bio_auth.Session.Crypto.{Library, IsLibrary}
use bio_auth.Session.Bootstrap.{ServerBootstrap}
use bio_auth.Session.Examples.{toy}
use bio_auth.Text.{is_utf8}
use bio_auth.Protocol.Items.{IsText}
use bio_auth.Session.Channel.{KeySchedule}
use bio_auth.Session.Crypto.{public_key_spki, hash_identity}
use bio_auth.Session.Bootstrap.{validate}
use bio_auth.Session.Handshake.{
  HandshakeOutcome, PeerExpectation, VerifierExpectation, ClientHello, pair,
}
use bio_auth.Session.Handshake.Hello.{encode_server_hello, encode_client_hello, envelope}
use bio_auth.Session.Handshake.Server.{PendingServerHandshake, begin, finish}
use bio_auth.Session.Handshake.Client.{respond}
use bio_auth.Session.Handshake.Agreement.{IsTyped, Agree}
use bio_auth.Session.Handshake.Completion.{pairing_completes}

abbrev pub zeros : ℕ → List ℕ
zeros zero = []
zeros (suc n) = 0 ∷ zeros n

length-zeros : (n : ℕ) → length (zeros n) ≡ n
length-zeros zero = refl
length-zeros (suc n) = ap suc (length-zeros n)

abbrev pub first : List ℕ → Option ℕ
first [] = none
first (b ∷ bytes) = some b

abbrev pub plus_first : ℕ → List ℕ → List ℕ
plus_first s [] = []
plus_first s (b ∷ bytes) = (s + b) ∷ []

abbrev pub first_or_zero : List ℕ → ℕ
first_or_zero [] = 0
first_or_zero (b ∷ bytes) = b

abbrev pub toy_p256 : P256
toy_p256 = record {
  Key = ℕ;
  Proof = ℕ;
  key_from_der = first;
  proof_from_der = first;
  verifies = λ key message proof. key == proof;
}

abbrev pub libraries : Library
libraries = record {
  sha256 = λ m. zeros 32;
  hkdf = λ salt secret info n. some (zeros n);
  Secret = ℕ;
  secret_from = first_or_zero;
  public_of = λ s. s ∷ zeros 31;
  diffie_hellman = plus_first;
  SigningKey = ℕ;
  spki_of = λ k. some (k ∷ []);
  sign = λ k m. k ∷ [];
  p256 = toy_p256;
  aead = toy;
}

toy_shared : (a b : ℕ) → ◌≡◌ {A = List ℕ} ((a + b) ∷ []) ((b + a) ∷ [])
toy_shared a b = ap (λ (n : ℕ). n ∷ []) (omega arith)

pub libraries-IsLibrary : IsLibrary libraries
libraries-IsLibrary = record {
  public_size = λ s. refl;
  shared = toy_shared;
  spki_size = λ k der e. ground arith;
  signature_size = λ k m. omega arith;
  expands = λ salt secret info n h. (zeros n, refl);
  verifies_own = λ k der e m. (k, k, ground arith, refl, (==_iff k k).1 refl);
}

abbrev pub code : ServerBootstrap
code = record {
  session_id = str "s1";
  nonce = zeros 32;
  verifier_id = str "v1";
  verifier_identity_hash = zeros 32;
  endpoint = str "10.0.0.2:8765";
  expires_at_ms = pos 1000;
  purpose = authorization;
}

code-IsTyped : IsTyped code
unfolding is_utf8
code-IsTyped = record {
  session_id_typed = (refl, omega arith, omega arith);
  nonce_typed = refl;
  verifier_id_typed = (refl, omega arith, omega arith);
  expires_at_ms_typed = omega arith;
}

phone_id-IsText : IsText (str "phone")
unfolding is_utf8
phone_id-IsText = (refl, omega arith, omega arith)

-- The desktop's key is 5 and the phone's 6; their ephemeral secrets are 3 and 4.
abbrev pub server_public : List ℕ
server_public = 3 ∷ zeros 31

abbrev pub client_public : List ℕ
client_public = 4 ∷ zeros 31

abbrev pub server_text : List ℕ
server_text = encode_server_hello code (5 ∷ []) server_public

abbrev pub begun_with : PendingServerHandshake libraries
begun_with = record {
  bootstrap = code;
  secret = 3;
  public_key = server_public;
  server_unsigned = server_text;
}

abbrev pub hello : List ℕ
hello = envelope server_text (5 ∷ [])

started : begin libraries code 5 (3 ∷ []) ≡ ok (begun_with, hello)
unfolding begin validate public_key_spki hash_identity
started = refl

pairing_completes_example :
    (answer : List ℕ) × (o : HandshakeOutcome libraries) × (s : HandshakeOutcome libraries)
    × (respond libraries hello
          (VerifierExpectation.scanned code)
          (str "phone")
          6
          (str "tcp")
          (pos 7)
          (4 ∷ [])
        ≡ ok (answer, o))
    × (finish libraries begun_with answer PeerExpectation.pairing (str "tcp") ≡ ok s)
    × Agree libraries code (str "phone") (6 ∷ []) s o
pairing_completes_example =
    pairing_completes libraries libraries-IsLibrary code 5 6 (3 ∷ []) (4 ∷ []) (str "phone")
      (str "tcp") (6 ∷ []) (pos 7) begun_with hello code-IsTyped phone_id-IsText (omega arith)
      (omega arith) refl refl started

abbrev pub client_text : List ℕ
client_text =
    encode_client_hello (str "s1") (zeros 32) (str "v1") (pos 1000) (str "phone") server_public
      client_public (6 ∷ []) pair

abbrev pub answer : List ℕ
answer = envelope client_text (6 ∷ [])

abbrev pub phone_hello : ClientHello
phone_hello = record {
  session_id = str "s1";
  nonce = zeros 32;
  verifier_id = str "v1";
  expires_at_ms = pos 1000;
  device_id = str "phone";
  server_ephemeral = server_public;
  ephemeral = client_public;
  identity_spki = 6 ∷ [];
  intent = some pair;
}

abbrev pub key_schedule : KeySchedule
key_schedule = record {
  client_to_server = zeros 32;
  server_to_client = zeros 32;
  exporter = zeros 32;
}
