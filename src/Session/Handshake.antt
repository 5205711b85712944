-- ===== src/Session/Handshake.antt =====
-- phone-auth-session/src/handshake.rs: the two messages, and what they are checked against.
pub mod Parser
pub mod Hello
pub mod Reading
pub mod RoundTrip
pub mod Sizes
pub mod Outcome
pub mod Safety
pub mod Trust
pub mod Agreement
pub mod Run
pub mod Completion
pub mod Server
pub mod Client
use bio_auth.Common.{ℕ, zero, suc, List, [], ◌∷◌, ◌++◌, Bool, Option, Result, ok, err, str, length}
use bio_auth.Common.Int.{ℤ}
use bio_auth.Session.Channel.{SecureChannel, SessionError, invalid_frame}
use bio_auth.Session.Crypto.{Library}
use bio_auth.Session.Keys.{prefixed}
use bio_auth.Session.Bootstrap.{ServerBootstrap}

abbrev pub server_hello : ℕ
server_hello = 16

abbrev pub client_hello : ℕ
client_hello = 17

-- `VERSION` and `VERSION_WITH_INTENT` of lib.rs.
abbrev pub version : ℕ
version = 1

abbrev pub version_with_intent : ℕ
version_with_intent = 2

abbrev pub max_handshake_frame : ℕ
max_handshake_frame = 8192

pub data PairingIntent : Type 0 where
  resume pair : PairingIntent

abbrev pub intent_wire : PairingIntent → ℕ
intent_wire resume = 0
intent_wire pair = 1

unfoldable pub intent_from_wire : ℕ → Result SessionError PairingIntent
intent_from_wire zero = ok resume
intent_from_wire (suc zero) = ok pair
intent_from_wire other = err (invalid_frame "unknown pairing intent")

pub data PeerExpectation : Type 0 where
  -- device id and identity key
  paired : List ℕ → List ℕ → PeerExpectation
  pairing : PeerExpectation

pub data VerifierExpectation : Type 0 where
  paired : List ℕ → VerifierExpectation
  scanned : ServerBootstrap → VerifierExpectation

pub record HandshakeOutcome (lib : Library) : Type 0 where
  pub channel : SecureChannel lib.aead
  pub peer_identity_spki : List ℕ
  pub peer_device_id : List ℕ
  pub verification_code : List ℕ
  pub was_pairing : Bool
  pub intent : Option PairingIntent

pub record ServerHello : Type 0 where
  pub session_id : List ℕ
  pub nonce : List ℕ
  pub verifier_id : List ℕ
  pub expires_at_ms : ℤ
  pub identity_spki : List ℕ
  pub ephemeral : List ℕ

pub record ClientHello : Type 0 where
  pub session_id : List ℕ
  pub nonce : List ℕ
  pub verifier_id : List ℕ
  pub expires_at_ms : ℤ
  pub device_id : List ℕ
  pub server_ephemeral : List ℕ
  pub ephemeral : List ℕ
  pub identity_spki : List ℕ
  pub intent : Option PairingIntent

unfoldable pub transcript_hash : Library → List ℕ → List ℕ → List ℕ
transcript_hash lib server client =
    lib.sha256 (str "PhoneAuth/handshake-transcript/v1" ++ prefixed (server ∷ client ∷ []))
