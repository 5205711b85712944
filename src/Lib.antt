-- ===== src/Lib.antt =====
-- BioAuth: a phone authorizes what a desktop computer is asked to do. The desktop's verifier issues a
-- request over an encrypted session, the phone shows it, asks for a fingerprint and signs its exact
-- bytes, and the verifier grants what was asked if the answer holds up. This library models the Rust
-- crates of desktop/crates that decide this: the wire format, the verifier, the session from its
-- handshake on, and the parts of the agent that fragment frames and decide on SSH logins.
--
-- The parts, and the files of the repository that they model (under desktop/crates):
--   * Cbor, of phone-auth-protocol/src/cbor.rs. Cbor.Writer.Writer and Cbor.Reader.Reader are the structs
--     of those names, with a function for each method. A `&mut self` method of the writer maps a writer to
--     a writer; one of the reader returns its value with the reader behind it.
--   * Text is what the crates use of `str`, and `utf16_len` of phone-auth-protocol/src/lib.rs. A string is
--     its bytes, and IsStr says that they are UTF-8. Encoding is phone-auth-protocol/src/encoding.rs, of
--     which base64url is left out.
--   * Protocol, of phone-auth-protocol/src. Protocol.Defs has the limits, errors and shared checks of
--     lib.rs; Request, Response, Enrolment, Attach, Application and Permissions are the files of those
--     names, each with `validate` and `encode`, and `decode` in its child Decode. Protocol.Parser is a
--     reader passed along with `?` after every step, and Protocol.Codec.decode_with the order in which
--     the `decode` functions check: size, fields, end, `validate`, and the comparison with the encoding.
--     Payload has what the payloads of an application frame share, `open`, `finish` and the order of the
--     checks; Permissions, Vault, Luks, Locker and SshSign are permissions.rs, vault.rs, luks.rs, locker.rs
--     and the second half of ssh.rs. Ssh is the first half of ssh.rs, SSH's own fields and blobs: an
--     SshWriter's method is given by the bytes it appends, an SshReader is what is left of its input.
--   * Verifier, of phone-auth-verifier/src. Policy, Pairing, Replay, Session and Signature are the files of
--     those names; State, Issue and Accept are verifier.rs. A method on `&mut self` returns the new state
--     with its result, also when it fails.
--   * Session, of phone-auth-session/src: Channel is channel.rs, Framing is framing.rs, with
--     read_frame_resumable in its child Resumable; Crypto is identity.rs and what it and the handshake ask
--     of their libraries, Keys is keys.rs, Bootstrap is bootstrap.rs, and Handshake is handshake.rs, with
--     the messages in Hello, PendingServerHandshake in Server and ClientHandshake in Client.
--   * Agent, of phone-auth-agent/src: BleFraming is ble_framing.rs, SshAgent is ssh_agent.rs and SshPolicy is
--     ssh_policy.rs. IdMap is a map from numbers, as a list of its entries.
-- Issue and Accept call Policy, Pairing, Replay and Signature as the source does; what a verifier sends
-- is a frame of Protocol, which Cbor writes, and Channel carries it, over a session that Handshake set up;
-- BleFraming cuts the same frames to a characteristic's size. SshPolicy decides on what SshAgent has read.
--
-- Numbers: `u64` and `usize` are natural numbers, and the bound 2 ^ 64 is written out where the source
-- checks it or where a type gives it (IsU64, IsText, and the records IsTyped, which say what the Rust
-- types of a message say). `i64` is an integer with IsI64, `checked_sub` and `saturating_add`. Shifts
-- and casts keep their wrap-around. There is no fuel: each loop runs down a list or a count.
-- fill_to runs down the number of missing bytes, of which every round that goes on brings one at least;
-- chunks_of runs down the length of the frame, and emit the number of bits, which bound their rounds.
--
-- Parameters: Session.Crypto.Library, which is SHA-256, HKDF, X25519 and the signing key of P-256,
-- of which IsLibrary asks that the two ends of an exchange share a secret, that a key verifies what
-- it signed, and the sizes of keys, signatures and what is expanded; SHA-256 alone in SshPolicy; the
-- P-256 library (Verifier.Signature.P256) and ChaCha20-Poly1305 (Session.Channel.Aead), of which
-- Session.Channel.Link.IsAead asks that it opens what it sealed, nothing else, and adds a tag of 16
-- bytes. The clock and the random bytes of phone-auth-verifier/src/random.rs are arguments, and so
-- is the outcome of writing the pairing file.
--
-- Not modelled: Display, serde and the file handling of pairing.rs; the text of a bootstrap, base64url and
-- the authorized_keys line; the storing of identity keys, and the wiping of memory; the locker crate; the
-- rest of the agent, the command line and the boot helper, which are sockets, threads, files and screens
-- around these crates; and everything that is not Rust.
pub mod Common
pub mod Text
pub mod Encoding
pub mod Cbor
pub mod Protocol
pub mod Verifier
pub mod Agent
pub mod Session
