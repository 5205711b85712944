-- ===== src/Agent/SshAgent.antt =====
-- phone-auth-agent/src/ssh_agent.rs: the messages between `ssh` and its agent.
pub mod Sign
pub mod Bind
pub mod Login
pub mod Account
pub mod Messages
use bio_auth.Common.{
  ℕ, ◌%◌, ◌^◌, List, [], ◌∷◌, ◌++◌, Bool, ◌&&◌, not, Option, none, some, Result, ok, err, ◌>>=◌,
  ◌>>◌, refuse, String, str, text_eq, if◌then◌else◌, ltb, ◌==◌, length, take, is_empty,
}
use bio_auth.Common.Bytes.{to_be, from_be}
use bio_auth.Protocol.Defs.{ProtocolError, invalid_operation}
use bio_auth.Protocol.Ssh.Writer
use bio_auth.Protocol.Ssh.Reader

abbrev pub ssh_agent_failure : ℕ
ssh_agent_failure = 5

abbrev pub ssh_agent_success : ℕ
ssh_agent_success = 6

abbrev pub ssh_agentc_request_identities : ℕ
ssh_agentc_request_identities = 11

abbrev pub ssh_agent_identities_answer : ℕ
ssh_agent_identities_answer = 12

abbrev pub ssh_agentc_sign_request : ℕ
ssh_agentc_sign_request = 13

abbrev pub ssh_agent_sign_response : ℕ
ssh_agent_sign_response = 14

abbrev pub ssh_agentc_extension : ℕ
ssh_agentc_extension = 27

abbrev pub session_bind : List ℕ
session_bind = str "session-bind@openssh.com"

abbrev pub ssh_msg_userauth_request : ℕ
ssh_msg_userauth_request = 50

abbrev pub max_message_bytes : ℕ
max_message_bytes = 262144

pub record SignRequest : Type 0 where
  pub key_blob : List ℕ
  pub signed_data : List ℕ
  pub flags : ℕ

pub record SignContext : Type 0 where
  pub user : List ℕ
  pub service : List ℕ

pub record SessionBind : Type 0 where
  pub host_key : List ℕ
  pub forwarding : Bool

pub data Request : Type 0 where
  identities : Request
  sign : SignRequest → Request
  bind : SessionBind → Request
  unsupported : Request

-- `.ok()?`.
abbrev pub to_option : {A : Type 0} → Result ProtocolError A → Option A
to_option (ok a) = some a
to_option (err e) = none

-- A message that cannot be read is one that is not supported.
abbrev pub or_unsupported : {A : Type 0} → (A → Request) → Result ProtocolError A → Request
or_unsupported make (ok a) = make a
or_unsupported make (err e) = unsupported

-- What `describe` reads. Which error it is does not matter: each gives `None`.
unfoldable pub read_context : List ℕ → Result ProtocolError SignContext
read_context signed_data = do
  (session_id, rest) ← Reader.string signed_data
  (kind, rest) ← Reader.uint8 rest
  refuse (not (kind == ssh_msg_userauth_request)) invalid_operation
  (user, rest) ← Reader.text rest
  (service, rest) ← Reader.text rest
  (method, rest) ← Reader.text rest
  refuse (not (text_eq method (str "publickey"))) invalid_operation
  ok (record { user = user; service = service })

unfoldable pub describe : SignRequest → Option SignContext
describe r = to_option (read_context r.signed_data)

unfoldable pub read_sign : List ℕ → Result ProtocolError SignRequest
read_sign rest = do
  (key_blob, rest) ← Reader.string rest
  (signed_data, rest) ← Reader.string rest
  (flags, rest) ← Reader.uint32 rest
  Reader.finish rest
  ok (record { key_blob = key_blob; signed_data = signed_data; flags = flags })

unfoldable pub read_bind : List ℕ → Result ProtocolError SessionBind
read_bind rest = do
  (name, rest) ← Reader.text rest
  refuse (not (text_eq name session_bind)) invalid_operation
  (host_key, rest) ← Reader.string rest
  (session_id, rest) ← Reader.string rest
  (signature, rest) ← Reader.string rest
  (forwarding, rest) ← Reader.uint8 rest
  Reader.finish rest
  ok (record { host_key = host_key; forwarding = not (forwarding == 0) })

unfoldable pub parse : List ℕ → Request
parse [] = unsupported
parse (kind ∷ rest) =
    if kind == ssh_agentc_request_identities && is_empty rest
    then identities
    else (if kind == ssh_agentc_sign_request
        then or_unsupported sign (read_sign rest)
        else (if kind == ssh_agentc_extension
            then or_unsupported bind (read_bind rest)
            else unsupported))

unfoldable pub framed : List ℕ → List ℕ
framed body = to_be 4 (length body % 2 ^ 32) ++ body

unfoldable pub write_keys : List (List ℕ × List ℕ) → List ℕ
write_keys [] = []
write_keys ((blob, comment) ∷ keys) = Writer.string blob ++ (Writer.text comment ++ write_keys keys)

unfoldable pub identities_answer : List (List ℕ × List ℕ) → List ℕ
identities_answer keys = framed (
    Writer.uint8 ssh_agent_identities_answer
    ++ (Writer.uint32 (length keys % 2 ^ 32) ++ write_keys keys))

unfoldable pub sign_response : List ℕ → List ℕ
sign_response signature_blob =
    framed (Writer.uint8 ssh_agent_sign_response ++ Writer.string signature_blob)

abbrev pub failure : List ℕ
failure = framed (ssh_agent_failure ∷ [])

abbrev pub success : List ℕ
success = framed (ssh_agent_success ∷ [])

unfoldable pub announced_length : List ℕ → Result String (Option ℕ)
announced_length prefix =
    if ltb (length prefix) 4
    then ok none
    else (let announced = from_be 0 (take 4 prefix) in
        if announced == 0
        then err "empty agent message"
        else (if ltb max_message_bytes announced
            then err "agent message over the size limit"
            else ok (some announced)))
