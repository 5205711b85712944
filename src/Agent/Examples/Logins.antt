-- ===== src/Agent/Examples/Logins.antt =====
-- A login over a forwarded agent, and the messages of an agent.
use bio_auth.Common.{ℕ, ◌≡◌, refl, List, [], ◌∷◌, some, ok, true, str, ◌++◌}
use bio_auth.Common.Bytes.{to_be, from_be, all→AreBytes}
use bio_auth.Protocol.Ssh.Writer
use bio_auth.Text.{is_utf8, chars, chars_from, feed}
use bio_auth.Protocol.Ssh.Reader
use bio_auth.Protocol.Ssh.{account_in_request, read_account}
use bio_auth.Agent.SshAgent.Account.{account_in_request_iff}
use bio_auth.Agent.SshAgent.{
  SignRequest, SignContext, SessionBind, framed, announced_length, sign_response,
}
use bio_auth.Agent.SshPolicy.{
  SshPolicy, fingerprint, base64_unpadded, spell, emit, new, allow_forwarding_to,
}
use bio_auth.Agent.SshAgent.Login.{IsLogin}

abbrev toy_sha256 : List ℕ → List ℕ
toy_sha256 bytes = bytes

abbrev host : SessionBind
host = record { host_key = str "key"; forwarding = true }

named : fingerprint toy_sha256 (str "key") ≡ str "SHA256:a2V5"
unfolding fingerprint base64_unpadded spell emit
named = refl

-- Two bytes leave four bits, which are padded with zeros.
spelled : base64_unpadded (255 ∷ 254 ∷ []) ≡ str "//4"
unfolding base64_unpadded spell emit
spelled = refl

abbrev policy : SshPolicy
policy = allow_forwarding_to (str "SHA256:a2V5") new

abbrev alice : SignContext
alice = record { user = str "alice"; service = str "ssh-connection" }

-- A request to sign two bytes with a key of one.
abbrev request : SignRequest
request = record { key_blob = 9 ∷ []; signed_data = 7 ∷ 8 ∷ []; flags = 1 }

announced : announced_length (sign_response (1 ∷ 2 ∷ [])) ≡ ok (some 7)
unfolding announced_length sign_response framed Writer.string Writer.uint32 to_be from_be
announced = refl

-- The data of a login: a session of one byte, the account and the method.
abbrev login_data : List ℕ
login_data =
    0
    ∷ 0
    ∷ 0
    ∷ 1
    ∷ 9
    ∷ 50
    ∷ (0 ∷ 0 ∷ 0 ∷ 5 ∷ str "alice"
        ++ (0 ∷ 0 ∷ 0 ∷ 14 ∷ str "ssh-connection" ++ (0 ∷ 0 ∷ 0 ∷ 9 ∷ str "publickey")))

abbrev login_request : SignRequest
login_request = record { key_blob = 9 ∷ []; signed_data = login_data; flags = 0 }

read_back : account_in_request login_data ≡ some (str "alice", str "ssh-connection")
unfolding account_in_request read_account Reader.string Reader.uint32 Reader.uint8 Reader.text
    from_be is_utf8 chars chars_from feed
read_back = refl

account_in_request_iff_example : IsLogin login_data alice
account_in_request_iff_example =
    (account_in_request_iff login_request alice (all→AreBytes login_data refl)).0.0 read_back
