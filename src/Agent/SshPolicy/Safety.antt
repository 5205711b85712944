-- ===== src/Agent/SshPolicy/Safety.antt =====
-- phone-auth-agent/src/ssh_policy.rs: when the phone is asked.
use bio_auth.Common.{ℕ, ◌≡◌, ◌⊎◌, List, [], true, false, not, Option, none, some}
use bio_auth.Agent.SshAgent.{SignContext, SessionBind}
use bio_auth.Agent.SshPolicy.{
  SshPolicy, Prompt, contains, fingerprint, destination_of, is_forwarded, is_first,
}

module _ (sha256 : List ℕ → List ℕ) where
  -- What the policy says of a destination: it is on the list where there is one, and may be reached over
  -- a forwarded agent where it is.
  abbrev pub IsAllowed : SshPolicy → Option SessionBind → Type 0
  IsAllowed p none = p.restricted_to ≡ []
  IsAllowed p (some bind) =
      ((p.restricted_to ≡ [])
        ⊎ (contains p.restricted_to (fingerprint sha256 bind.host_key) ≡ true))
      × (bind.forwarding ≡ true → contains p.forwardable (fingerprint sha256 bind.host_key) ≡ true)

  -- What the phone shows: the account, the fingerprint of the host key that was bound, whether the agent is
  -- forwarded to it, and whether the host is new. Without a bound host it shows none, which is always new.
  abbrev pub IsShown : SshPolicy → SignContext → Option SessionBind → Prompt → Type 0
  IsShown p c none prompt =
      prompt ≡ record { user = c.user; destination = none; forwarded = false; first_time = true }
  IsShown p c (some bind) prompt = prompt ≡ record {
    user = c.user;
    destination = some (fingerprint sha256 bind.host_key);
    forwarded = bind.forwarding;
    first_time = not (contains p.known (fingerprint sha256 bind.host_key));
  }

  shown_prompt : SshPolicy → SignContext → Option SessionBind → Prompt
  shown_prompt p c bind = record {
    user = c.user;
    destination = destination_of sha256 bind;
    forwarded = is_forwarded bind;
    first_time = is_first p (destination_of sha256 bind);
  }
