-- ===== src/Agent/SshPolicy.antt =====
-- phone-auth-agent/src/ssh_policy.rs: whether to ask the phone, and what to show.
pub mod Safety
use bio_auth.Common.{
  ℕ, zero, suc, ◌+◌, ◌-◌, ◌*◌, ◌/◌, ◌%◌, ◌^◌, List, [], ◌∷◌, ◌++◌, Bool, true, false, ◌&&◌, ◌||◌,
  not, Option, none, some, String, str, text_eq, if◌then◌else◌, leb, ltb, is_empty, any, take, drop,
}
use bio_auth.Agent.SshAgent.{SignContext, SessionBind}

pub record Prompt : Type 0 where
  pub user : List ℕ
  pub destination : Option (List ℕ)
  pub forwarded : Bool
  pub first_time : Bool

pub data Decision : Type 0 where
  ask : Prompt → Decision
  denied : String → Decision

-- The sets are lists, of which only the members matter.
pub record SshPolicy : Type 0 where
  pub known : List (List ℕ)
  pub forwardable : List (List ℕ)
  pub restricted_to : List (List ℕ)

abbrev pub new : SshPolicy
new = record { known = []; forwardable = []; restricted_to = [] }

unfoldable pub contains : List (List ℕ) → List ℕ → Bool
contains fingerprints fingerprint = any (λ f. text_eq f fingerprint) fingerprints

unfoldable pub insert : List ℕ → List (List ℕ) → List (List ℕ)
insert fingerprint fingerprints =
    if contains fingerprints fingerprint then fingerprints else fingerprint ∷ fingerprints

unfoldable pub restrict_to : List (List ℕ) → SshPolicy → SshPolicy
restrict_to fingerprints p = record p { restricted_to = fingerprints }

unfoldable pub allow_forwarding_to : List ℕ → SshPolicy → SshPolicy
allow_forwarding_to fingerprint p = record p { forwardable = insert fingerprint p.forwardable }

unfoldable pub remember : List ℕ → SshPolicy → SshPolicy
remember fingerprint p = record p { known = insert fingerprint p.known }

abbrev alphabet : List ℕ
alphabet = str "ABCDEFGHIJKLMNOPQRSTUVWXYZabcdefghijklmnopqrstuvwxyz0123456789+/"

abbrev pub letter : ℕ → List ℕ
letter value = take 1 (drop (value % 64) alphabet)

-- `while bits >= 6`; each round takes six of the bits, so that their number bounds the rounds.
unfoldable pub emit : ℕ → ℕ → ℕ → List ℕ × ℕ
emit zero accumulator bits = ([], bits)
emit (suc rounds) accumulator bits =
    let (out, left) = emit rounds accumulator (bits - 6) in
    if leb 6 bits then (letter (accumulator / 2 ^ (bits - 6)) ++ out, left) else ([], bits)

-- The bytes one after another, in a `u32` whose high bits are shifted out.
unfoldable pub spell : ℕ → ℕ → List ℕ → List ℕ
spell accumulator bits [] =
    if ltb 0 bits then letter (accumulator * 2 ^ (6 - bits) % 2 ^ 32) else []
spell accumulator bits (byte ∷ bytes) =
    let accumulator = accumulator * 2 ^ 8 % 2 ^ 32 + byte in
    let (out, left) = emit (bits + 8) accumulator (bits + 8) in out ++ spell accumulator left bytes

unfoldable pub base64_unpadded : List ℕ → List ℕ
base64_unpadded bytes = spell 0 0 bytes

abbrev pub is_forwarded : Option SessionBind → Bool
is_forwarded none = false
is_forwarded (some bind) = bind.forwarding

abbrev pub is_first : SshPolicy → Option (List ℕ) → Bool
is_first p none = true
is_first p (some fingerprint) = not (contains p.known fingerprint)

-- The reason to refuse a destination, if there is one.
unfoldable pub objection : SshPolicy → Option (List ℕ) → Bool → Option String
objection p (some fingerprint) forwarded =
    if not (is_empty p.restricted_to) && not (contains p.restricted_to fingerprint)
    then some "this destination is not in the allow-list"
    else (if forwarded && not (contains p.forwardable fingerprint)
        then some "agent forwarding is not allowed to this host"
        else none)
objection p none forwarded =
    if not (is_empty p.restricted_to)
    then some "the client did not name a destination"
    else (if forwarded then some "agent forwarding is not allowed" else none)

module _ (sha256 : List ℕ → List ℕ) where
  unfoldable pub fingerprint : List ℕ → List ℕ
  fingerprint host_key = str "SHA256:" ++ base64_unpadded (sha256 host_key)

  abbrev pub destination_of : Option SessionBind → Option (List ℕ)
  destination_of none = none
  destination_of (some bind) = some (fingerprint bind.host_key)

  unfoldable pub decide : SshPolicy → Option SignContext → Option SessionBind → Decision
  decide p none bind = denied "the sign request is not a readable login"
  decide p (some context) bind =
      if is_empty context.user
      then denied "the sign request names no account"
      else elim (objection p (destination_of bind) (is_forwarded bind)) [
        | some reason ↦ denied reason
        | none ↦ ask (record {
          user = context.user;
          destination = destination_of bind;
          forwarded = is_forwarded bind;
          first_time = is_first p (destination_of bind);
        })
      ]
