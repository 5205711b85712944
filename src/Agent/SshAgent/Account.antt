-- ===== src/Agent/SshAgent/Account.antt =====
-- The protocol library's reading of a request, `account_in_request` of phone-auth-protocol/src/ssh.rs, beside
-- the agent's, `SignRequest::describe` of phone-auth-agent/src/ssh_agent.rs. The application on the phone
-- has a reader of its own, in Dart, which is not modelled.
use bio_auth.Common.{
  ℕ, ◌≡◌, ◌↔◌, ◌∙◌, ap, sym, refl, arith, List, none, some, ok, ◌>>=◌, refuse, not, ◌==◌, str,
  text_eq, Result-cases, inl, inr,
}
use bio_auth.Protocol.Defs.{invalid_operation}
use bio_auth.Protocol.Ssh.Reader
use bio_auth.Protocol.Ssh.{to_account, read_account, account_in_request}
use bio_auth.Common.Bytes.{AreBytes}
use bio_auth.Agent.SshAgent.{SignRequest, SignContext, read_context, describe, to_option}
use bio_auth.Agent.SshAgent.Login.{
  IsLogin, to_option-some, read_context-reads, read_context-written,
}

as_context : List ℕ × List ℕ → SignContext
as_context (user, service) = record { user = user; service = service }

as_account : SignContext → List ℕ × List ℕ
as_account c = (c.user, c.service)

same_reading :
    (bytes : List ℕ) → read_account bytes ≡ (read_context bytes >>= λ c. ok (as_account c))
unfolding read_account read_context as_account
same_reading bytes = elim (Result-cases (Reader.string bytes)) [
  | inr (e, bad) ↦ rw bad refl
  | inl ((session_id, rest1), e1) ↦ elim (Result-cases (Reader.uint8 rest1)) [
    | inr (e, bad) ↦ rw (e1, bad) refl
    | inl ((kind, rest2), e2) ↦ elim (Result-cases (refuse (not (kind == 50)) invalid_operation)) [
      | inr (e, bad) ↦ rw (e1, e2, bad) refl
      | inl (u, e3) ↦ elim (Result-cases (Reader.text rest2)) [
        | inr (e, bad) ↦ rw (e1, e2, e3, bad) refl
        | inl ((user, rest3), e4) ↦ elim (Result-cases (Reader.text rest3)) [
          | inr (e, bad) ↦ rw (e1, e2, e3, e4, bad) refl
          | inl ((service, rest4), e5) ↦ elim (Result-cases (Reader.text rest4)) [
            | inr (e, bad) ↦ rw (e1, e2, e3, e4, e5, bad) refl
            | inl ((method, rest5), e6) ↦
                elim (Result-cases
                  (refuse (not (text_eq method (str "publickey"))) invalid_operation)) [
                    | inr (e, bad) ↦ rw (e1, e2, e3, e4, e5, e6, bad) refl
                    | inl (v, e7) ↦ rw (e1, e2, e3, e4, e5, e6, e7) refl
                  ]
          ]
        ]
      ]
    ]
  ]
]

account-reads :
    (bytes : List ℕ)
    → account_in_request bytes ≡ to_account (read_context bytes >>= λ c. ok (as_account c))
unfolding account_in_request
account-reads bytes = ap to_account (same_reading bytes)

describe_iff :
    (r : SignRequest) (c : SignContext)
    → (describe r ≡ some c) ↔ (account_in_request r.signed_data ≡ some (c.user, c.service))
unfolding describe as_account as_context
describe_iff r c = elim (Result-cases (read_context r.signed_data)) [
  | inl (d, found) ↦ (
    λ e.
        let same : d ≡ c = ground (arith, found, e) in
        account-reads r.signed_data ∙ rw (found, same) refl,
    λ e.
        let read : some (as_account d) ≡ some (c.user, c.service) =
          sym (account-reads r.signed_data ∙ rw found refl) ∙ e in
        let same : as_account d ≡ as_account c = ground (arith, read) in
        rw found (ap (λ x. some (as_context x)) same),
  )
  | inr (x, bad) ↦ (
    λ e. ground (arith, bad, e),
    λ e.
        let nothing : none ≡ some (c.user, c.service) =
          sym (account-reads r.signed_data ∙ rw bad refl) ∙ e in
        cc,
  )
]

-- In any bytes to be signed, `account_in_request` names an account and a service exactly if the bytes are a
-- `publickey` login of that account for that service, whatever follows the method, with no field above
-- 64 KiB and an empty account name allowed; and it names them exactly where the agent's `describe` reads
-- them.
pub account_in_request_iff :
    (r : SignRequest) (c : SignContext)
    → AreBytes r.signed_data
    → ((account_in_request r.signed_data ≡ some (c.user, c.service)) ↔ IsLogin r.signed_data c)
      × ((describe r ≡ some c) ↔ (account_in_request r.signed_data ≡ some (c.user, c.service)))
unfolding describe
account_in_request_iff r c bytes =
    let both = describe_iff r c in
    (
      (
        λ e.
            read_context-written r.signed_data c bytes
              (to_option-some (read_context r.signed_data) c (both.1 e)),
        λ w. both.0 (ap to_option (read_context-reads r.signed_data c w)),
      ),
      both,
    )
