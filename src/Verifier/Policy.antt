-- ===== src/Verifier/Policy.antt =====
-- phone-auth-verifier/src/policy.rs: what a credential may authorize.
pub mod Cover
use bio_auth.Common.{ℕ, List, [], ◌∷◌, Bool, ◌&&◌, ◌||◌, not, any, text_eq, str}
use bio_auth.Protocol.Request.{AuthRequest}

abbrev pub wildcard : List ℕ
wildcard = str "*"

pub record Permission : Type 0 where
  pub service : List ℕ
  pub action : List ℕ
  pub resource : List ℕ
  pub user : List ℕ

unfoldable pub for_service : List ℕ → Permission
for_service service = record {
  service = service;
  action = wildcard;
  resource = wildcard;
  user = wildcard;
}

unfoldable pub with_action : List ℕ → Permission → Permission
with_action action p = record p { action = action }

unfoldable pub with_resource : List ℕ → Permission → Permission
with_resource resource p = record p { resource = resource }

unfoldable pub with_user : List ℕ → Permission → Permission
with_user user p = record p { user = user }

unfoldable pub matches : List ℕ → List ℕ → Bool
matches rule value = text_eq rule wildcard || text_eq rule value

unfoldable pub allows_fields : Permission → List ℕ → List ℕ → List ℕ → List ℕ → Bool
allows_fields p service action resource user =
    not (text_eq p.service wildcard)
    && text_eq p.service service
    && matches p.action action
    && matches p.resource resource
    && matches p.user user

unfoldable pub allows : Permission → AuthRequest → Bool
allows p request = allows_fields p request.service request.action request.resource request.user

unfoldable pub permits_fields : List Permission → List ℕ → List ℕ → List ℕ → List ℕ → Bool
permits_fields permissions service action resource user =
    any (λ p. allows_fields p service action resource user) permissions

unfoldable pub permits : List Permission → AuthRequest → Bool
permits permissions request = any (λ p. allows p request) permissions
