-- ===== src/Verifier/Policy/Cover.antt =====
-- The tests of phone-auth-verifier/src/policy.rs, against a description of what a permission
-- covers.
use bio_auth.Common.{
  ℕ, ◌≡◌, ◌≢◌, ◌↔◌, ◌⊎◌, inl, inr, refl, List, true, arith, text_eq, text_eq→eq, text_eq_iff,
  Bool-cases, In, any→In, In→any,
}
use bio_auth.Protocol.Request.{AuthRequest}
use bio_auth.Verifier.Policy.{
  Permission, wildcard, matches, allows_fields, allows, permits_fields, permits,
}

-- A rule is the wildcard or the value itself.
abbrev pub Covers : List ℕ → List ℕ → Type 0
Covers rule value = (rule ≡ wildcard) ⊎ (rule ≡ value)

-- A permission names the service itself, which has no wildcard.
pub record IsGranted (p : Permission) (request : AuthRequest) : Type 0 where
  pub concrete : p.service ≢ wildcard
  pub service : p.service ≡ request.service
  pub action : Covers p.action request.action
  pub resource : Covers p.resource request.resource
  pub user : Covers p.user request.user

covered : (rule value : List ℕ) → matches rule value ≡ true → Covers rule value
unfolding matches
covered rule value h = elim (Bool-cases (text_eq rule wildcard)) [
  | inl e ↦ inl (text_eq→eq rule wildcard e)
  | inr e ↦ inr (text_eq→eq rule value (rw e at h))
]

covers : (rule value : List ℕ) → Covers rule value → matches rule value ≡ true
unfolding matches
covers rule value c = ground (arith, text_eq_iff rule wildcard, text_eq_iff rule value)

granted : (p : Permission) (request : AuthRequest) → allows p request ≡ true → IsGranted p request
unfolding allows allows_fields
granted p request h = record {
  concrete = ground (arith, text_eq_iff p.service wildcard);
  service = text_eq→eq p.service request.service (ground arith);
  action = covered p.action request.action (ground arith);
  resource = covered p.resource request.resource (ground arith);
  user = covered p.user request.user (ground arith);
}

grants : (p : Permission) (request : AuthRequest) → IsGranted p request → allows p request ≡ true
unfolding allows allows_fields
grants p request g = ground (
  arith,
  text_eq_iff p.service wildcard,
  text_eq→eq p.service wildcard,
  text_eq_iff p.service request.service,
  covers p.action request.action g.action,
  covers p.resource request.resource g.resource,
  covers p.user request.user g.user,
)

-- A request is permitted exactly when one of the permissions names its service outright and its action,
-- resource and user outright or by the wildcard. The wildcard as a service permits nothing, and neither
-- does an empty list.
pub permits_iff :
    (permissions : List Permission) (request : AuthRequest)
    → (permits permissions request ≡ true)
      ↔ ((p : Permission) × In p permissions × IsGranted p request)
unfolding permits
permits_iff permissions request = (
  λ h. let (p, i, e) = any→In (λ q. allows q request) permissions h in (p, i, granted p request e),
  λ (p, i, g). In→any (λ q. allows q request) permissions p i (grants p request g),
)

-- The two entry points of the policy agree.
pub permits-permits_fields :
    (permissions : List Permission) (request : AuthRequest)
    → permits permissions request
      ≡ permits_fields permissions request.service request.action request.resource request.user
unfolding permits permits_fields allows
permits-permits_fields permissions request = refl
