-- ===== src/Protocol/Permissions/Reconcile.antt =====
-- `reconcile` of phone-auth-protocol/src/permissions.rs, called by either side.
use bio_auth.Common.{ℕ, ◌≡◌, ◌<◌, ◌↔◌, ◌⊎◌, true, false, arith}
use bio_auth.Protocol.Permissions.{mine, theirs, reconcile}

-- The desktop and the phone, each with its own revision first, agree: the set that one calls its own the
-- other calls the other's. The desktop's set stands exactly if its revision is higher or if neither side
-- was ever edited, the phone's in every other case.
pub reconcile_agree :
    (desktop phone : ℕ)
    → ((reconcile desktop phone false ≡ mine) ↔ (reconcile phone desktop true ≡ theirs))
      × ((reconcile desktop phone false ≡ theirs) ↔ (reconcile phone desktop true ≡ mine))
      × ((reconcile desktop phone false ≡ mine) ↔ ((phone < desktop) ⊎ (desktop ≡ 0) × (phone ≡ 0)))
unfolding reconcile
reconcile_agree desktop phone = ground arith
