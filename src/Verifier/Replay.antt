-- ===== src/Verifier/Replay.antt =====
-- phone-auth-verifier/src/replay.rs: which request ids have been answered.
pub mod Invariant
pub mod Window
use bio_auth.Common.{
  ℕ, ◌≡◌, Bool, true, false, List, [], ◌∷◌, ◌++◌, if◌then◌else◌, ltb, length, text_eq, ◌||◌, max,
}

pub record ReplayGuard : Type 0 where
  pub capacity : ℕ
  pub seen : List (List ℕ)
  pub order : List (List ℕ)

abbrev pub default_capacity : ℕ
default_capacity = 1024

unfoldable pub with_capacity : ℕ → ReplayGuard
with_capacity capacity = record { capacity = max capacity 1; seen = []; order = [] }

unfoldable pub default : ReplayGuard
unfolding with_capacity
default = with_capacity default_capacity

-- `HashSet::contains` and `HashSet::remove`.
unfoldable pub member : List ℕ → List (List ℕ) → Bool
member id [] = false
member id (x ∷ xs) = text_eq x id || member id xs

unfoldable pub erase : List ℕ → List (List ℕ) → List (List ℕ)
erase id [] = []
erase id (x ∷ xs) = if text_eq x id then erase id xs else x ∷ erase id xs

-- `pop_front`, and its element taken out of the set.
unfoldable pub evict : ReplayGuard → List (List ℕ) → ReplayGuard
unfolding erase
evict g [] = g
evict g (evicted ∷ rest) = record g { seen = erase evicted g.seen; order = rest }

unfoldable pub trim : ReplayGuard → ReplayGuard
unfolding evict
trim g = if ltb g.capacity (length g.order) then evict g g.order else g

unfoldable pub consume : ReplayGuard → List ℕ → ReplayGuard × Bool
unfolding trim member
consume g id =
    if member id g.seen
    then (g, false)
    else (trim (record g { seen = id ∷ g.seen; order = g.order ++ id ∷ [] }), true)

unfoldable pub contains : ReplayGuard → List ℕ → Bool
unfolding member
contains g id = member id g.seen

unfoldable pub len : ReplayGuard → ℕ
len g = length g.order
