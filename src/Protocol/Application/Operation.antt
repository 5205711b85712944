-- ===== src/Protocol/Application/Operation.antt =====
-- `valid_operation` of phone-auth-protocol/src/application.rs: which names an operation may have.
use bio_auth.Common.{
  ℕ, List, [], ◌∷◌, Bool, false, ◌&&◌, ◌||◌, not, Option, none, some, length, leb, within, ◌==◌,
  is_empty, all, str, if◌then◌else◌,
}

unfoldable pub strip_prefix : List ℕ → List ℕ → Option (List ℕ)
strip_prefix [] value = some value
strip_prefix (p ∷ prefix) [] = none
strip_prefix (p ∷ prefix) (v ∷ value) = if p == v then strip_prefix prefix value else none

abbrev pub or_else {ℓ} : {A : Type ℓ} → Option A → Option A → Option A
or_else none b = b
or_else (some a) b = some a

-- `suffix.contains("..")`.
unfoldable pub has_dots : List ℕ → Bool
has_dots [] = false
has_dots (x ∷ []) = false
has_dots (x ∷ y ∷ rest) = (x == b'.' && y == b'.') || has_dots (y ∷ rest)

abbrev pub operation_byte : ℕ → Bool
operation_byte b = within b'a' b'z' b || within b'0' b'9' b || b == b'.' || b == b'-'

unfoldable pub valid_operation : List ℕ → Bool
unfolding strip_prefix has_dots
valid_operation value =
    elim (or_else (strip_prefix (str "vault.") value) (
      or_else (strip_prefix (str "locker.") value) (
        or_else (strip_prefix (str "luks.") value)
          (or_else (strip_prefix (str "ssh.") value) (strip_prefix (str "permissions.") value))))) [
            | none ↦ false
            | some suffix ↦
                not (is_empty suffix)
                && leb (length value) 64
                && not (has_dots suffix)
                && all operation_byte suffix
          ]
