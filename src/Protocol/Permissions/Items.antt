-- ===== src/Protocol/Permissions/Items.antt =====
-- The lists of permissions of phone-auth-protocol/src/permissions.rs, written and read.
use bio_auth.Common.{
  ℕ, zero, suc, ◌≤◌, ◌≡◌, refl, ap, ◌∙◌, ◌++◌, [], ◌∷◌, List, arith, append_assoc, append-nil, ok,
  length, All, refuse, ltb, subst,
}
use bio_auth.Cbor.Items.{array_item, text_item, writes, array-extend}
use bio_auth.Cbor.Writer.{Writer, extend}
use bio_auth.Cbor.Reader
use bio_auth.Cbor.RoundTrip.{array-Reads}
use bio_auth.Cbor.Strict.{array-Takes}
use bio_auth.Cbor.Position.{Reads, Takes, Takes-bind, Takes-ok, Takes-weaken}
use bio_auth.Protocol.Codec.{
  Reads-bind, Reads-pure, item-Reads, item-Takes, check-Reads, refuse-Takes,
}
use bio_auth.Protocol.Items.{IsText, text_field, text-takes}
use bio_auth.Protocol.Parser.{item, check, pure, ◌>>=◌, ◌>>◌}
use bio_auth.Protocol.Defs.{ProtocolError, payload_size}
use bio_auth.Protocol.Permissions.{Permission, write, write_all, write_set, max_permissions}
use bio_auth.Protocol.Permissions.Decode.{read, read_all, read_set}
use bio_auth.Protocol.Payload.{array_of}
use bio_auth.Protocol.Payload.Laws.{array_of-Reads, array_of-takes}

-- What the types of the source say of a permission.
pub record IsTyped (m : Permission) : Type 0 where
  pub service_typed : IsText m.service
  pub action_typed : IsText m.action
  pub resource_typed : IsText m.resource
  pub user_typed : IsText m.user

unfoldable pub permission_items : Permission → List ℕ
permission_items m =
    array_item 4
    ++ (text_item m.service
        ++ (text_item m.action ++ (text_item m.resource ++ (text_item m.user ++ []))))

unfoldable pub all_items : List Permission → List ℕ
all_items [] = []
all_items (m ∷ ms) = permission_items m ++ all_items ms

unfoldable pub set_items : List Permission → List ℕ
set_items ms = array_item (length ms) ++ all_items ms

write-extend : (m : Permission) (w : Writer) → write m w ≡ extend w (permission_items m)
unfolding write permission_items
write-extend m w = simp (writes, append_assoc, append-nil)

write_all-extend : (ms : List Permission) (w : Writer) → write_all ms w ≡ extend w (all_items ms)
unfolding all_items
write_all-extend [] w = simp (append-nil)
write_all-extend (m ∷ ms) w =
    rw (write-extend m w)
      (write_all-extend ms (extend w (permission_items m)) ∙ simp (append_assoc))

pub write_set-extend :
    (ms : List Permission) (w : Writer) → write_set ms w ≡ extend w (set_items ms)
unfolding write_set set_items
write_set-extend ms w =
    rw (array-extend (length ms) w)
      (write_all-extend ms (extend w (array_item (length ms))) ∙ simp (append_assoc))

read-Reads : (m : Permission) → IsTyped m → Reads read (permission_items m) m
unfolding read permission_items
read-Reads m t = Reads-bind _ _ _ _ tt m (array_of-Reads 4 (omega arith)) (
    Reads-bind _ _ _ _ m.service m (text_field _ t.service_typed) (
      Reads-bind _ _ _ _ m.action m (text_field _ t.action_typed) (
        Reads-bind _ _ _ _ m.resource m (text_field _ t.resource_typed)
          (Reads-bind _ _ _ _ m.user m (text_field _ t.user_typed) (Reads-pure m)))))

read_all-Reads :
    (ms : List Permission) → All IsTyped ms → Reads (read_all (length ms)) (all_items ms) ms
unfolding read_all all_items
read_all-Reads [] t = Reads-pure []
read_all-Reads (m ∷ ms) t =
    Reads-bind read (λ x. read_all (length ms) >>= λ xs. pure (x ∷ xs)) (permission_items m)
      (all_items ms) m (m ∷ ms) (read-Reads m t.0)
      (subst (λ (l : List ℕ). Reads (read_all (length ms) >>= λ xs. pure (m ∷ xs)) l (m ∷ ms))
        (append-nil (all_items ms))
        (Reads-bind (read_all (length ms)) (λ xs. pure (m ∷ xs)) (all_items ms) [] ms (m ∷ ms)
          (read_all-Reads ms t.1) (Reads-pure (m ∷ ms))))

few : (n : ℕ) (x : ProtocolError) → n ≤ 64 → refuse (ltb max_permissions n) x ≡ ok tt
few n x h = ground arith

pub read_set-Reads :
    (ms : List Permission) → All IsTyped ms → length ms ≤ 64 → Reads read_set (set_items ms) ms
unfolding read_set set_items
read_set-Reads ms t h =
    Reads-bind (item Reader.array)
      (λ count. check (refuse (ltb max_permissions count) (payload_size count)) >> read_all count) _
      _ (length ms) ms (item-Reads Reader.array _ _ (array-Reads (length ms) (omega arith)))
      (Reads-bind (check (refuse (ltb max_permissions (length ms)) (payload_size (length ms))))
        (λ _. read_all (length ms)) [] _ tt ms (check-Reads _ tt (few (length ms) _ h))
        (read_all-Reads ms t))

read-takes : Takes read (λ used m. (used ≡ permission_items m) × IsTyped m)
unfolding read
read-takes = Takes-bind (array_of 4) _ _ _ (array_of-takes 4) λ u0 _ _ e0.
    Takes-bind (item Reader.text) _ _ _ text-takes λ u1 service _ (e1, w1).
      Takes-bind (item Reader.text) _ _ _ text-takes λ u2 action _ (e2, w2).
        Takes-bind (item Reader.text) _ _ _ text-takes λ u3 resource _ (e3, w3).
          Takes-bind (item Reader.text) _ _ _ text-takes λ u4 user _ (e4, w4). Takes-ok _ _ (
            rw (e0, e1, e2, e3, e4) (unfold permission_items in refl),
            record { service_typed = w1; action_typed = w2; resource_typed = w3; user_typed = w4 },
          )

read_all-takes :
    (n : ℕ)
    → Takes (read_all n) (λ used ms. (used ≡ all_items ms) × All IsTyped ms × (length ms ≡ n))
unfolding read_all all_items
read_all-takes zero = Takes-ok [] _ (refl, tt, refl)
read_all-takes (suc n) = Takes-bind read _ _ _ read-takes λ u0 m _ (e0, w0).
    Takes-bind (read_all n) _ _ _ (read_all-takes n) λ u1 ms _ (e1, w1, l1).
      Takes-ok (m ∷ ms) _ (rw (e0, e1, append-nil (all_items ms)) refl, (w0, w1), ap suc l1)

pub read_set-takes : Takes read_set (λ used ms. (used ≡ set_items ms) × All IsTyped ms)
unfolding read_set set_items
read_set-takes =
    Takes-bind (item Reader.array) _ _ _ (item-Takes Reader.array _ array-Takes)
      λ u0 count _ (e0, _). refuse-Takes (ltb max_permissions count) _ _ _ λ size.
        Takes-weaken _ _ (λ u1 ms _ (e1, w1, l1). (rw (e0, e1, l1) refl, w1)) (read_all-takes count)
