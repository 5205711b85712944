-- ===== src/Verifier/Replay/Invariant.antt =====
-- The invariant of the guard of phone-auth-verifier/src/replay.rs: its set and its queue.
use bio_auth.Common.{
  ℕ, ◌+◌, ◌≤◌, ◌≡◌, refl, sym, ◌∙◌, subst, false, ◌&&◌, ◌||◌, not, List, [], ◌∷◌, ◌++◌, arith,
  length, length-append, text_eq, text_eq_refl, text_eq→eq, Bool-cases, inl, inr, ltb,
}
use bio_auth.Verifier.Replay.{ReplayGuard, member, erase, trim, consume, contains, with_capacity}

-- No id stands twice.
abbrev pub Nodup : List (List ℕ) → Type 0
Nodup [] = Unit {0}
Nodup (x ∷ xs) = (member x xs ≡ false) × Nodup xs

pub record IsSound (g : ReplayGuard) : Type 0 where
  pub same : (id : List ℕ) → member id g.seen ≡ member id g.order
  pub distinct : Nodup g.order
  pub bounded : length g.order ≤ g.capacity
  pub positive : 1 ≤ g.capacity

member-append :
    (id : List ℕ) (xs ys : List (List ℕ)) → member id (xs ++ ys) ≡ (member id xs || member id ys)
unfolding member
member-append id [] ys = refl
member-append id (x ∷ xs) ys = ground (arith, member-append id xs ys)

member-erase :
    (id x : List ℕ) (xs : List (List ℕ))
    → member id (erase x xs) ≡ (member id xs && not (text_eq x id))
unfolding member erase
member-erase id x [] = refl
member-erase id x (y ∷ ys) = ground (
  arith,
  member-erase id x ys,
  text_eq→eq y x,
  text_eq→eq y id,
  text_eq→eq x id,
  text_eq_refl id,
  text_eq_refl x,
)

Nodup-snoc :
    (xs : List (List ℕ)) (id : List ℕ) → Nodup xs → member id xs ≡ false → Nodup (xs ++ id ∷ [])
unfolding member
Nodup-snoc [] id d m = (refl, tt)
Nodup-snoc (x ∷ xs) id d m =
    ground (arith, member-append x xs (id ∷ []), text_eq→eq id x, text_eq_refl x, Nodup-snoc xs id)

after_erase :
    (x : List ℕ) (xs seen : List (List ℕ)) (id : List ℕ)
    → member id seen ≡ member id (x ∷ xs)
    → member x xs ≡ false
    → member id (erase x seen) ≡ member id xs
unfolding member
after_erase x xs seen id same d = elim (Bool-cases (text_eq x id)) [
  | inl e ↦
      let other : member id xs ≡ false =
        subst (λ (z : List ℕ). member z xs ≡ false) (text_eq→eq x id e) d in
      ground (arith, member-erase id x seen, other)
  | inr e ↦ ground (arith, member-erase id x seen)
]

trim-IsSound :
    (capacity : ℕ) (seen xs : List (List ℕ))
    → ((id : List ℕ) → member id seen ≡ member id xs)
    → Nodup xs
    → length xs ≤ capacity + 1
    → 1 ≤ capacity
    → IsSound (trim (record { capacity = capacity; seen = seen; order = xs }))
unfolding trim
trim-IsSound capacity seen [] same d h p =
    let keeps : ltb capacity (length {A = List ℕ} []) ≡ false = ground arith in
    rw keeps (record { same = same; distinct = tt; bounded = omega arith; positive = p })
trim-IsSound capacity seen (x ∷ xs) same d h p =
    elim (Bool-cases (ltb capacity (length (x ∷ xs)))) [
      | inl e ↦ rw (e) (record {
        same = λ id. after_erase x xs seen id (same id) d.0;
        distinct = d.1;
        bounded = omega arith;
        positive = p;
      })
      | inr e ↦ rw e (record { same = same; distinct = d; bounded = ground arith; positive = p })
    ]

-- `consume` keeps the set and the queue of a guard in step, within the capacity.
pub consume-IsSound : (g : ReplayGuard) (id : List ℕ) → IsSound g → IsSound (consume g id).0
unfolding consume
consume-IsSound g id s = elim (Bool-cases (member id g.seen)) [
  | inl e ↦ rw e s
  | inr e ↦ rw e (
      trim-IsSound g.capacity (id ∷ g.seen) (g.order ++ id ∷ []) (λ k. joined k)
        (Nodup-snoc g.order id s.distinct (sym (s.same id) ∙ e))
        (omega (arith, s.bounded, length-append g.order (id ∷ []))) s.positive)
]
  where
    joined : (k : List ℕ) → member k (id ∷ g.seen) ≡ member k (g.order ++ id ∷ [])
    joined k = unfold member in ground (arith, member-append k g.order (id ∷ []), s.same k)

-- The first answer to a request is accepted: an id is refused only if it is still remembered.
pub consume_iff :
    (g : ReplayGuard) (id : List ℕ) → IsSound g → (consume g id).1 ≡ not (contains g id)
unfolding consume contains
consume_iff g id s = ground arith

pub with_capacity-IsSound : (capacity : ℕ) → IsSound (with_capacity capacity)
unfolding with_capacity member
with_capacity-IsSound capacity = record {
  same = λ id. refl;
  distinct = tt;
  bounded = omega arith;
  positive = omega arith;
}
