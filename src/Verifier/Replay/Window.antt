-- ===== src/Verifier/Replay/Window.antt =====
-- The ids that the guard of phone-auth-verifier/src/replay.rs remembers, over further requests.
use bio_auth.Common.{
  ℕ, ◌+◌, ◌≤◌, ◌<◌, ◌≡◌, refl, ap, ◌∙◌, true, false, List, [], ◌∷◌, ◌++◌, arith, append_assoc,
  length, length-append, text_eq_refl, Bool-cases, inl, inr, ltb,
}
use bio_auth.Verifier.Replay.{ReplayGuard, member, evict, trim, consume}
use bio_auth.Verifier.Replay.Invariant.{IsSound, consume-IsSound}

-- `id` stands in the order, with at most `n` later ones behind it.
pub record IsRecent (id : List ℕ) (n : ℕ) (order : List (List ℕ)) : Type 0 where
  pub older : List (List ℕ)
  pub newer : List (List ℕ)
  pub place : order ≡ older ++ (id ∷ newer)
  pub few : length newer ≤ n

recent-member :
    (id : List ℕ) (older newer : List (List ℕ)) → member id (older ++ (id ∷ newer)) ≡ true
unfolding member
recent-member id [] newer = ground (arith, text_eq_refl id)
recent-member id (x ∷ older) newer = ground (arith, recent-member id older newer)

trim-IsRecent :
    (id : List ℕ) (n capacity : ℕ) (seen older newer : List (List ℕ))
    → length newer ≤ n
    → n < capacity
    → length (older ++ (id ∷ newer)) ≤ capacity + 1
    → IsRecent id n
        (trim (record { capacity = capacity; seen = seen; order = older ++ (id ∷ newer) })).order
unfolding trim
trim-IsRecent id n capacity seen [] newer h k l =
    let keeps : ltb capacity (length (id ∷ newer)) ≡ false = ground arith in
    rw keeps (record { older = []; newer = newer; place = refl; few = h })
trim-IsRecent id n capacity seen (x ∷ older) newer h k l =
    elim (Bool-cases (ltb capacity (length (x ∷ (older ++ (id ∷ newer)))))) [
      | inl e ↦ rw e (record { older = older; newer = newer; place = refl; few = h })
      | inr e ↦ rw e (record { older = x ∷ older; newer = newer; place = refl; few = h })
    ]

evict-capacity : (g : ReplayGuard) (xs : List (List ℕ)) → (evict g xs).capacity ≡ g.capacity
unfolding evict
evict-capacity g [] = refl
evict-capacity g (x ∷ xs) = refl

consume-capacity : (g : ReplayGuard) (id : List ℕ) → (consume g id).0.capacity ≡ g.capacity
unfolding consume trim
consume-capacity g id =
    let full = record g { seen = id ∷ g.seen; order = g.order ++ id ∷ [] } in
    ground (arith, evict-capacity full full.order)

consume-IsRecent :
    (g : ReplayGuard) (id x : List ℕ) (n : ℕ)
    → IsSound g
    → IsRecent id n g.order
    → n + 1 < g.capacity
    → IsRecent id (n + 1) (consume g x).0.order
unfolding consume
consume-IsRecent g id x n s r h = elim (Bool-cases (member x g.seen)) [
  | inl e ↦
      rw e
        (record { older = r.older; newer = r.newer; place = r.place; few = omega (arith, r.few) })
  | inr e ↦
      let longer : length (r.newer ++ x ∷ []) ≤ n + 1 =
        omega (arith, r.few, length-append r.newer (x ∷ [])) in
      let order : g.order ++ x ∷ [] ≡ r.older ++ (id ∷ (r.newer ++ x ∷ [])) =
        ap (λ (l : List (List ℕ)). l ++ x ∷ []) r.place
        ∙ append_assoc r.older (id ∷ r.newer) (x ∷ []) in
      let size : length (r.older ++ (id ∷ (r.newer ++ x ∷ []))) ≤ g.capacity + 1 =
        omega (arith, s.bounded, length-append g.order (x ∷ []), ap length order) in
      rw (e, order)
        (trim-IsRecent id (n + 1) g.capacity (x ∷ g.seen) r.older (r.newer ++ x ∷ []) longer h size)
]

consumed-IsRecent :
    (g : ReplayGuard) (id : List ℕ)
    → IsSound g
    → (consume g id).1 ≡ true
    → IsRecent id 0 (consume g id).0.order
unfolding consume
consumed-IsRecent g id s e = elim (Bool-cases (member id g.seen)) [
  | inl old ↦ cc (rw old at e)
  | inr new ↦ rw new (
      trim-IsRecent id 0 g.capacity (id ∷ g.seen) g.order [] (omega arith)
        (omega (arith, s.positive)) (omega (arith, s.bounded, length-append g.order (id ∷ []))))
]

-- Any further requests, one after another.
unfoldable pub consume_all : ReplayGuard → List (List ℕ) → ReplayGuard
consume_all g [] = g
consume_all g (id ∷ ids) = consume_all (consume g id).0 ids

consume_all-IsRecent :
    (ids : List (List ℕ)) (g : ReplayGuard) (id : List ℕ) (n : ℕ)
    → IsSound g
    → IsRecent id n g.order
    → n + length ids < g.capacity
    → IsSound (consume_all g ids) × IsRecent id (n + length ids) (consume_all g ids).order
unfolding consume_all
consume_all-IsRecent [] g id n s r h =
    (s, record { older = r.older; newer = r.newer; place = r.place; few = omega (arith, r.few) })
consume_all-IsRecent (x ∷ ids) g id n s r h =
    let (sound, recent) =
      consume_all-IsRecent ids (consume g x).0 id (n + 1) (consume-IsSound g x s)
        (consume-IsRecent g id x n s r (omega arith)) (omega (arith, consume-capacity g x)) in
    (
      sound,
      record {
        older = recent.older;
        newer = recent.newer;
        place = recent.place;
        few = omega (arith, recent.few);
      },
    )

-- A request id that was accepted once is refused again, as long as fewer than `capacity` requests were
-- consumed in between.
pub consume_twice :
    (g : ReplayGuard) (id : List ℕ) (between : List (List ℕ))
    → IsSound g
    → (consume g id).1 ≡ true
    → length between < g.capacity
    → (consume (consume_all (consume g id).0 between) id).1 ≡ false
consume_twice g id between s e h =
    let (sound, r) =
      consume_all-IsRecent between (consume g id).0 id 0 (consume-IsSound g id s)
        (consumed-IsRecent g id s e) (omega (arith, consume-capacity g id)) in
    seen_refused _ id (sound.same id ∙ ap (member id) r.place ∙ recent-member id r.older r.newer)
  where
    seen_refused :
        (g : ReplayGuard) (id : List ℕ) → member id g.seen ≡ true → (consume g id).1 ≡ false
    seen_refused g id e = unfold consume in rw e
