-- ===== src/Session/Keys/Injective.antt =====
-- phone-auth-session/src/keys.rs: what the session binding says of its inputs.
use bio_auth.Common.{
  ℕ, ◌≡◌, ◌≢◌, ◌⊎◌, inl, inr, ◌<◌, ◌^◌, refl, sym, ap, ◌∙◌, List, [], ◌∷◌, ◌++◌, arith, length,
  take, drop, take-length, drop-length, All, Bool-cases, text_eq, text_eq→eq, text_eq_refl,
}
use bio_auth.Common.Bytes.{to_be, from_be, length-to_be, from_be-to_be}
use bio_auth.Session.Crypto.{Library}
use bio_auth.Session.Keys.{
  prefixed, SessionBindingInputs, binding_fields, binding_domain, session_binding,
}

append-inj : (xs ys r s : List ℕ) → length xs ≡ length ys → xs ++ r ≡ ys ++ s → (xs ≡ ys) × (r ≡ s)
append-inj xs ys r s same e = (
  sym (take-length xs r)
      ∙ ap (take (length xs)) e
      ∙ ap (λ (n : ℕ). take n (ys ++ s)) same
      ∙ take-length ys s,
  sym (drop-length xs r)
      ∙ ap (drop (length xs)) e
      ∙ ap (λ (n : ℕ). drop n (ys ++ s)) same
      ∙ drop-length ys s,
)

abbrev pub IsShort : List ℕ → Type 0
IsShort field = length field < 2 ^ 64

field-inj :
    (x y r s : List ℕ)
    → IsShort x
    → IsShort y
    → to_be 8 (length x) ++ (x ++ r) ≡ to_be 8 (length y) ++ (y ++ s)
    → (x ≡ y) × (r ≡ s)
field-inj x y r s hx hy e =
    let (sizes, rest) =
      append-inj (to_be 8 (length x)) (to_be 8 (length y)) (x ++ r) (y ++ s)
        (length-to_be 8 (length x) ∙ sym (length-to_be 8 (length y))) e in
    let same : length x ≡ length y =
      sym (from_be-to_be 8 (length x) hx) ∙ ap (from_be 0) sizes ∙ from_be-to_be 8 (length y) hy in
    append-inj x y r s same rest

-- As many fields with one input of the hasher are the same fields.
pub prefixed-inj :
    (xs ys : List (List ℕ))
    → length xs ≡ length ys
    → All IsShort xs
    → All IsShort ys
    → prefixed xs ≡ prefixed ys
    → xs ≡ ys
unfolding prefixed
prefixed-inj [] [] n hx hy e = refl
prefixed-inj [] (y ∷ ys) n hx hy e = absurd (omega arith)
prefixed-inj (x ∷ xs) [] n hx hy e = absurd (omega arith)
prefixed-inj (x ∷ xs) (y ∷ ys) n (hx, hxs) (hy, hys) e =
    let (same, rest) = field-inj x y (prefixed xs) (prefixed ys) hx hy e in
    ap (λ (z : List ℕ). z ∷ xs) same ∙ ap (◌∷◌ y) (prefixed-inj xs ys (omega arith) hxs hys rest)

-- Two inputs on which the hash function collides.
pub record Collision (lib : Library) : Type 0 where
  pub one : List ℕ
  pub other : List ℕ
  pub differ : one ≢ other
  pub collide : lib.sha256 one ≡ lib.sha256 other

pub fields_of_eq : (i j : SessionBindingInputs) → binding_fields i ≡ binding_fields j → i ≡ j
fields_of_eq i j e = ground arith

-- Equal bindings have equal inputs, transport, session, both ephemeral keys and the exporter, unless they
-- show a collision of the hash function.
pub session_binding-inj :
    (lib : Library) (i j : SessionBindingInputs)
    → All IsShort (binding_fields i)
    → All IsShort (binding_fields j)
    → session_binding lib i ≡ session_binding lib j
    → (i ≡ j) ⊎ Collision lib
unfolding session_binding
session_binding-inj lib i j hi hj e =
    let one = binding_domain ++ prefixed (binding_fields i) in
    let other = binding_domain ++ prefixed (binding_fields j) in
    elim (Bool-cases (text_eq one other)) [
      | inl same ↦
          let (d, p) =
            append-inj binding_domain binding_domain (prefixed (binding_fields i))
              (prefixed (binding_fields j)) refl (text_eq→eq one other same) in
          inl (fields_of_eq i j (prefixed-inj (binding_fields i) (binding_fields j) refl hi hj p))
      | inr differ ↦ inr (record {
        one = one;
        other = other;
        differ = λ s. cc (text_eq_refl one, ap (text_eq one) s, differ);
        collide = e;
      })
    ]
