-- ===== src/Cbor/Position.antt =====
-- Where a reader stands: what is still to be read.
use bio_auth.Common.{
  ℕ, ◌+◌, ◌≤◌, ◌<◌, ◌^◌, ◌≡◌, refl, sym, ap, ◌∙◌, arith, List, [], ◌∷◌, ◌++◌, Result, ok, length,
  length-append, take as first_bytes, drop, take-length, drop-length, drop-drop, length-drop,
  take-append-drop, length-take, All-drop, All-take, All-append, subst, Bool, true, false, ◌>>=◌,
  >>=-eq-ok, append_assoc, refuse, if◌then◌else◌, err,
}
use bio_auth.Common.Bytes.{IsByte, AreBytes}
use bio_auth.Cbor.Reader.{Reader, take, new, finish}

abbrev pub max_usize : ℕ
max_usize = 2 ^ 64

-- `xs` is the part of the buffer behind the position.
pub record Sees (r : Reader) (xs : List ℕ) : Type 0 where
  pub ahead : drop r.pos r.buf ≡ xs
  pub inside : r.pos + length xs ≡ length r.buf
  pub addressable : length r.buf < max_usize

abbrev pub advance : Reader → ℕ → Reader
advance r n = record r { pos = r.pos + n }

-- Reading gives the value `a` on the bytes `xs`, whatever follows them.
abbrev pub Reads {ℓ κ} :
    {E : Type ℓ} {A : Type κ} → (Reader → Result E (A × Reader)) → List ℕ → A → Type (ℓ ⊔ κ)
Reads p xs a =
    (r : Reader) (rest : List ℕ) → Sees r (xs ++ rest) → p r ≡ ok (a, advance r (length xs))

-- Bytes have come off the front of `xs` on the way to the reader `r`, and `Q` holds of them.
pub record Taken (xs : List ℕ) (r : Reader) (Q : List ℕ → Type 0) : Type 0 where
  pub used : List ℕ
  pub rest : List ℕ
  pub split : xs ≡ used ++ rest
  pub sees : Sees r rest
  pub spent : AreBytes used
  pub clean : AreBytes rest
  pub fact : Q used

-- A successful reading has taken bytes off the front, and `Q` holds of them and of the value.
abbrev pub Takes {ℓ} :
    {E : Type ℓ} {A : Type 0} → (Reader → Result E (A × Reader)) → (List ℕ → A → Type 0) → Type ℓ
Takes {A} p Q =
    (r : Reader) (xs : List ℕ) (a : A) (r' : Reader)
    → Sees r xs
    → AreBytes xs
    → p r ≡ ok (a, r')
    → Taken xs r' (λ used. Q used a)

pub Sees-new : (xs : List ℕ) → length xs < max_usize → Sees (new xs) xs
Sees-new xs h = record { ahead = refl; inside = omega arith; addressable = h }

pub Sees-advance :
    (r : Reader) (xs rest : List ℕ) → Sees r (xs ++ rest) → Sees (advance r (length xs)) rest
Sees-advance r xs rest s = record {
  ahead =
      sym (drop-drop r.pos (length xs) r.buf) ∙ ap (drop (length xs)) s.ahead ∙ drop-length xs rest;
  inside = omega (arith, s.inside, length-append xs rest);
  addressable = s.addressable;
}

pub take-Reads : (xs : List ℕ) → Reads (take (length xs)) xs xs
unfolding take
take-Reads xs r rest s =
    let fits : r.pos + length xs ≤ length r.buf = omega (arith, s.inside, length-append xs rest) in
    rw (s.ahead, take-length xs rest) (ground (arith, fits, s.addressable))

take_ok :
    (n : ℕ) (r : Reader) {bs : List ℕ} {r' : Reader}
    → take n r ≡ ok (bs, r')
    → (r.pos + n ≤ length r.buf) × (bs ≡ first_bytes n (drop r.pos r.buf)) × (r' ≡ advance r n)
unfolding take
take_ok n r e = ground arith

pub take-Takes : (n : ℕ) → Takes (take n) (λ used bs. (used ≡ bs) × (length bs ≡ n))
take-Takes n r xs bs r' s clean e =
    let (fits, value, moved) = take_ok n r e in
    let here : n ≤ length xs = omega (arith, s.inside) in
    let same : first_bytes n xs ≡ bs = sym (value ∙ ap (first_bytes n) s.ahead) in
    record {
      used = first_bytes n xs;
      rest = drop n xs;
      split = sym (take-append-drop n xs);
      sees = rw moved (Sees-drop n here);
      spent = All-take IsByte n xs clean;
      clean = All-drop IsByte n xs clean;
      fact = (same, ap length (sym same) ∙ length-take n xs here);
    }
  where
    Sees-drop : (n : ℕ) → n ≤ length xs → Sees (advance r n) (drop n xs)
    Sees-drop n h = record {
      ahead = sym (drop-drop r.pos n r.buf) ∙ ap (drop n) s.ahead;
      inside = omega (arith, s.inside, length-drop n xs);
      addressable = s.addressable;
    }

pub finish-Sees : (r : Reader) → Sees r [] → finish r ≡ ok tt
unfolding finish
finish-Sees r s = ground (arith, s.inside)

-- `finish` succeeds at the end only.
pub finish_ok : (r : Reader) (xs : List ℕ) → Sees r xs → finish r ≡ ok tt → xs ≡ []
unfolding finish
finish_ok r [] s e = refl
finish_ok r (x ∷ xs) s e = ground (arith, s.inside)

module _ {ℓ} {E : Type ℓ} {A : Type 0} where
  pub Takes-weaken :
      {p : Reader → Result E (A × Reader)} (P Q : List ℕ → A → Type 0)
      → ((used : List ℕ) (a : A) → AreBytes used → P used a → Q used a)
      → Takes p P
      → Takes p Q
  Takes-weaken P Q more takes r xs a r' s clean e =
      let t = takes r xs a r' s clean e in
      record {
        used = t.used;
        rest = t.rest;
        split = t.split;
        sees = t.sees;
        spent = t.spent;
        clean = t.clean;
        fact = more t.used a t.spent t.fact;
      }

  -- Nothing is read.
  pub Takes-ok : (a : A) (Q : List ℕ → A → Type 0) → Q [] a → Takes {E = E} (λ r. ok (a, r)) Q
  Takes-ok a Q q r xs b r' s clean e =
      let same : a ≡ b = ground arith in
      let here : r ≡ r' = ground arith in
      record {
        used = [];
        rest = xs;
        split = refl;
        sees = subst (λ (z : Reader). Sees z xs) here s;
        spent = tt;
        clean = clean;
        fact = subst (Q []) same q;
      }

  -- A check on the way: `if bad { return Err(x) }`.
  pub Takes-refuse :
      (bad : Bool) (x : E) (p : Reader → Result E (A × Reader)) (Q : List ℕ → A → Type 0)
      → (bad ≡ false → Takes p Q)
      → Takes (λ r. refuse bad x >>= λ (u : Unit {0}). p r) Q
  Takes-refuse true x p Q k r xs b r' s clean e = cc
  Takes-refuse false x p Q k r xs b r' s clean e = k refl r xs b r' s clean e

  pub Takes-if :
      (test : Bool) (p q : Reader → Result E (A × Reader)) (Q : List ℕ → A → Type 0)
      → (test ≡ true → Takes p Q)
      → (test ≡ false → Takes q Q)
      → Takes (λ r. if test then p r else q r) Q
  Takes-if true p q Q yes_case no_case = yes_case refl
  Takes-if false p q Q yes_case no_case = no_case refl

  pub Takes-err : (x : E) (Q : List ℕ → A → Type 0) → Takes {A = A} (λ r. err x) Q
  Takes-err x Q r xs a r' s clean e = cc

-- One reading after another.
pub Takes-bind {ℓ} :
    {E : Type ℓ} {A B : Type 0} (p : Reader → Result E (A × Reader))
    (f : A → Reader → Result E (B × Reader)) (P : List ℕ → A → Type 0) (Q : List ℕ → B → Type 0)
    → Takes p P
    → ((front : List ℕ) (a : A)
        → AreBytes front
        → P front a
        → Takes (f a) (λ used b. Q (front ++ used) b))
    → Takes (λ r. p r >>= λ x. f x.0 x.1) Q
Takes-bind p f P Q takes next r xs b r' s clean e =
    let ((a, r1), e1, e2) = >>=-eq-ok (p r) _ e in
    let t = takes r xs a r1 s clean e1 in
    let u = next t.used a t.spent t.fact r1 t.rest b r' t.sees t.clean e2 in
    record {
      used = t.used ++ u.used;
      rest = u.rest;
      split = t.split ∙ ap (◌++◌ t.used) u.split ∙ sym (append_assoc t.used u.used u.rest);
      sees = u.sees;
      spent = All-append IsByte t.used u.used t.spent u.spent;
      clean = u.clean;
      fact = u.fact;
    }
