-- ===== src/Agent/BleFraming/Reassembly.antt =====
-- phone-auth-agent/src/ble_framing.rs: a decoder is given the chunks of an encoder, in any order.
use bio_auth.Common.{
  ℕ, suc, ◌+◌, ◌≡◌, ◌<◌, refl, sym, ap, ◌∙◌, arith, List, [], ◌∷◌, ◌++◌, true, some, ok, ◌==◌,
  length, length-append, Bool-cases, inl, inr,
}
use bio_auth.Common.Counting.{
  mem, IsDistinct, AreBelow, weight_below, all_present, weight_below_shift,
}
use bio_auth.Agent.IdMap.{get, contains}
use bio_auth.Agent.BleFraming.{gather}
use bio_auth.Agent.BleFraming.Parts.{gather_step}
use bio_auth.Agent.BleFraming.Chunks.{nth, concat}

-- The size of a part.
abbrev pub size_of : List (List ℕ) → ℕ → ℕ
size_of parts i = length (nth parts i)

-- What is kept of the parts that arrived.
abbrev pub entries : List (List ℕ) → List ℕ → List (ℕ × List ℕ)
entries parts [] = []
entries parts (i ∷ is) = (i, nth parts i) ∷ entries parts is

pub length-entries : (parts : List (List ℕ)) (is : List ℕ) → length (entries parts is) ≡ length is
length-entries parts [] = refl
length-entries parts (i ∷ is) = ap suc (length-entries parts is)

pub entries-snoc :
    (parts : List (List ℕ)) (is : List ℕ) (i : ℕ)
    → entries parts (is ++ i ∷ []) ≡ entries parts is ++ (i, nth parts i) ∷ []
entries-snoc parts [] i = refl
entries-snoc parts (j ∷ is) i = ap (◌∷◌ (j, nth parts j)) (entries-snoc parts is i)

pub contains-entries :
    (parts : List (List ℕ)) (k : ℕ) (is : List ℕ) → contains k (entries parts is) ≡ mem k is
unfolding contains mem
contains-entries parts k [] = refl
contains-entries parts k (i ∷ is) = ground (arith, contains-entries parts k is)

get-entries :
    (parts : List (List ℕ)) (k : ℕ) (is : List ℕ)
    → mem k is ≡ true
    → get k (entries parts is) ≡ some (nth parts k)
unfolding get mem
get-entries parts k [] h = cc
get-entries parts k (i ∷ is) h = elim (Bool-cases (i == k)) [
  | inl same ↦ let key : i ≡ k = ground arith in rw same (ap (λ (j : ℕ). some (nth parts j)) key)
  | inr other ↦ rw other (get-entries parts k is (ground arith))
]

-- All parts weigh what the frame does.
pub weigh_all :
    (parts : List (List ℕ)) → weight_below (size_of parts) (length parts) ≡ length (concat parts)
unfolding weight_below
weigh_all [] = refl
weigh_all (part ∷ parts) = omega (
  arith,
  weight_below_shift (size_of (part ∷ parts)) (length parts),
  weigh_all parts,
  length-append part (concat parts),
)

gather_all :
    (parts : List (List ℕ)) (index : ℕ) (m : List (ℕ × List ℕ))
    → ((j : ℕ) → j < length parts → get (index + j) m ≡ some (nth parts j))
    → gather (length parts) index m ≡ ok (concat parts)
unfolding gather
gather_all [] index m h = refl
gather_all (part ∷ parts) index m h =
    let here : index + 0 ≡ index = omega arith in
    gather_step (length parts) index m part (concat parts)
      (ap (λ (k : ℕ). get k m) (sym here) ∙ h 0 (omega arith))
      (gather_all parts (suc index) m (λ j below.
        let next : suc index + j ≡ index + suc j = omega arith in
        ap (λ (k : ℕ). get k m) next ∙ h (suc j) (omega arith)))

-- Once all parts are there, in whatever order, they are put together.
pub gather-entries :
    (parts : List (List ℕ)) (is : List ℕ)
    → IsDistinct is
    → AreBelow (length parts) is
    → length is ≡ length parts
    → gather (length parts) 0 (entries parts is) ≡ ok (concat parts)
gather-entries parts is d b full = gather_all parts 0 (entries parts is) (λ j below.
    let key : 0 + j ≡ j = omega arith in
    ap (λ (k : ℕ). get k (entries parts is)) key
    ∙ get-entries parts j is (all_present (length parts) is d b full j below))
