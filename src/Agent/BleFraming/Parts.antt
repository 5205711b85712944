-- ===== src/Agent/BleFraming/Parts.antt =====
-- phone-auth-agent/src/ble_framing.rs: the chunks that a decoder holds for a frame.
use bio_auth.Common.{
  ℕ, zero, suc, ◌+◌, ◌≡◌, ◌≤◌, ◌<◌, refl, sym, ap, subst, ◌∙◌, arith, List, [], ◌∷◌, ◌++◌, true,
  false, none, some, ok, length, length-append, All, All-append, Option-cases, inl, inr,
}
use bio_auth.Common.Counting.{
  mem, IsDistinct, AreBelow, weight, weight_below, weight-ge, all_present, snoc-IsDistinct,
}
use bio_auth.Agent.IdMap.{get, contains, put, get_or, put_new}
use bio_auth.Agent.BleFraming.{gather}

abbrev pub keys : List (ℕ × List ℕ) → List ℕ
keys [] = []
keys ((k, part) ∷ m) = k ∷ keys m

abbrev pub payload_bytes : List (ℕ × List ℕ) → ℕ
payload_bytes [] = 0
payload_bytes ((k, part) ∷ m) = length part + payload_bytes m

pub contains-mem : (k : ℕ) (m : List (ℕ × List ℕ)) → contains k m ≡ mem k (keys m)
unfolding contains mem
contains-mem k [] = refl
contains-mem k ((j, part) ∷ m) = ground (arith, contains-mem k m)

keys-snoc :
    (m : List (ℕ × List ℕ)) (k : ℕ) (p : List ℕ) → keys (m ++ (k, p) ∷ []) ≡ keys m ++ k ∷ []
keys-snoc [] k p = refl
keys-snoc ((j, part) ∷ m) k p = ap (◌∷◌ j) (keys-snoc m k p)

payload-snoc :
    (m : List (ℕ × List ℕ)) (k : ℕ) (p : List ℕ)
    → payload_bytes (m ++ (k, p) ∷ []) ≡ payload_bytes m + length p
payload-snoc [] k p = omega arith
payload-snoc ((j, part) ∷ m) k p = omega (arith, payload-snoc m k p)

pub length-keys : (m : List (ℕ × List ℕ)) → length (keys m) ≡ length m
length-keys [] = refl
length-keys ((j, part) ∷ m) = ap suc (length-keys m)

-- The chunks of a frame: distinct indices below the total, and their bytes counted.
pub record AreChunks (total bytes : ℕ) (m : List (ℕ × List ℕ)) : Type 0 where
  pub distinct : IsDistinct (keys m)
  pub below : AreBelow total (keys m)
  pub counted : bytes ≡ payload_bytes m
  pub bounded : bytes ≤ 8192

-- The chunk that `get` finds, by its length.
abbrev pub part_size : List (ℕ × List ℕ) → ℕ → ℕ
part_size m k = length (get_or k [] m)

IsEntry : List (ℕ × List ℕ) → ℕ × List ℕ → Type 0
IsEntry m e = get e.0 m ≡ some e.1

entries_behind :
    (k : ℕ) (v : List ℕ) (m l : List (ℕ × List ℕ))
    → mem k (keys l) ≡ false
    → All (IsEntry m) l
    → All (IsEntry ((k, v) ∷ m)) l
unfolding mem IsEntry get
entries_behind k v m [] h f = tt
entries_behind k v m ((j, w) ∷ l) h (here, f) =
    (ground (arith, here), entries_behind k v m l (ground arith) f)

every_one : (m : List (ℕ × List ℕ)) → IsDistinct (keys m) → All (IsEntry m) m
unfolding IsEntry get
every_one [] d = tt
every_one ((k, v) ∷ m) (new, d) = (ground arith, entries_behind k v m m new (every_one m d))

part_size_of :
    (m : List (ℕ × List ℕ)) (k : ℕ) (v : List ℕ) → get k m ≡ some v → part_size m k ≡ length v
part_size_of m k v e = ground arith

get_absent : (k : ℕ) (m : List (ℕ × List ℕ)) → get k m ≡ none → mem k (keys m) ≡ false
unfolding get mem
get_absent k [] e = refl
get_absent k ((j, v) ∷ m) e = ground (arith, get_absent k m)

sizes :
    (m l : List (ℕ × List ℕ)) → All (IsEntry m) l → weight (part_size m) (keys l) ≡ payload_bytes l
unfolding weight IsEntry
sizes m [] f = refl
sizes m ((k, v) ∷ l) (here, f) = omega (arith, part_size_of m k v here, sizes m l f)

pub gather_step :
    (rounds index : ℕ) (m : List (ℕ × List ℕ)) (part rest : List ℕ)
    → get index m ≡ some part
    → gather rounds (suc index) m ≡ ok rest
    → gather (suc rounds) index m ≡ ok (part ++ rest)
unfolding gather
gather_step rounds index m part rest here e = ground (arith, here, e)

-- Where all indices are present the chunks are put together.
gather_ok :
    (rounds index : ℕ) (m : List (ℕ × List ℕ))
    → ((k : ℕ) → k < index + rounds → mem k (keys m) ≡ true)
    → (out : List ℕ) × (gather rounds index m ≡ ok out)
      × (weight_below (part_size m) (index + rounds)
          ≡ weight_below (part_size m) index + length out)
unfolding gather weight_below
gather_ok zero index m h =
    let same : index + 0 ≡ index = omega arith in
    ([], refl, omega (arith, ap (weight_below (part_size m)) same))
gather_ok (suc rounds) index m h =
    let (rest, e, size) = gather_ok rounds (suc index) m (λ k b. h k (omega arith)) in
    elim (Option-cases (get index m)) [
      | inl gone ↦ cc (h index (omega arith), get_absent index m gone)
      | inr (part, here) ↦
          let same : index + suc rounds ≡ suc index + rounds = omega arith in
          (
            part ++ rest,
            gather_step rounds index m part rest here e,
            omega (
              arith,
              ap (weight_below (part_size m)) same,
              size,
              part_size_of m index part here,
              length-append part rest,
            ),
          )
    ]

-- A full set of chunks is put together, into no more than the limit.
pub whole :
    (total bytes : ℕ) (m : List (ℕ × List ℕ))
    → AreChunks total bytes m
    → length m ≡ total
    → (out : List ℕ) × (gather total 0 m ≡ ok out) × (length out ≤ 8192)
unfolding weight_below
whole total bytes m c full =
    let there : (k : ℕ) → k < total → mem k (keys m) ≡ true =
      all_present total (keys m) c.distinct c.below (length-keys m ∙ full) in
    let (out, e, size) = gather_ok total 0 m (λ k b. there k (omega arith)) in
    let least = weight-ge (part_size m) total (keys m) there in
    let most = sizes m m (every_one m c.distinct) in
    let same : 0 + total ≡ total = omega arith in
    (
      out,
      e,
      omega (arith, size, ap (weight_below (part_size m)) same, least, most, c.counted, c.bounded),
    )

pub more-AreChunks :
    (total bytes index : ℕ) (m : List (ℕ × List ℕ)) (payload : List ℕ)
    → AreChunks total bytes m
    → contains index m ≡ false
    → index < total
    → bytes + length payload ≤ 8192
    → AreChunks total (bytes + length payload) (put index payload m)
more-AreChunks total bytes index m payload c new below size =
    let absent : mem index (keys m) ≡ false = sym (contains-mem index m) ∙ new in
    rw (put_new index payload m new) (record {
      distinct =
          subst IsDistinct (sym (keys-snoc m index payload))
            (snoc-IsDistinct index (keys m) c.distinct absent);
      below =
          subst (AreBelow total) (sym (keys-snoc m index payload))
            (All-append (λ k. k < total) (keys m) (index ∷ []) c.below (below, tt));
      counted = omega (arith, c.counted, payload-snoc m index payload);
      bounded = size;
    })
