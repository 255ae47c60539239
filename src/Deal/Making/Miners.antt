-- ===== src/Deal/Making/Miners.antt =====
-- The miners of the live deals of a content.
use estuary.Prelude.{
  ℕ, ◌≡◌, inl, inr, refl, subst, ap, Bool, true, false, Bool-cases, not, ◌&&◌, List, [], ◌∷◌, ◌++◌,
  All, arith, map, keep, elem, length, ◌≤◌, ◌==◌,
}
use estuary.Model.{ContentDeal, Store}
use estuary.Deal.Replication.{live_deal}

abbrev pub live_miners : ℕ → List ContentDeal → List ℕ
live_miners cont_id deals = map (λ d. d.miner) (keep (live_deal cont_id) deals)

abbrev pub distinct : List ℕ → Bool
distinct [] = true
distinct (x ∷ xs) = not (elem x xs) && distinct xs

elem_snoc :
    (x m : ℕ) (xs : List ℕ) → elem x xs ≡ false → (x == m) ≡ false → elem x (xs ++ m ∷ []) ≡ false
elem_snoc x m [] h k = ground (arith, k)
elem_snoc x m (y ∷ xs) h k = ground (arith, h, k, elem_snoc x m xs (ground (arith, h)) k)

pub distinct_snoc :
    (xs : List ℕ) (m : ℕ) → distinct xs ≡ true → elem m xs ≡ false → distinct (xs ++ m ∷ []) ≡ true
distinct_snoc [] m h k = refl
distinct_snoc (x ∷ xs) m h k = ground (
  arith,
  h,
  k,
  elem_snoc x m xs (ground (arith, h)) (ground (arith, k)),
  distinct_snoc xs m (ground (arith, h)) (ground (arith, k)),
)

pub elem_none :
    (m : ℕ) (ex xs : List ℕ)
    → All (λ x. elem x ex ≡ true) xs
    → elem m ex ≡ false
    → elem m xs ≡ false
elem_none m ex [] h k = refl
elem_none m ex (x ∷ xs) h k = elim (Bool-cases (x == m)) [
  | inl e ↦
      let q : x ≡ m = ground (arith, e) in
      absurd (ground (arith, k, subst (λ y. elem y ex ≡ true) q h.0))
  | inr e ↦ ground (arith, e, elem_none m ex xs h.1 k)
]

pub live_miners_snoc :
    (cont_id : ℕ) (deals : List ContentDeal) (d : ContentDeal)
    → d.content ≡ cont_id
    → d.failed ≡ false
    → live_miners cont_id (deals ++ d ∷ []) ≡ live_miners cont_id deals ++ d.miner ∷ []
live_miners_snoc cont_id [] d e f = ground (arith, e, f)
live_miners_snoc cont_id (x ∷ deals) d e f = elim (Bool-cases (live_deal cont_id x)) [
  | inl p ↦ rw p (ap (λ l. x.miner ∷ l) (live_miners_snoc cont_id deals d e f))
  | inr p ↦ rw p (live_miners_snoc cont_id deals d e f)
]

-- The live deals of a content in a store are with different miners, and there are at most `n`.
abbrev pub SpreadOver : ℕ → ℕ → Store → Type 0
SpreadOver cont_id n s =
    (distinct (live_miners cont_id s.content_deals) ≡ true)
    × (length (live_miners cont_id s.content_deals) ≤ n)
