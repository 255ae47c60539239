-- ===== src/Split/Dag/Boxes.antt =====
-- The boxes of `Pack` only grow.
use estuary.Prelude.{
  ℕ, ◌≡◌, inl, inr, true, List, [], ◌∷◌, ◌++◌, All, Any, Any-append_left, elem, arith,
}
use estuary.Split.Dag.{Box, empty_box, on_last, push_links}

abbrev pub HasRoot : ℕ → Box → Type 0
HasRoot c x = elem c x.roots ≡ true

abbrev pub HasExternal : ℕ → Box → Type 0
HasExternal c x = elem c x.external ≡ true

pub elem_snoc : (c d : ℕ) (xs : List ℕ) → elem c xs ≡ true → elem c (xs ++ d ∷ []) ≡ true
elem_snoc c d (x ∷ xs) h = ground (arith, h, elem_snoc c d xs)
elem_snoc c d [] h = absurd (ground (arith, h))

pub elem_last : (c : ℕ) (xs : List ℕ) → elem c (xs ++ c ∷ []) ≡ true
elem_last c [] = ground arith
elem_last c (x ∷ xs) = ground (arith, elem_last c xs)

pub elem-push_links_right :
    (c : ℕ) (links stack : List ℕ) → elem c stack ≡ true → elem c (push_links links stack) ≡ true
elem-push_links_right c [] stack h = h
elem-push_links_right c (l ∷ links) stack h =
    elem-push_links_right c links (l ∷ stack) (ground (arith, h))

pub elem-push_links_left :
    (links stack : List ℕ) → All (λ l. elem l (push_links links stack) ≡ true) links
elem-push_links_left [] stack = tt
elem-push_links_left (l ∷ links) stack = (
  elem-push_links_right l links (l ∷ stack) (ground arith),
  elem-push_links_left links (l ∷ stack),
)

module _ (P : Box → Type 0) (f : Box → Box) where
  Any-on_last :
      (boxes : List Box) → ((x : Box) → P x → P (f x)) → Any P boxes → Any P (on_last f boxes)
  Any-on_last (x ∷ []) k (inl h) = inl (k x h)
  Any-on_last (x ∷ []) k (inr h) = absurd h
  Any-on_last (x ∷ y ∷ r) k (inl h) = inl h
  Any-on_last (x ∷ y ∷ r) k (inr h) = inr (Any-on_last (y ∷ r) k h)
  Any-on_last [] k h = absurd h

  -- The last box, where there is one.
  pub Any-last :
      (boxes : List Box) → ((x : Box) → P (f x)) → Any (λ x. Unit) boxes → Any P (on_last f boxes)
  Any-last (x ∷ []) k h = inl (k x)
  Any-last (x ∷ y ∷ r) k h = inr (Any-last (y ∷ r) k (inl tt))
  Any-last [] k h = absurd h

-- Boxes that keep what is in the others.
pub record Grows (boxes boxes' : List Box) : Type 0 where
  pub keeps_some : Any (λ x. Unit) boxes → Any (λ x. Unit) boxes'
  pub keeps_root : (c : ℕ) → Any (HasRoot c) boxes → Any (HasRoot c) boxes'
  pub keeps_external : (c : ℕ) → Any (HasExternal c) boxes → Any (HasExternal c) boxes'

pub same : (boxes : List Box) → Grows boxes boxes
same boxes = record { keeps_some = λ h. h; keeps_root = λ c h. h; keeps_external = λ c h. h }

pub Grows-new_box : (boxes : List Box) → Grows boxes (boxes ++ empty_box ∷ [])
Grows-new_box boxes = record {
  keeps_some = Any-append_left (λ x. Unit) boxes (empty_box ∷ []);
  keeps_root = λ c. Any-append_left (HasRoot c) boxes (empty_box ∷ []);
  keeps_external = λ c. Any-append_left (HasExternal c) boxes (empty_box ∷ []);
}

pub Grows-on_last :
    (f : Box → Box) (boxes : List Box)
    → ((c : ℕ) (x : Box) → HasRoot c x → HasRoot c (f x))
    → ((c : ℕ) (x : Box) → HasExternal c x → HasExternal c (f x))
    → Grows boxes (on_last f boxes)
Grows-on_last f boxes h k = record {
  keeps_some = Any-on_last (λ x. Unit) f boxes (λ x u. u);
  keeps_root = λ c. Any-on_last (HasRoot c) f boxes (h c);
  keeps_external = λ c. Any-on_last (HasExternal c) f boxes (k c);
}
