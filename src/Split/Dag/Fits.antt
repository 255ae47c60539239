-- ===== src/Split/Dag/Fits.antt =====
-- What `Pack` puts into a box fits in it.
use estuary.Prelude.{
  ℕ, ◌+◌, ◌≤◌, ◌<◌, ◌^◌, ◌%◌, ◌≡◌, refl, sym, subst, true, List, [], ◌∷◌, ◌++◌, Option, none, some,
  All, arith, ap, ◌∙◌, map, sum,
}
use estuary.Db.{ok, err}
use estuary.Split.Dag.{
  Node, Box, Builder, Packing, finished, Turn, pack, step_from, turn, fits, empty_box, on_last,
  add_size, new_builder, get_tree_size,
}
use estuary.Split.Dag.Turns
use estuary.Split.Dag.Turns.{
  pack_ends, Turned, turn-Turned, skipped, tree_fits, node_fits, box_full, stopped,
}

sum_snoc : (f : ℕ → ℕ) (xs : List ℕ) (c : ℕ) → sum (map f (xs ++ c ∷ [])) ≡ sum (map f xs) + f c
sum_snoc f [] c = omega arith
sum_snoc f (x ∷ xs) c = omega (arith, sum_snoc f xs c)

-- A size that fits is one that the box still has room for.
room :
    (b : Builder) (size max : ℕ)
    → max < 2 ^ 63
    → size < 2 ^ 63
    → b.box_max_size ≡ max
    → b.box_used_size ≤ max
    → fits b size ≡ true
    → b.box_used_size + size ≤ max
room b size max h k m u f = ground (arith, h, k, m, u, f)

module _ (dag : ℕ → Option Node) (raw_len : ℕ → ℕ) where
  abbrev pub tree_size_of : ℕ → ℕ
  tree_size_of c = elim (dag c) [
    | none ↦ 0
    | some n ↦ elim (get_tree_size n) [ ok size ↦ size | err e ↦ 0 ]
  ]

  -- The bytes of a box: the trees below its roots, and the nodes that it has as raw blocks.
  abbrev pub weight : Box → ℕ
  weight x = sum (map tree_size_of x.roots) + sum (map raw_len x.external)

  tree_size_known :
      (c : ℕ) (n : Node) (size : ℕ)
      → dag c ≡ some n
      → get_tree_size n ≡ ok size
      → tree_size_of c ≡ size
  tree_size_known c n size d g = rw (d, tree_size_of, g) refl

  module _ (max : ℕ) (int64 : max < 2 ^ 63) (trees : (c : ℕ) → tree_size_of c < 2 ^ 63)
      (raw : (c ncid : ℕ) (n : Node)
        → dag c ≡ some n
        → n.raw_cid ≡ ok ncid
        → (raw_len ncid ≡ n.raw_size) × (n.raw_size < 2 ^ 63)) where
    -- The boxes, of which the last has the weight `u`.
    abbrev Sized : ℕ → List Box → Type 0
    Sized u [] = Unit
    Sized u (x ∷ []) = weight x ≡ u
    Sized u (x ∷ y ∷ boxes) = (weight x ≤ max) × Sized u (y ∷ boxes)

    record Packs (b : Builder) : Type 0 where
      sized : Sized b.box_used_size b.boxes
      used : b.box_used_size ≤ max
      same_max : b.box_max_size ≡ max

    Sized-on_last :
        (u k : ℕ) (f : Box → Box) (boxes : List Box)
        → ((x : Box) → weight (f x) ≡ weight x + k)
        → Sized u boxes
        → Sized (u + k) (on_last f boxes)
    Sized-on_last u k f [] h s = tt
    Sized-on_last u k f (x ∷ []) h s = h x ∙ ap (λ w. w + k) s
    Sized-on_last u k f (x ∷ y ∷ []) h s = (s.0, Sized-on_last u k f (y ∷ []) h s.1)
    Sized-on_last u k f (x ∷ y ∷ z ∷ r) h s = (s.0, Sized-on_last u k f (y ∷ z ∷ r) h s.1)

    Sized-new_box :
        (u : ℕ) (boxes : List Box) → u ≤ max → Sized u boxes → Sized 0 (boxes ++ empty_box ∷ [])
    Sized-new_box u [] h s = refl
    Sized-new_box u (x ∷ []) h s = (ground (arith, h, s), refl)
    Sized-new_box u (x ∷ y ∷ r) h s = (s.0, Sized-new_box u (y ∷ r) h s.1)

    Sized-All :
        (u : ℕ) (boxes : List Box) → u ≤ max → Sized u boxes → All (λ x. weight x ≤ max) boxes
    Sized-All u [] h s = tt
    Sized-All u (x ∷ []) h s = (ground (arith, h, s), tt)
    Sized-All u (x ∷ y ∷ r) h s = (s.0, Sized-All u (y ∷ r) h s.1)

    abbrev Stays : Turn → Type 0
    Stays = Turns.Stays (λ s. Packs s.builder) Packs

    -- One more block in the last box.
    grown :
        (b : Builder) (k : ℕ) (f : Box → Box)
        → ((x : Box) → weight (f x) ≡ weight x + k)
        → k < 2 ^ 63
        → fits b k ≡ true
        → Packs b
        → Packs (add_size k (record b { boxes = on_last f b.boxes }))
    grown b k f w l h p =
        let r = room b k max int64 l p.same_max p.used h in
        let e : b.box_used_size + k ≡ (b.box_used_size + k) % 2 ^ 64 = ground (arith, r, int64) in
        record {
          sized =
              subst (λ u. Sized u (on_last f b.boxes)) e
                (Sized-on_last b.box_used_size k f b.boxes w p.sized);
          used = subst (λ u. u ≤ max) e r;
          same_max = p.same_max;
        }

    Turned-Stays :
        (cur : ℕ) (rest : List ℕ) (s : Packing) (t : Turn)
        → Packs s.builder
        → Turned dag cur rest s t
        → Stays t
    Turned-Stays cur rest s t p (skipped h q) = subst Stays (sym q) p
    Turned-Stays cur rest s t p (tree_fits n size h d g f q) =
        let z = tree_size_known cur n size d g in
        subst Stays (sym q) (
          grown s.builder size (λ x. record x { roots = x.roots ++ cur ∷ [] })
            (λ x. ground (arith, z, sum_snoc tree_size_of x.roots cur))
            (subst (λ m. m < 2 ^ 63) z (trees cur)) f p)
    Turned-Stays cur rest s t p (node_fits n ncid h d g f q) =
        let z = raw cur ncid n d g in
        subst Stays (sym q) (
          grown s.builder n.raw_size (λ x. record x { external = x.external ++ ncid ∷ [] })
            (λ x. ground (arith, z.0, sum_snoc raw_len x.external ncid)) z.1 f p)
    Turned-Stays cur rest s t p (box_full n h d f q) = subst Stays (sym q) (record {
      sized = Sized-new_box s.builder.box_used_size s.builder.boxes p.used p.sized;
      used = ground arith;
      same_max = p.same_max;
    })
    Turned-Stays cur rest s t p (stopped e q) = subst Stays (sym q) tt

    step-Stays : (stack : List ℕ) (s : Packing) → Packs s.builder → Stays (step_from dag stack s)
    unfolding step_from
    step-Stays [] s p = p
    step-Stays (cur ∷ rest) s p =
        Turned-Stays cur rest s (turn dag cur rest s) p (turn-Turned dag cur rest s)

    -- When `Pack` ends well, no box holds more than the size that the builder was made for, counted
    -- with the declared sizes of the trees and the lengths of the raw blocks. These sizes are below
    -- 2^63, and a raw block's CID tells its length.
    pub pack-Fits :
        (fuel root : ℕ) (b : Builder)
        → pack dag fuel root (new_builder max) ≡ finished b
        → All (λ x. weight x ≤ max) b.boxes
    unfolding new_builder
    pack-Fits fuel root b e =
        let p =
          pack_ends (λ s. Packs s.builder) Packs dag fuel root (new_builder max) b
            (λ s. step-Stays s.stack s)
            (record { sized = refl; used = ground arith; same_max = refl }) e in
        Sized-All b.box_used_size b.boxes p.used p.sized
