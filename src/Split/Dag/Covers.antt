-- ===== src/Split/Dag/Covers.antt =====
-- `Pack` leaves nothing of the DAG out.
use estuary.Prelude.{
  ℕ, ◌≡◌, ◌⊎◌, inl, inr, sym, subst, true, Bool-cases, List, [], ◌∷◌, ◌++◌, Option, some, All,
  All-imp, Any, elem, arith, ◌==◌,
}
use estuary.Db.{ok}
use estuary.Split.Dag.{
  Node, Box, Builder, Packing, finished, Turn, pack, step_from, turn, push_links, new_builder,
}
use estuary.Split.Dag.Turns
use estuary.Split.Dag.Turns.{
  pack_ends, Turned, turn-Turned, skipped, tree_fits, node_fits, box_full, stopped,
}
use estuary.Split.Dag.Boxes.{
  HasRoot, HasExternal, elem_snoc, elem_last, elem-push_links_right, elem-push_links_left, Any-last,
  Grows, same, Grows-new_box, Grows-on_last,
}

module _ (dag : ℕ → Option Node) where
  -- A node is below a root of some box, or it is a raw block of some box and each of its links is one
  -- of the nodes of `K`.
  abbrev pub Placed : (ℕ → Type 0) → List Box → ℕ → Type 0
  Placed K boxes c =
      Any (HasRoot c) boxes
      ⊎ ((n : Node) × (ncid : ℕ) × (dag c ≡ some n)
          × (n.raw_cid ≡ ok ncid)
          × Any (HasExternal ncid) boxes
          × All K n.links)

  Placed-mono :
      (K L : ℕ → Type 0) (boxes boxes' : List Box) (c : ℕ)
      → ((l : ℕ) → K l → L l)
      → Grows boxes boxes'
      → Placed K boxes c
      → Placed L boxes' c
  Placed-mono K L boxes boxes' c k g (inl h) = inl (g.keeps_root c h)
  Placed-mono K L boxes boxes' c k g (inr (n, r, d, e, h, a)) =
      inr (n, r, d, e, g.keeps_external r h, All-imp K L n.links k a)

  -- The nodes that are packed or wait on the stack.
  abbrev Met : List ℕ → List ℕ → ℕ → Type 0
  Met packed stack c = (elem c packed ≡ true) ⊎ (elem c stack ≡ true)

  Met-skipped :
      (cur : ℕ) (rest packed : List ℕ)
      → elem cur packed ≡ true
      → (c : ℕ) → Met packed (cur ∷ rest) c
      → Met packed rest c
  Met-skipped cur rest packed e c (inl m) = inl m
  Met-skipped cur rest packed e c (inr m) = elim (Bool-cases (cur == c)) [
    | inl p ↦ inl (subst (λ d. elem d packed ≡ true) (ground (arith, p)) e)
    | inr p ↦ inr (ground (arith, m, p))
  ]

  Met-packed :
      (cur : ℕ) (rest stack packed : List ℕ)
      → ((c : ℕ) → elem c rest ≡ true → elem c stack ≡ true)
      → (c : ℕ) → Met packed (cur ∷ rest) c
      → Met (cur ∷ packed) stack c
  Met-packed cur rest stack packed k c (inl m) = inl (ground (arith, m))
  Met-packed cur rest stack packed k c (inr m) = elim (Bool-cases (cur == c)) [
    | inl p ↦ inl (ground (arith, p))
    | inr p ↦ inr (k c (ground (arith, m, p)))
  ]

  -- With an empty stack, what was met is packed.
  Met-done : (packed : List ℕ) (c : ℕ) → Met packed [] c → elem c packed ≡ true
  Met-done packed c (inl m) = m
  Met-done packed c (inr m) = absurd (ground (arith, m))

  module _ (root : ℕ) where
    record Kept (stack packed : List ℕ) (boxes : List Box) : Type 0 where
      some_box : Any (λ x. Unit) boxes
      root_met : Met packed stack root
      placed : All (Placed (Met packed stack) boxes) packed

    abbrev Covered : Builder → Type 0
    Covered b = (P : List ℕ) × (elem root P ≡ true) × All (Placed (λ l. elem l P ≡ true) b.boxes) P

    abbrev KeptBy : Packing → Type 0
    KeptBy s = Kept s.stack s.packed s.builder.boxes

    abbrev Stays : Turn → Type 0
    Stays = Turns.Stays KeptBy Covered

    -- A turn that packs one more node, or none.
    kept :
        (stack stack' packed packed' : List ℕ) (boxes boxes' : List Box)
        → ((c : ℕ) → Met packed stack c → Met packed' stack' c)
        → Grows boxes boxes'
        → (All (Placed (Met packed' stack') boxes') packed
            → All (Placed (Met packed' stack') boxes') packed')
        → Kept stack packed boxes
        → Kept stack' packed' boxes'
    kept stack stack' packed packed' boxes boxes' k g p h = record {
      some_box = g.keeps_some h.some_box;
      root_met = k root h.root_met;
      placed = p (
          All-imp (Placed (Met packed stack) boxes) (Placed (Met packed' stack') boxes') packed
            (λ c. Placed-mono (Met packed stack) (Met packed' stack') boxes boxes' c k g) h.placed);
    }

    Turned-Stays :
        (cur : ℕ) (rest : List ℕ) (s : Packing) (t : Turn)
        → Kept (cur ∷ rest) s.packed s.builder.boxes
        → Turned dag cur rest s t
        → Stays t
    Turned-Stays cur rest s t h (skipped e q) = subst Stays (sym q) (
        kept (cur ∷ rest) rest s.packed s.packed s.builder.boxes s.builder.boxes
          (Met-skipped cur rest s.packed e) (same s.builder.boxes) (λ p. p) h)
    Turned-Stays cur rest s t h (tree_fits n size e d g f q) = subst Stays (sym q) (
        kept (cur ∷ rest) rest s.packed (cur ∷ s.packed) s.builder.boxes _
          (Met-packed cur rest rest s.packed (λ c r. r))
          (Grows-on_last (λ x. record x { roots = x.roots ++ cur ∷ [] }) s.builder.boxes
            (λ c x r. elem_snoc c cur x.roots r) (λ c x r. r))
          (λ p. (
            inl (
                Any-last (HasRoot cur) (λ x. record x { roots = x.roots ++ cur ∷ [] })
                  s.builder.boxes (λ x. elem_last cur x.roots) h.some_box),
            p,
          ))
          h)
    Turned-Stays cur rest s t h (node_fits n ncid e d g f q) =
        let stack = push_links n.links rest in
        subst Stays (sym q) (
          kept (cur ∷ rest) stack s.packed (cur ∷ s.packed) s.builder.boxes _
            (Met-packed cur rest stack s.packed (λ c. elem-push_links_right c n.links rest))
            (Grows-on_last (λ x. record x { external = x.external ++ ncid ∷ [] }) s.builder.boxes
              (λ c x r. r) (λ c x r. elem_snoc c ncid x.external r))
            (λ p. (
              inr (
                n,
                ncid,
                d,
                g,
                Any-last (HasExternal ncid) (λ x. record x { external = x.external ++ ncid ∷ [] })
                    s.builder.boxes (λ x. elem_last ncid x.external) h.some_box,
                All-imp (λ l. elem l stack ≡ true) (Met (cur ∷ s.packed) stack) n.links
                    (λ l k. inr k) (elem-push_links_left n.links rest),
              ),
              p,
            ))
            h)
    Turned-Stays cur rest s t h (box_full n e d f q) = subst Stays (sym q) (
        kept (cur ∷ rest) (cur ∷ rest) s.packed s.packed s.builder.boxes _ (λ c m. m)
          (Grows-new_box s.builder.boxes) (λ p. p) h)
    Turned-Stays cur rest s t h (stopped e q) = subst Stays (sym q) tt

    step-Stays :
        (stack : List ℕ) (s : Packing)
        → Kept stack s.packed s.builder.boxes
        → Stays (step_from dag stack s)
    unfolding step_from
    step-Stays [] s h = (
      s.packed,
      Met-done s.packed root h.root_met,
      All-imp (Placed (Met s.packed []) s.builder.boxes)
          (Placed (λ l. elem l s.packed ≡ true) s.builder.boxes) s.packed
          (λ c.
            Placed-mono (Met s.packed []) (λ l. elem l s.packed ≡ true) s.builder.boxes
              s.builder.boxes c (Met-done s.packed) (same s.builder.boxes))
          h.placed,
    )
    step-Stays (cur ∷ rest) s h =
        Turned-Stays cur rest s (turn dag cur rest s) h (turn-Turned dag cur rest s)

    -- When `Pack` ends well, the boxes cover the DAG: there are nodes, the root among them, each of which
    -- is a root of some box, with all that is below it, or is a raw block of some box and has all its
    -- links among these nodes.
    pub pack-Covers :
        (fuel max : ℕ) (b : Builder)
        → pack dag fuel root (new_builder max) ≡ finished b
        → (P : List ℕ) × (elem root P ≡ true) × All (Placed (λ l. elem l P ≡ true) b.boxes) P
    unfolding new_builder
    pack-Covers fuel max b e =
        pack_ends KeptBy Covered dag fuel root (new_builder max) b (λ s. step-Stays s.stack s)
          (record { some_box = inl tt; root_met = inr (ground arith); placed = tt }) e
