-- ===== src/Split/Dag/Terminates.antt =====
-- `Pack` ends: the turns are bounded by the links of the nodes that can be reached.
use estuary.Prelude.{
  ℕ, zero, suc, ◌+◌, ◌*◌, ◌≤◌, ◌<◌, ◌^◌, ◌≡◌, ◌⊎◌, refl, sym, subst, true, false, Bool-cases,
  if◌then◌else◌, inl, inr, List, [], ◌∷◌, Option, none, some, elem, length, All, arith, ◌==◌, ap,
}
use estuary.Db.{Error}
use estuary.Split.Dag.{
  Node, Builder, Packing, Outcome, finished, failed, Turn, done, next, stop, pack, pack_loop,
  step_from, turn, fits, push_links,
}
use estuary.Split.Dag.Turns.{Turned, turn-Turned, skipped, tree_fits, node_fits, box_full, stopped}

-- `Pack` ended, with or without an error.
abbrev pub Returns : Outcome → Type 0
Returns o = ((b : Builder) × (o ≡ finished b)) ⊎ ((e : Error) × (o ≡ failed e))

length-push_links :
    (links stack : List ℕ) → length (push_links links stack) ≡ length links + length stack
length-push_links [] stack = omega arith
length-push_links (l ∷ links) stack = omega (arith, length-push_links links (l ∷ stack))

pub push_links-All {κ} :
    (P : ℕ → Type κ) (links stack : List ℕ)
    → All P links
    → All P stack
    → All P (push_links links stack)
push_links-All P [] stack h k = k
push_links-All P (l ∷ links) stack h k = push_links-All P links (l ∷ stack) h.1 (h.0, k)

pub all_elem : (P : ℕ → Type 0) (c : ℕ) (cs : List ℕ) → All P cs → elem c cs ≡ true → P c
all_elem P c (x ∷ cs) h e = elim (Bool-cases (x == c)) [
  | inl q ↦ subst P (ground (arith, q)) h.0
  | inr q ↦ all_elem P c cs h.1 (ground (arith, q, e))
]
all_elem P c [] h e = absurd (ground (arith, e))

module _ (dag : ℕ → Option Node) where
  abbrev pub links_of : ℕ → List ℕ
  links_of c = elim (dag c) [ none ↦ [] | some n ↦ n.links ]

  abbrev pub raw_size_of : ℕ → ℕ
  raw_size_of c = elim (dag c) [ none ↦ 0 | some n ↦ n.raw_size ]

  links_known : (c : ℕ) (n : Node) → dag c ≡ some n → links_of c ≡ n.links
  links_known c n d = rw (d, links_of) refl

  size_known : (c : ℕ) (n : Node) → dag c ≡ some n → raw_size_of c ≡ n.raw_size
  size_known c n d = rw (d, raw_size_of) refl

  -- The links that nodes not packed yet can still push.
  abbrev pub pending : List ℕ → List ℕ → ℕ
  pending [] packed = 0
  pending (c ∷ cids) packed =
      (if elem c packed then 0 else 2 * length (links_of c)) + pending cids packed

  pending_mono : (cids packed : List ℕ) (c : ℕ) → pending cids (c ∷ packed) ≤ pending cids packed
  pending_mono [] packed c = omega arith
  pending_mono (x ∷ cids) packed c = ground (arith, pending_mono cids packed c)

  pending_less :
      (cids packed : List ℕ) (c : ℕ)
      → elem c cids ≡ true
      → elem c packed ≡ false
      → pending cids (c ∷ packed) + 2 * length (links_of c) ≤ pending cids packed
  pending_less [] packed c h k = absurd (ground (arith, h))
  pending_less (x ∷ cids) packed c h k = elim (Bool-cases (x == c)) [
    | inl e ↦
        let q : c ≡ x = ground (arith, e) in
        subst
          (λ y.
            pending (y ∷ cids) (c ∷ packed) + 2 * length (links_of c) ≤ pending (y ∷ cids) packed)
          q (ground (arith, k, pending_mono cids packed c))
    | inr e ↦ ground (arith, e, pending_less cids packed c (ground (arith, h, e)) k)
  ]

  fits_empty :
      (b : Builder) (size : ℕ)
      → size ≤ b.box_max_size
      → b.box_max_size < 2 ^ 63
      → b.box_used_size ≡ 0
      → fits b size ≡ true
  fits_empty b size h k e = ground (arith, h, k, e)

  module _ (cids : List ℕ) (max : ℕ)
      (closed : All (λ c. All (λ l. elem l cids ≡ true) (links_of c)) cids)
      (small : All (λ c. raw_size_of c ≤ max) cids) (int64 : max < 2 ^ 63) where
    abbrev measure : Packing → ℕ
    measure s =
        2 * length s.stack + pending cids s.packed + (if s.builder.box_used_size == 0 then 0 else 1)

    -- What the loop keeps: the stack stays among the known nodes.
    record Bounded (s : Packing) : Type 0 where
      known : All (λ c. elem c cids ≡ true) s.stack
      same_max : s.builder.box_max_size ≡ max

    -- A turn that goes on does with a smaller measure.
    abbrev Goes : ℕ → Turn → Type 0
    Goes n (next s) = Bounded s × (measure s < n)
    Goes n (stop e) = Unit
    Goes n (done b) = Unit

    known_links :
        (cur : ℕ) (n : Node)
        → dag cur ≡ some n
        → elem cur cids ≡ true
        → All (λ l. elem l cids ≡ true) n.links
    known_links cur n d k =
        subst (λ ls. All (λ l. elem l cids ≡ true) ls) (links_known cur n d)
          (all_elem (λ c. All (λ l. elem l cids ≡ true) (links_of c)) cur cids closed k)

    known_size : (cur : ℕ) (n : Node) → dag cur ≡ some n → elem cur cids ≡ true → n.raw_size ≤ max
    known_size cur n d k =
        subst (λ m. m ≤ max) (size_known cur n d)
          (all_elem (λ c. raw_size_of c ≤ max) cur cids small k)

    Turned-Goes :
        (cur : ℕ) (rest : List ℕ) (s : Packing) (t : Turn)
        → length s.stack ≡ suc (length rest)
        → All (λ c. elem c cids ≡ true) (cur ∷ rest)
        → s.builder.box_max_size ≡ max
        → Turned dag cur rest s t
        → Goes (measure s) t
    Turned-Goes cur rest s t e h m (skipped p q) =
        subst (Goes (measure s)) (sym q) (record { known = h.1; same_max = m }, ground (arith, e))
    Turned-Goes cur rest s t e h m (tree_fits n size p d g f q) = subst (Goes (measure s)) (sym q) (
      record { known = h.1; same_max = m },
      ground (arith, e, pending_less cids s.packed cur h.0 p),
    )
    Turned-Goes cur rest s t e h m (node_fits n ncid p d g f q) = subst (Goes (measure s)) (sym q) (
      record {
        known = push_links-All (λ c. elem c cids ≡ true) n.links rest (known_links cur n d h.0) h.1;
        same_max = m;
      },
      ground (
        arith,
        e,
        ap length (links_known cur n d),
        length-push_links n.links rest,
        pending_less cids s.packed cur h.0 p,
      ),
    )
    Turned-Goes cur rest s t e h m (box_full n p d f q) = subst (Goes (measure s)) (sym q) (
      record { known = h; same_max = m },
      elim (Bool-cases (s.builder.box_used_size == 0)) [
        | inl z ↦ absurd (
            ground (
              arith,
              f,
              fits_empty s.builder n.raw_size (ground (arith, m, known_size cur n d h.0))
                  (ground (arith, m, int64)) (ground (arith, z)),
            ))
        | inr z ↦ ground (arith, e, z)
      ],
    )
    Turned-Goes cur rest s t e h m (stopped d q) = subst (Goes (measure s)) (sym q) tt

    from-Goes :
        (stack : List ℕ) (s : Packing)
        → s.stack ≡ stack
        → Bounded s
        → Goes (measure s) (step_from dag stack s)
    unfolding step_from
    from-Goes [] s e h = tt
    from-Goes (cur ∷ rest) s e h =
        Turned-Goes cur rest s (turn dag cur rest s) (ap length e)
          (subst (All (λ c. elem c cids ≡ true)) e h.known) h.same_max (turn-Turned dag cur rest s)

    loop-Returns :
        (fuel : ℕ) (s : Packing) → measure s < fuel → Bounded s → Returns (pack_loop dag fuel s)
    unfolding pack_loop
    loop-Returns zero s h b = absurd (omega (arith, h))
    loop-Returns (suc fuel) s h b =
        (elim (step_from dag s.stack s)
            as (λ t.
              Goes (measure s) t
              → Returns (elim t as (λ _. Outcome) [
                | done b ↦ finished b
                | stop e ↦ failed e
                | next s' ↦ pack_loop dag fuel s'
              ])) [
                | done b ↦ λ g. inl (b, refl)
                | stop e ↦ λ g. inr (e, refl)
                | next s' ↦ λ g. loop-Returns fuel s' (ground (arith, h, g.1)) g.0
              ])
          (from-Goes s.stack s refl b)

    -- The fuel that is enough.
    abbrev pub enough : ℕ
    enough = 4 + pending cids []

    -- `Pack` returns, with boxes or with an error, whatever the DAG service answers: with fuel from
    -- `enough` on, twice the links of the nodes and four, the loop ends. The nodes that the root leads to
    -- are among finitely many, none is larger by itself than a box, and a box is smaller than 2^63.
    pub pack-Returns :
        (fuel root : ℕ) (b : Builder)
        → enough ≤ fuel
        → elem root cids ≡ true
        → b.box_max_size ≡ max
        → Returns (pack dag fuel root b)
    unfolding pack
    pack-Returns fuel root b h r m =
        let s : Packing = record { stack = root ∷ []; packed = []; builder = b } in
        loop-Returns fuel s (ground (arith, h)) (record { known = (r, tt); same_max = m })
