-- ===== src/Split/Dag/Turns.antt =====
-- The turns of the loop of `Pack`, case by case.
use estuary.Prelude.{
  ℕ, zero, suc, [], subst, ◌≡◌, refl, true, false, Bool-cases, Option-cases, inl, inr, List, ◌∷◌,
  Option, some, elem,
}
use estuary.Db.{Error, ok, record_not_found}
use estuary.Db.Atomic.{Result-cases}
use estuary.Split.Dag.{
  Node, Builder, Packing, Outcome, finished, failed, Turn, done, next, stop, pack, pack_loop,
  step_from, turn, get_tree_size, fits, pack_tree, pack_node, new_box,
}

module _ (dag : ℕ → Option Node) where
  -- How a turn ends, for the node on top of the stack.
  pub data Turned (cur : ℕ) (rest : List ℕ) (s : Packing) (t : Turn) : Type 0 where
    skipped : elem cur s.packed ≡ true → t ≡ next (record s { stack = rest }) → Turned cur rest s t
    tree_fits :
        (n : Node) (size : ℕ)
        → elem cur s.packed ≡ false
        → dag cur ≡ some n
        → get_tree_size n ≡ ok size
        → fits s.builder size ≡ true
        → t ≡ next (pack_tree cur size rest s)
        → Turned cur rest s t
    node_fits :
        (n : Node) (ncid : ℕ)
        → elem cur s.packed ≡ false
        → dag cur ≡ some n
        → n.raw_cid ≡ ok ncid
        → fits s.builder n.raw_size ≡ true
        → t ≡ next (pack_node cur n ncid rest s)
        → Turned cur rest s t
    box_full :
        (n : Node)
        → elem cur s.packed ≡ false
        → dag cur ≡ some n
        → fits s.builder n.raw_size ≡ false
        → t ≡ next (record s { stack = cur ∷ rest; builder = new_box s.builder })
        → Turned cur rest s t
    stopped : (e : Error) → t ≡ stop e → Turned cur rest s t

  pub turn-Turned :
      (cur : ℕ) (rest : List ℕ) (s : Packing) → Turned cur rest s (turn dag cur rest s)
  unfolding turn
  turn-Turned cur rest s = elim (Bool-cases (elem cur s.packed)) [
    | inl e ↦ skipped e (rw e refl)
    | inr e ↦ elim (Option-cases (dag cur)) [
      | inl p ↦ stopped record_not_found (rw (e, p) refl)
      | inr (n, p) ↦ elim (Result-cases (get_tree_size n)) [
        | inr (d, q) ↦ stopped d (rw (e, p, q) refl)
        | inl (size, q) ↦ elim (Bool-cases (fits s.builder size)) [
          | inl f ↦ tree_fits n size e p q f (rw (e, p, q, f) refl)
          | inr f ↦ elim (Bool-cases (fits s.builder n.raw_size)) [
            | inr g ↦ box_full n e p g (rw (e, p, q, f, g) refl)
            | inl g ↦ elim (Result-cases n.raw_cid) [
              | inr (d, r) ↦ stopped d (rw (e, p, q, f, g, r) refl)
              | inl (ncid, r) ↦ node_fits n ncid e p r g (rw (e, p, q, f, g, r) refl)
            ]
          ]
        ]
      ]
    ]
  ]

-- An invariant of the loop, and what it gives of the builder when the loop ends well.
module _ (I : Packing → Type 0) (Q : Builder → Type 0) where
  abbrev pub Stays : Turn → Type 0
  Stays (next s) = I s
  Stays (done b) = Q b
  Stays (stop e) = Unit

  abbrev Ends : Outcome → Type 0
  Ends (finished b) = Q b
  Ends _ = Unit

  loop-Ends :
      (dag : ℕ → Option Node)
      → ((s : Packing) → I s → Stays (step_from dag s.stack s))
      → (fuel : ℕ) (s : Packing) → I s
      → Ends (pack_loop dag fuel s)
  unfolding pack_loop
  loop-Ends dag k zero s p = tt
  loop-Ends dag k (suc fuel) s p =
      (elim (step_from dag s.stack s)
          as (λ t.
            Stays t
            → Ends (elim t as (λ _. Outcome) [
              | done b ↦ finished b
              | stop e ↦ failed e
              | next s' ↦ pack_loop dag fuel s'
            ])) [ done b ↦ λ g. g | stop e ↦ λ g. tt | next s' ↦ λ g. loop-Ends dag k fuel s' g ])
        (k s p)

  pub pack_ends :
      (dag : ℕ → Option Node) (fuel root : ℕ) (b b' : Builder)
      → ((s : Packing) → I s → Stays (step_from dag s.stack s))
      → I (record { stack = root ∷ []; packed = []; builder = b })
      → pack dag fuel root b ≡ finished b'
      → Q b'
  unfolding pack
  pack_ends dag fuel root b b' k i e =
      subst Ends e (loop-Ends dag k fuel (record { stack = root ∷ []; packed = []; builder = b }) i)
