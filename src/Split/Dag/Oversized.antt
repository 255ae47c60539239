-- ===== src/Split/Dag/Oversized.antt =====
-- A node that no box can hold.
use estuary.Prelude.{
  ℕ, zero, suc, ◌<◌, ◌^◌, ◌≡◌, refl, ◌∙◌, false, List, [], ◌∷◌, Option, some, arith, ap,
}
use estuary.Db.{ok}
use estuary.Split.Dag.{
  Node, Box, Builder, Packing, Outcome, finished, failed, out_of_fuel, Turn, done, next, stop, pack,
  pack_loop, step_from, turn, fits, new_box, new_builder, get_tree_size, empty_box,
}

module _ (dag : ℕ → Option Node) (root : ℕ) (n : Node) (size max : ℕ) (here : dag root ≡ some n)
    (sized : get_tree_size n ≡ ok size) where
  unfoldable at_root : Builder → Packing
  at_root b = record { stack = root ∷ []; packed = []; builder = b }

  turn_root :
      (b : Builder)
      → fits b size ≡ false
      → fits b n.raw_size ≡ false
      → step_from dag (root ∷ []) (at_root b) ≡ next (at_root (new_box b))
  unfolding step_from turn at_root
  turn_root b f g = rw (here, sized, f, g) refl

  too_large :
      (boxes : List Box) (k : ℕ)
      → max < k
      → k < 2 ^ 63
      → fits (record { box_max_size = max; boxes = boxes; box_used_size = 0 }) k ≡ false
  too_large boxes k h l = ground (arith, h, l)

  module _ (node : max < n.raw_size) (node_int64 : n.raw_size < 2 ^ 63) (tree : max < size)
      (tree_int64 : size < 2 ^ 63) where
    loop_stays :
        (fuel : ℕ) (boxes : List Box)
        → pack_loop dag fuel
            (at_root (record { box_max_size = max; boxes = boxes; box_used_size = 0 }))
          ≡ out_of_fuel
    unfolding pack_loop at_root
    loop_stays zero boxes = refl
    loop_stays (suc fuel) boxes =
        let b : Builder = record { box_max_size = max; boxes = boxes; box_used_size = 0 } in
        ap
          (λ (t : Turn). (elim t as (λ _. Outcome) [
            | done b ↦ finished b
            | stop e ↦ failed e
            | next s' ↦ pack_loop dag fuel s'
          ]))
          (turn_root b (too_large boxes size tree tree_int64)
            (too_large boxes n.raw_size node node_int64))
        ∙ loop_stays fuel (new_box b).boxes

    -- A root that is by itself larger than a box is never packed: `Pack` makes one empty box after the
    -- other, for any number of turns. The root can be read, and its sizes are below 2^63.
    pub pack_never_ends : (fuel : ℕ) → pack dag fuel root (new_builder max) ≡ out_of_fuel
    unfolding pack new_builder at_root
    pack_never_ends fuel = loop_stays fuel (empty_box ∷ [])
