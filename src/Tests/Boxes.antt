-- ===== src/Tests/Boxes.antt =====
-- Packing a DAG of three nodes: 1 has the leaves 2 and 3, of sizes 30 and 40, and is itself 5 long.
use estuary.Prelude.{
  ℕ, List, if◌then◌else◌, ◌==◌, ◌≡◌, ◌≤◌, refl, [], ◌∷◌, Option, none, some, true, arith, All, elem,
}
use estuary.Db.{ok}
use estuary.Split.Dag.{
  Node, Builder, raw_node, proto_node, t_file, new_builder, pack, pack_loop, step_from, turn,
  finished, out_of_fuel,
}
use estuary.Split.Dag.Terminates.{Returns, pack-Returns}
use estuary.Split.Dag.Fits.{weight, pack-Fits}
use estuary.Split.Dag.Covers.{Placed, pack-Covers}
use estuary.Split.Dag.Oversized.{pack_never_ends}

abbrev leaf : ℕ → ℕ → Node
leaf size cid = record { node_type = raw_node; raw_size = size; links = []; raw_cid = ok cid }

abbrev parent : Node
parent = record {
  node_type = proto_node (some t_file) (ok 75);
  raw_size = 5;
  links = 2 ∷ 3 ∷ [];
  raw_cid = ok 11;
}

abbrev dag : ℕ → Option Node
dag c =
    if c == 1
    then some parent
    else if c == 2
    then some (leaf 30 12)
    else if c == 3
    then some (leaf 40 13)
    else none

abbrev two_boxes : Builder
two_boxes = record {
  box_max_size = 50;
  boxes =
      record { roots = 3 ∷ []; external = 11 ∷ [] } ∷ record { roots = 2 ∷ []; external = [] } ∷ [];
  box_used_size = 30;
}

packs : pack dag 20 1 (new_builder 50) ≡ finished two_boxes
unfolding pack pack_loop step_from turn new_builder
packs = refl

-- The length that the CID of a raw block tells.
abbrev raw_len : ℕ → ℕ
raw_len c = if c == 11 then 5 else if c == 12 then 30 else if c == 13 then 40 else 0

pack-Returns_example : Returns (pack dag 20 1 (new_builder 50))
unfolding new_builder
pack-Returns_example =
    pack-Returns dag (1 ∷ 2 ∷ 3 ∷ []) 50 (((refl, (refl, tt))), (tt, (tt, tt)))
      (omega arith, (omega arith, (omega arith, tt))) (omega arith) 20 1 (new_builder 50)
      (omega arith) refl refl

pack-Fits_example : All (λ x. weight dag raw_len x ≤ 50) two_boxes.boxes
pack-Fits_example =
    pack-Fits dag raw_len 50 (omega arith) (λ c. ground arith)
      (λ c ncid n d e. ground (arith, d, e)) 20 1 two_boxes packs

pack-Covers_example :
    (P : List ℕ) × (elem 1 P ≡ true) × All (Placed dag (λ l. elem l P ≡ true) two_boxes.boxes) P
pack-Covers_example = pack-Covers dag 1 20 50 two_boxes packs

-- With boxes of 4, the parent alone is too large.
pack_never_ends_example : pack dag 9 1 (new_builder 4) ≡ out_of_fuel
pack_never_ends_example =
    pack_never_ends dag 1 parent 75 4 refl refl (omega arith) (omega arith) (omega arith)
      (omega arith) 9
