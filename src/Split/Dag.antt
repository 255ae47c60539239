-- ===== src/Split/Dag.antt =====
-- util/dagsplit/dagsplitter.go: packing a DAG into boxes of a bounded size. The DAG service, the sizes
-- that a node declares and its CID as a raw block are parameters. A `uint64` is a number, with its
-- wrap-around and its conversion to `int64` written out.
pub mod Turns
pub mod Terminates
pub mod Fits
pub mod Boxes
pub mod Covers
pub mod Oversized
use estuary.Prelude.{
  ℕ, zero, suc, ◌+◌, ◌-◌, ◌%◌, ◌^◌, ltb, Bool, if◌then◌else◌, List, [], ◌∷◌, ◌++◌, Option, none,
  some, elem,
}
use estuary.Prelude.Int.{ℤ, pos, ◌-ℤ◌, leb_ℤ}
use estuary.Db.{Error, Result, ok, err, record_not_found, failure}

pub data FsType : Type 0 where
  t_file t_raw t_directory t_hamt_shard t_metadata t_symlink t_other : FsType

-- The Go types of a node. A protobuf node has the type in its data, if that can be read, and `n.Size()`.
pub data NodeType : Type 0 where
  raw_node : NodeType
  proto_node : Option FsType → Result ℕ → NodeType
  other_node : NodeType

pub record Node : Type 0 where
  pub node_type : NodeType
  pub raw_size : ℕ  -- len(nd.RawData())
  pub links : List ℕ
  pub raw_cid : Result ℕ  -- pref.Sum(nd.RawData())

pub record Box : Type 0 where
  pub roots : List ℕ
  pub external : List ℕ

-- The last box is the one that is being packed.
pub record Builder : Type 0 where
  pub box_max_size : ℕ
  pub boxes : List Box
  pub box_used_size : ℕ

abbrev pub empty_box : Box
empty_box = record { roots = []; external = [] }

abbrev pub new_box : Builder → Builder
new_box b = record b { boxes = b.boxes ++ empty_box ∷ []; box_used_size = 0 }

unfoldable pub new_builder : ℕ → Builder
new_builder chunk_size =
    new_box (record { box_max_size = chunk_size; boxes = []; box_used_size = 0 })

abbrev pub get_tree_size : Node → Result ℕ
get_tree_size n = elim n.node_type [
  | raw_node ↦ ok n.raw_size
  | proto_node none size ↦ err (failure "loading unixfs node")
  | proto_node (some t_file) size ↦ size
  | proto_node (some t_raw) size ↦ size
  | proto_node (some t_directory) size ↦ size
  | proto_node (some t_hamt_shard) size ↦ size
  | proto_node (some t_metadata) size ↦ err (failure "metadata object support todo")
  | proto_node (some t_symlink) size ↦ err (failure "symlink object support todo")
  | proto_node (some t_other) size ↦ err (failure "unrecognized type")
  | other_node ↦ err (failure "unknown node type")
]

-- int64(n) of a uint64.
abbrev pub to_int64 : ℕ → ℤ
to_int64 n = if ltb n (2 ^ 63) then pos n else pos n -ℤ pos (2 ^ 64)

abbrev pub box_remaining_size : Builder → ℤ
box_remaining_size b = to_int64 b.box_max_size -ℤ to_int64 b.box_used_size

abbrev pub fits : Builder → ℕ → Bool
fits b size = leb_ℤ (to_int64 size) (box_remaining_size b)

abbrev pub add_size : ℕ → Builder → Builder
add_size size b = record b { box_used_size = (b.box_used_size + size) % 2 ^ 64 }

-- `b.box()` is the last box.
abbrev pub on_last : (Box → Box) → List Box → List Box
on_last f [] = []
on_last f (x ∷ []) = f x ∷ []
on_last f (x ∷ y ∷ boxes) = x ∷ on_last f (y ∷ boxes)

abbrev pub pack_root : ℕ → Builder → Builder
pack_root c b = record b { boxes = on_last (λ x. record x { roots = x.roots ++ c ∷ [] }) b.boxes }

abbrev pub add_external_link : ℕ → Builder → Builder
add_external_link c b = record b {
  boxes = on_last (λ x. record x { external = x.external ++ c ∷ [] }) b.boxes;
}

-- The loop's variables. The top of the stack is the head of the list.
pub record Packing : Type 0 where
  pub stack : List ℕ
  pub packed : List ℕ
  pub builder : Builder

pub data Outcome : Type 0 where
  finished : Builder → Outcome
  failed : Error → Outcome
  out_of_fuel : Outcome

pub data Turn : Type 0 where
  done : Builder → Turn
  next : Packing → Turn
  stop : Error → Turn

-- `for _, l := range nd.Links() { stack = append(stack, l.Cid) }`
abbrev pub push_links : List ℕ → List ℕ → List ℕ
push_links [] stack = stack
push_links (l ∷ links) stack = push_links links (l ∷ stack)

-- The whole tree goes into the box.
abbrev pub pack_tree : ℕ → ℕ → List ℕ → Packing → Packing
pack_tree cur size rest s = record {
  stack = rest;
  packed = cur ∷ s.packed;
  builder = add_size size (pack_root cur s.builder);
}

-- The node alone goes into the box, as a raw block.
abbrev pub pack_node : ℕ → Node → ℕ → List ℕ → Packing → Packing
pack_node cur n ncid rest s = record {
  stack = push_links n.links rest;
  packed = cur ∷ s.packed;
  builder = add_size n.raw_size (add_external_link ncid s.builder);
}

abbrev pub turn_raw : ℕ → Node → Result ℕ → List ℕ → Packing → Turn
turn_raw cur n (err e) rest s = stop e
turn_raw cur n (ok ncid) rest s = next (pack_node cur n ncid rest s)

abbrev pub turn_sized : ℕ → Node → Result ℕ → List ℕ → Packing → Turn
turn_sized cur n (err e) rest s = stop e
turn_sized cur n (ok size) rest s =
    if fits s.builder size
    then next (pack_tree cur size rest s)
    else if fits s.builder n.raw_size
    then turn_raw cur n n.raw_cid rest s
    else next (record s { stack = cur ∷ rest; builder = new_box s.builder })

abbrev pub turn_found : ℕ → Option Node → List ℕ → Packing → Turn
turn_found cur none rest s = stop record_not_found
turn_found cur (some n) rest s = turn_sized cur n (get_tree_size n) rest s

module _ (dag : ℕ → Option Node) where
  -- The loop's body, with `cur` taken off the stack.
  unfoldable pub turn : ℕ → List ℕ → Packing → Turn
  turn cur rest s =
      if elem cur s.packed
      then next (record s { stack = rest })
      else turn_found cur (dag cur) rest s

  -- `for len(stack) > 0`
  unfoldable pub step_from : List ℕ → Packing → Turn
  step_from [] s = done s.builder
  step_from (cur ∷ rest) s = turn cur rest s

  unfoldable pub pack_loop : ℕ → Packing → Outcome
  pack_loop zero s = out_of_fuel
  pack_loop (suc fuel) s = elim (step_from s.stack s) [
    | done b ↦ finished b
    | stop e ↦ failed e
    | next s' ↦ pack_loop fuel s'
  ]

  -- `Pack`: the loop, with the root alone on the stack.
  unfoldable pub pack : ℕ → ℕ → Builder → Outcome
  pack fuel root b = pack_loop fuel (record { stack = root ∷ []; packed = []; builder = b })
