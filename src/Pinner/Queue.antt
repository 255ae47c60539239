-- ===== src/Pinner/Queue.antt =====
-- What the pin manager uses of goque's `PrefixQueue` and of msgpack, neither of which is under this
-- repository: a durable queue for each prefix, the user's number, of encoded operations.
-- `items q u` is what stands in the queue of `u`, oldest first.
use estuary.Prelude.{ℕ, ◌≡◌, ◌==◌, if◌then◌else◌, List, [], ◌∷◌, ◌++◌, Option, some}
use estuary.Pinner.Operation.{PinningOperation}

-- The outcomes of `Dequeue`: an item, `goque.ErrOutOfBounds`, or any other error.
pub data Dequeued (B : Type 0) : Type 0 where
  item : B → Dequeued B
  out_of_bounds : Dequeued B
  read_error : Dequeued B

pub record PinQueue : Type 1 where
  pub Queue : Type 0
  pub Bytes : Type 0
  pub encode : PinningOperation → Option Bytes
  pub decode : Bytes → Option PinningOperation
  pub size : Queue → ℕ
  pub items : Queue → ℕ → List Bytes
  pub enqueue : Queue → ℕ → Bytes → Option Queue
  pub dequeue : Queue → ℕ → Dequeued Bytes × Queue
  pub decode-encode : (po : PinningOperation) (b : Bytes) → encode po ≡ some b → decode b ≡ some po
  pub items-enqueue :
      (q q' : Queue) (u : ℕ) (b : Bytes) (v : ℕ)
      → enqueue q u b ≡ some q'
      → items q' v ≡ (if u == v then items q v ++ b ∷ [] else items q v)
  pub items-dequeue :
      (q : Queue) (u : ℕ) (b : Bytes) (v : ℕ)
      → (dequeue q u).0 ≡ item b
      → items q v ≡ (if u == v then b ∷ items (dequeue q u).1 v else items (dequeue q u).1 v)
  pub dequeue_out_of_bounds : (q : Queue) (u : ℕ) → (dequeue q u).0 ≡ out_of_bounds → items q u ≡ []
  pub size_zero : (q : Queue) (u : ℕ) → size q ≡ 0 → items q u ≡ []
