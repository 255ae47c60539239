-- ===== src/Pinner/Tests/Memory.antt =====
-- The pin queue in memory: one list of user and operation, oldest first.
use estuary.Prelude.{
  ℕ, ◌≡◌, refl, ◌==◌, if◌then◌else◌, List, [], ◌∷◌, ◌++◌, Option, some, arith, inl, inr, Bool-cases,
  length,
}
use estuary.Pinner.Operation.{PinningOperation}
use estuary.Pinner.Queue.{PinQueue, Dequeued, item, out_of_bounds, read_error}

abbrev pub Entries : Type 0
Entries = List (ℕ × PinningOperation)

unfoldable pub items : Entries → ℕ → List PinningOperation
items [] u = []
items ((v, po) ∷ es) u = let rest = items es u in if v == u then po ∷ rest else rest

unfoldable pub enqueue : Entries → ℕ → PinningOperation → Entries
enqueue [] u po = (u, po) ∷ []
enqueue (e ∷ es) u po = e ∷ enqueue es u po

unfoldable pub dequeue : Entries → ℕ → Dequeued PinningOperation × Entries
dequeue [] u = (out_of_bounds, [])
dequeue ((v, po) ∷ es) u =
    let rest = dequeue es u in if v == u then (item po, es) else (rest.0, (v, po) ∷ rest.1)

items-enqueue :
    (es : Entries) (u : ℕ) (b : PinningOperation) (v : ℕ)
    → items (enqueue es u b) v ≡ (if u == v then items es v ++ b ∷ [] else items es v)
unfolding items enqueue
items-enqueue [] u b v = refl
items-enqueue ((w, po) ∷ es) u b v = ground (arith, items-enqueue es u b v)

pub items-dequeue :
    (es : Entries) (u : ℕ) (b : PinningOperation) (v : ℕ)
    → (dequeue es u).0 ≡ item b
    → items es v ≡ (if u == v then b ∷ items (dequeue es u).1 v else items (dequeue es u).1 v)
unfolding items dequeue
items-dequeue [] u b v e = absurd (ground arith)
items-dequeue ((w, po) ∷ es) u b v e = elim (Bool-cases (w == u)) [
  | inl h ↦ ground arith
  | inr h ↦ ground (arith, items-dequeue es u b v)
]

pub dequeue_out_of_bounds :
    (es : Entries) (u : ℕ) → (dequeue es u).0 ≡ out_of_bounds → items es u ≡ []
unfolding items dequeue
dequeue_out_of_bounds [] u e = refl
dequeue_out_of_bounds ((w, po) ∷ es) u e = ground (arith, dequeue_out_of_bounds es u)

pub dequeue_readable : (es : Entries) (u : ℕ) → (dequeue es u).0 ≡ read_error → ⊥
unfolding dequeue
dequeue_readable [] u e = ground arith
dequeue_readable ((w, po) ∷ es) u e = ground (arith, dequeue_readable es u)

pub size_zero : (es : Entries) (u : ℕ) → length es ≡ 0 → items es u ≡ []
unfolding items
size_zero [] u e = refl
size_zero ((w, po) ∷ es) u e = absurd (omega arith)

pub decode-encode :
    (po b : PinningOperation)
    → some po ≡ some b
    → ◌≡◌ {A = Option PinningOperation} (some b) (some po)
decode-encode po b e = ground arith

pub items-enqueue_some :
    (es es' : Entries) (u : ℕ) (b : PinningOperation) (v : ℕ)
    → some (enqueue es u b) ≡ some es'
    → items es' v ≡ (if u == v then items es v ++ b ∷ [] else items es v)
items-enqueue_some es es' u b v e = ground (arith, items-enqueue es u b v)

abbrev pub memory : PinQueue
memory = record {
  Queue = Entries;
  Bytes = PinningOperation;
  encode = some;
  decode = some;
  size = length;
  items = items;
  enqueue = λ es u b. some (enqueue es u b);
  dequeue = dequeue;
  decode-encode = decode-encode;
  items-enqueue = items-enqueue_some;
  items-dequeue = items-dequeue;
  dequeue_out_of_bounds = dequeue_out_of_bounds;
  size_zero = size_zero;
}
