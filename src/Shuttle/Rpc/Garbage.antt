-- ===== src/Shuttle/Rpc/Garbage.antt =====
-- The contents that a shuttle is told to unpin.
use estuary.Prelude.{
  ℕ, ◌≡◌, refl, subst, ==_iff, ◌∙◌, ap, arith, ◌==◌, Bool, true, false, Bool-cases, inl, inr, ◌||◌,
  ◌&&◌, not, List, [], ◌∷◌, ◌++◌, elem, Option, none, some,
}
use estuary.Db.{World, ok, pure, query}
use estuary.Db.Gives.{ended, query_same}
use estuary.Db.Atomic.{query-ReadOnly}
use estuary.Model.{Content, Store, shuttle, same_location}
use estuary.Model.Lookup.{content_of}
use estuary.Shuttle.Rpc.{garbage_of, collect_garbage, handle_garbage_check, unpin_contents}

-- A content that a shuttle should not keep: it is unknown, stored elsewhere, or offloaded.
abbrev pub unwanted : ℕ → Option Content → Bool
unwanted handle none = true
unwanted handle (some c) = not (same_location c.location (shuttle handle)) || c.offloaded

elem-++ : (a : ℕ) (xs ys : List ℕ) → elem a (xs ++ ys) ≡ (elem a xs || elem a ys)
elem-++ a [] ys = refl
elem-++ a (x ∷ xs) ys = ground (arith, elem-++ a xs ys)

elem-garbage_of :
    (handle id a : ℕ) (o : Option Content)
    → elem a (garbage_of handle id o) ≡ ((id == a) && unwanted handle o)
elem-garbage_of handle id a none = ground arith
elem-garbage_of handle id a (some c) = ground arith

distribute : (p q u : Bool) → ((p && u) || (q && u)) ≡ ((p || q) && u)
distribute p q true = ground arith
distribute p q false = ground arith

-- The list has the contents of `ids` that are unwanted, and no other.
abbrev pub Listed : ℕ → Store → List ℕ → List ℕ → Type 0
Listed handle s ids out =
    (id : ℕ) → elem id out ≡ (elem id ids && unwanted handle (content_of id s))

elem-at :
    (handle : ℕ) (s : Store) (x a : ℕ)
    → elem a (garbage_of handle x (content_of x s)) ≡ ((x == a) && unwanted handle (content_of a s))
elem-at handle s x a = elem-garbage_of handle x a (content_of x s) ∙ (elim (Bool-cases (x == a)) [
  | inl e ↦ ap (λ y. (x == a) && unwanted handle (content_of y s)) ((==_iff x a).0 e)
  | inr e ↦ rw e refl
])

Listed-∷ :
    (handle : ℕ) (s : Store) (x : ℕ) (ids out : List ℕ)
    → Listed handle s ids out
    → Listed handle s (x ∷ ids) (garbage_of handle x (content_of x s) ++ out)
Listed-∷ handle s x ids out h a =
    elem-++ a (garbage_of handle x (content_of x s)) out
    ∙ ap (λ b. b || elem a out) (elem-at handle s x a)
    ∙ ap (λ b. ((x == a) && unwanted handle (content_of a s)) || b) (h a)
    ∙ distribute (x == a) (elem a ids) (unwanted handle (content_of a s))

answer_same : (out ids : List ℕ) (w : World Store) → (pure ids w).0 ≡ ok out → ids ≡ out
answer_same out ids w h = ground (arith, h)

add_garbage-Listed :
    (handle : ℕ) (x : ℕ) (ids rest out : List ℕ) (c : Option Content) (s : Store) (w : World Store)
    → content_of x s ≡ c
    → Listed handle s ids rest
    → (pure (garbage_of handle x c ++ rest) w).0 ≡ ok out
    → Listed handle s (x ∷ ids) out
add_garbage-Listed handle x ids rest out c s w p h e =
    subst (Listed handle s (x ∷ ids)) (answer_same out (garbage_of handle x c ++ rest) w e) (
      subst (λ o. Listed handle s (x ∷ ids) (garbage_of handle x o ++ rest)) p
        (Listed-∷ handle s x ids rest h))

pub collect_garbage-Listed :
    (handle : ℕ) (ids : List ℕ) (w : World Store) (out : List ℕ)
    → (collect_garbage handle ids w).0 ≡ ok out
    → Listed handle w.store ids out
unfolding collect_garbage
collect_garbage-Listed handle [] w out h =
    λ id. subst (λ l. elem id l ≡ false) (answer_same out [] w h) refl
collect_garbage-Listed handle (x ∷ ids) w out h =
    let q = query (content_of x) in
    let (c, p, e) = ended q _ w out h in
    let (rest, p', e') = ended (collect_garbage handle ids) _ (q w).1 out e in
    add_garbage-Listed handle x ids rest out c w.store (collect_garbage handle ids (q w).1).1
      (query_same (content_of x) w c p)
      (subst (λ s. Listed handle s ids rest) (query-ReadOnly (content_of x) w)
        (collect_garbage-Listed handle ids (q w).1 rest p'))
      e'

-- When the garbage check of a shuttle ends well, the contents that the shuttle is told to unpin are
-- those contents of its list that are unknown, stored elsewhere or offloaded, and no others.
pub handle_garbage_check-Listed :
    (handle : ℕ) (ids : List ℕ) (w : World Store) (out : List ℕ)
    → (handle_garbage_check handle ids w).0 ≡ ok (unpin_contents out)
    → Listed handle w.store ids out
unfolding handle_garbage_check
handle_garbage_check-Listed handle ids w out h =
    let (l, p, e) = ended (collect_garbage handle ids) _ w (unpin_contents out) h in
    collect_garbage-Listed handle ids w out
      (subst (λ k. (collect_garbage handle ids w).0 ≡ ok k) (ground (arith, e)) p)
