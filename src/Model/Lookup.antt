-- ===== src/Model/Lookup.antt =====
-- `db.First(&cont, "id = ?", id)`: the content with a key, as every handler fetches it.
use estuary.Prelude.{
  ℕ, suc, ◌≡◌, refl, ap, ◌∙◌, ◌==◌, Bool, Bool-cases, inl, inr, List, [], ◌∷◌, Option, none, some,
  arith,
}
use estuary.Db.{Result, db_error, World, M, ok, ◌>>=◌, query, or_not_found, quiet}
use estuary.Db.Table.{first, update}
use estuary.Db.Run.{bind_ok, bind_err, query-quiet, query_failed}
use estuary.Db.Keeps.{Keeps, >>=-Keeps, query-Keeps}
use estuary.Model.{Content, Store}

abbrev pub has_id : ℕ → Content → Bool
has_id id c = c.id == id

abbrev pub content_of : ℕ → Store → Option Content
content_of id s = first (has_id id) s.contents

unfoldable pub get_content : ℕ → M Store Content
get_content id = query (content_of id) >>= or_not_found

pub get_content-quiet :
    (id : ℕ) (c : Content) (s : Store) (t now : ℕ)
    → content_of id s ≡ some c
    → get_content id (quiet s t now) ≡ (ok c, quiet s (suc t) now)
unfolding get_content
get_content-quiet id c s t now h =
    bind_ok (query (content_of id)) or_not_found (quiet s t now) (content_of id s)
      (quiet s (suc t) now) (query-quiet (content_of id) (quiet s t now) refl)
    ∙ ap (λ o. or_not_found o (quiet s (suc t) now)) h

pub first_id :
    (id : ℕ) (cs : List Content) (c : Content) → first (has_id id) cs ≡ some c → c.id ≡ id
first_id id (x ∷ cs) c h = elim (Bool-cases (has_id id x)) [
  | inl e ↦ ground (arith, e, h)
  | inr e ↦ first_id id cs c (ground (arith, e, h))
]
first_id id [] c h = absurd (ground (arith, h))

-- The first row with a key, after an UPDATE of the rows with it that keeps the key.
pub first-update :
    (id : ℕ) (f : Content → Content) (cs : List Content) (c : Content)
    → ((x : Content) → (f x).id ≡ x.id)
    → first (has_id id) cs ≡ some c
    → first (has_id id) (update (has_id id) f cs) ≡ some (f c)
first-update id f (x ∷ cs) c k h = elim (Bool-cases (has_id id x)) [
  | inl e ↦ ground (arith, e, h, k x)
  | inr e ↦ rw (e, e) (first-update id f cs c k (ground (arith, e, h)))
]
first-update id f [] c k h = absurd (ground (arith, h))

or_not_found-Keeps : (P : Store → Type 0) (o : Option Content) → Keeps P (or_not_found o)
or_not_found-Keeps P none w h = h
or_not_found-Keeps P (some c) w h = h

pub get_content-Keeps : (P : Store → Type 0) (id : ℕ) → Keeps P (get_content id)
unfolding get_content
get_content-Keeps P id =
    >>=-Keeps P (query (content_of id)) or_not_found (query-Keeps P (content_of id))
      (or_not_found-Keeps P)

-- A fetch that ends well gives the row, and leaves the store.
pub get_content_same :
    (id : ℕ) (c d : Content) (w : World Store)
    → content_of id w.store ≡ some c
    → (get_content id w).0 ≡ ok d
    → (d ≡ c) × ((get_content id w).1.store ≡ w.store)
unfolding get_content
get_content_same id c d w h e = elim (Bool-cases (w.fails w.tick)) [
  | inl f ↦
      let q =
        bind_err (query (content_of id)) or_not_found w db_error (record w { tick = suc w.tick })
          (query_failed (content_of id) w f) in
      absurd (ground (arith, e, ap (λ (r : Result Content × World Store). r.0) q))
  | inr f ↦
      let q =
        bind_ok (query (content_of id)) or_not_found w (content_of id w.store)
          (record w { tick = suc w.tick }) (query-quiet (content_of id) w f)
        ∙ ap (λ o. or_not_found o (record w { tick = suc w.tick })) h in
      (
        ground (arith, e, ap (λ (r : Result Content × World Store). r.0) q),
        ap (λ (r : Result Content × World Store). r.1.store) q,
      )
]
