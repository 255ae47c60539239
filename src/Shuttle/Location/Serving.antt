-- ===== src/Shuttle/Location/Serving.antt =====
-- The shuttle that new contents are sent to.
use estuary.Prelude.{
  ℕ, ◌≡◌, inl, inr, refl, sym, subst, ap, ◌∙◌, Bool, true, false, Bool-cases, ◌&&◌, ◌||◌, not,
  if◌then◌else◌, List, [], ◌∷◌, All, All-imp, Any, Any-imp, Option, none, some, keep, map, elem,
  arith, ◌==◌, sort_stable, sort_stable-All,
}
use estuary.Db.{ok, World, M, pure, ◌>>=◌, query, statement}
use estuary.Db.Atomic.{Result-cases}
use estuary.Db.Gives.{ended, query_same}
use estuary.Db.Table.{members}
use estuary.Model.{ShuttleConnection, Shuttle, Location, local_node, shuttle, Store}
use estuary.Shuttle.Location.{
  connection, is_recent, is_online, is_active, active_shuttles, open_shuttles, online_shuttles,
  less_full, preferred, or_first, choose_location, storage_among, storage_with,
  get_location_for_storage, primary_staging_location, low_space, all_shuttles_low_space,
}

-- A world in which the same rows are read at the same time.
abbrev Same : World Store → World Store → Type 0
Same v w = (v.store ≡ w.store) × (v.now ≡ w.now)

query-Same : {A : Type 0} (f : Store → A) (w : World Store) → Same (query f w).1 w
unfolding query statement
query-Same f w = elim (Bool-cases (w.fails w.tick)) [
  | inl e ↦ rw e (refl, refl)
  | inr e ↦ rw e (refl, refl)
]

-- An answer that is computed from another ends in the same world.
answered :
    {A B : Type 0} (m : M Store A) (f : A → B) (w : World Store)
    → ((m >>= λ a. pure (f a)) w).1 ≡ (m w).1
unfolding ◌>>=◌
answered m f w = elim (Result-cases (m w).0) [
  | inl (a, p) ↦ rw (p, ◌>>=◌) refl
  | inr (e, p) ↦ rw (p, ◌>>=◌) refl
]

is_online-Same : (h : ℕ) (w : World Store) → Same (is_online h w).1 w
unfolding is_online ◌>>=◌
is_online-Same h w =
    subst (λ v. Same v w) (sym (answered (query (connection h)) (is_recent w.now) w))
      (query-Same (connection h) w)

is_online_lem :
    (h : ℕ) (w : World Store) (b : Bool)
    → (is_online h w).0 ≡ ok b
    → is_recent w.now (connection h w.store) ≡ b
unfolding is_online ◌>>=◌ query statement
is_online_lem h w b e = elim (Bool-cases (w.fails w.tick)) [
  | inl f ↦ absurd (ground (arith, e, f))
  | inr f ↦ ground (arith, e, f)
]

-- What the world shows of a shuttle that was found online.
abbrev Recent : World Store → ℕ → Type 0
Recent w h = is_recent w.now (connection h w.store) ≡ true

Recent-Same : (v w : World Store) (h : ℕ) → Same v w → Recent v h → Recent w h
Recent-Same v w h s r =
    subst (λ t. is_recent t (connection h w.store) ≡ true) s.1
      (subst (λ x. is_recent v.now (connection h x) ≡ true) s.0 r)

online_shuttles-All :
    (P : Shuttle → Type 0) (xs out : List Shuttle) (w : World Store)
    → All P xs
    → (online_shuttles xs w).0 ≡ ok out
    → All (λ x. P x × Recent w x.handle) out
unfolding online_shuttles
online_shuttles-All P [] out w h e =
    let q : [] ≡ out = ground (arith, e) in subst (All (λ x. P x × Recent w x.handle)) q tt
online_shuttles-All P (x ∷ xs) out w h e =
    let (b, p, q) =
      ended (is_online x.handle)
        (λ online. online_shuttles xs >>= λ rest. pure (if online then x ∷ rest else rest)) w out
        e in
    let (rest, r, z) =
      ended (online_shuttles xs) (λ rest. pure (if b then x ∷ rest else rest))
        (is_online x.handle w).1 out q in
    let v = (is_online x.handle w).1 in
    let more : All (λ y. P y × Recent w y.handle) rest =
      All-imp (λ y. P y × Recent v y.handle) (λ y. P y × Recent w y.handle) rest
        (λ y k. (k.0, Recent-Same v w y.handle (is_online-Same x.handle w) k.1))
        (online_shuttles-All P xs rest v h.1 r) in
    elim (Bool-cases b) [
      | inl t ↦
          let same : x ∷ rest ≡ out = ground (arith, z, t) in
          subst (All (λ y. P y × Recent w y.handle)) same
            ((h.0, is_online_lem x.handle w b p ∙ t), more)
      | inr f ↦
          let same : rest ≡ out = ground (arith, z, f) in
          subst (All (λ y. P y × Recent w y.handle)) same more
    ]

-- A connection that is neither private nor closed to new contents.
abbrev pub Accepts : ShuttleConnection → Type 0
Accepts c = (c.is_private ≡ false) × (c.content_adding_disabled ≡ false)

active-Accepts : (c : ShuttleConnection) → is_active c ≡ true → Accepts c
active-Accepts c h = (ground (arith, h), ground (arith, h))

-- What makes a shuttle one to send contents to: an open shuttle, with a connection that is not private
-- and not closed to new contents, and that was updated in the last five minutes.
pub record Serves (w : World Store) (h : ℕ) : Type 0 where
  is_connected :
      Any (λ (c : ShuttleConnection). (c.handle ≡ h) × Accepts c) w.store.shuttle_connections
  is_registered : Any (λ (x : Shuttle). (x.handle ≡ h) × (x.is_open ≡ true)) w.store.shuttles
  is_recent : Recent w h

connected :
    (h : ℕ) (cs : List ShuttleConnection)
    → elem h (active_shuttles cs) ≡ true
    → Any (λ (c : ShuttleConnection). (c.handle ≡ h) × Accepts c) cs
connected h [] e = absurd (ground (arith, e))
connected h (c ∷ cs) e = elim (Bool-cases (is_active c)) [
  | inr f ↦ inr (connected h cs (ground (arith, e, f)))
  | inl t ↦ elim (Bool-cases (c.handle == h)) [
    | inl s ↦ inl (ground (arith, s), active-Accepts c t)
    | inr d ↦ inr (connected h cs (ground (arith, e, t, d)))
  ]
]

-- What the query for open shuttles tells of each.
abbrev Found : List ℕ → Store → Shuttle → Type 0
Found handles s x =
    (elem x.handle handles ≡ true)
    × Any (λ (y : Shuttle). (y.handle ≡ x.handle) × (y.is_open ≡ true)) s.shuttles

open_shuttles-Found :
    (handles : List ℕ) (s : Store) → All (Found handles s) (open_shuttles handles s)
open_shuttles-Found handles s =
    let test = λ (x : Shuttle). elem x.handle handles && x.is_open in
    sort_stable-All (Found handles s) _ (keep test s.shuttles) (
      All-imp (λ x. (test x ≡ true) × Any (λ y. y ≡ x) s.shuttles) (Found handles s)
        (keep test s.shuttles)
        (λ x k. (
          ground (arith, k.0),
          Any-imp (λ y. y ≡ x) (λ y. (y.handle ≡ x.handle) × (y.is_open ≡ true)) s.shuttles
              (λ y q. (
                ap (λ (z : Shuttle). z.handle) q,
                ap (λ (z : Shuttle). z.is_open) q ∙ ground (arith, k.0),
              ))
              k.1,
        ))
        (members test s.shuttles))

-- An element of a list by its handle.
by_handle :
    (P : ℕ → Type 0) (h : ℕ) (xs : List Shuttle)
    → All (λ x. P x.handle) xs
    → elem h (map (λ x. x.handle) xs) ≡ true
    → P h
by_handle P h [] k e = absurd (ground (arith, e))
by_handle P h (x ∷ xs) k e = elim (Bool-cases (x.handle == h)) [
  | inl s ↦ let q : x.handle ≡ h = ground (arith, s) in subst P q k.0
  | inr d ↦ by_handle P h xs k.1 (ground (arith, e, d))
]

-- The answers: a shuttle with a property, or the primary node if that is allowed.
abbrev pub Answers : Bool → (ℕ → Type 0) → Location → Type 0
Answers disabled P local_node = disabled ≡ false
Answers disabled P (shuttle h) = P h

flag_set :
    (cs : List ShuttleConnection)
    → All (λ c. is_active c ≡ true) cs
    → all_shuttles_low_space cs ≡ true
flag_set [] h = refl
flag_set (c ∷ cs) h = rw h.0 (flag_set cs h.1)

preferred-Answers :
    (P : ℕ → Type 0) (disabled : Bool) (cs : List ShuttleConnection) (x : Shuttle)
    (xs : List Shuttle)
    → All (λ x. P x.handle) (x ∷ xs)
    → (o : Option Location) → Answers disabled P (or_first (preferred cs (x ∷ xs) o) x)
preferred-Answers P disabled cs x xs k none = k.0
preferred-Answers P disabled cs x xs k (some local_node) = k.0
preferred-Answers P disabled cs x xs k (some (shuttle h)) =
    let room = all_shuttles_low_space cs || not (low_space cs h) in
    elim (Bool-cases (elem h (map (λ y. y.handle) (x ∷ xs)))) [
      | inl e ↦ elim (Bool-cases room) [
        | inl r ↦ rw (r, e) (by_handle P h (x ∷ xs) k e)
        | inr r ↦ rw r k.0
      ]
      | inr e ↦ elim (Bool-cases room) [ inl r ↦ rw (r, e) k.0 | inr r ↦ rw r k.0 ]
    ]

choose_location-Answers :
    (P : ℕ → Type 0) (disabled : Bool) (user : ℕ) (cs : List ShuttleConnection) (xs : List Shuttle)
    (w : World Store) (l : Location)
    → All (λ x. P x.handle) xs
    → (choose_location disabled user cs xs w).0 ≡ ok l
    → Answers disabled P l
unfolding choose_location
choose_location-Answers P disabled user cs [] w l k e = elim (Bool-cases disabled) [
  | inl d ↦ absurd (ground (arith, e, d))
  | inr d ↦ let q : local_node ≡ l = ground (arith, e, d) in subst (Answers disabled P) q d
]
choose_location-Answers P disabled user cs (x ∷ xs) w l k e =
    let (ploc, p, q) =
      ended (primary_staging_location user) (λ ploc. pure (or_first (preferred cs (x ∷ xs) ploc) x))
        w l e in
    let s : or_first (preferred cs (x ∷ xs) ploc) x ≡ l = ground (arith, q) in
    subst (Answers disabled P) s (preferred-Answers P disabled cs x xs k ploc)

-- Where new contents are sent to, when a location is found, whichever statements fail: a shuttle that
-- serves, which is registered and open, has a connection that is neither private nor closed to new
-- contents, and was heard of in the last five minutes; or the primary node, if adding to it is not
-- disabled.
pub get_location_for_storage-Answers :
    (disabled : Bool) (user : ℕ) (w : World Store) (l : Location)
    → (get_location_for_storage disabled user w).0 ≡ ok l
    → Answers disabled (Serves w) l
unfolding get_location_for_storage storage_with storage_among
get_location_for_storage-Answers disabled user w l e =
    let connections = λ (s : Store). s.shuttle_connections in
    let (cs, p, q) = ended (query connections) (storage_with disabled user) w l e in
    let v = (query connections w).1 in
    let opens = open_shuttles (active_shuttles cs) in
    let (db_shuttles, r, z) = ended (query opens) (storage_among disabled user cs) v l q in
    let u = (query opens v).1 in
    let (online, a, b) =
      ended (online_shuttles db_shuttles)
        (λ xs. choose_location disabled user cs (sort_stable (less_full cs) xs)) u l z in
    let handles = active_shuttles cs in
    let vw = query-Same connections w in
    let uv = query-Same opens v in
    let uw : Same u w = (uv.0 ∙ vw.0, uv.1 ∙ vw.1) in
    let found : All (Found handles w.store) db_shuttles =
      subst (λ s. All (Found handles s) db_shuttles) vw.0
        (subst (All (Found handles v.store)) (query_same opens v db_shuttles r)
          (open_shuttles-Found handles v.store)) in
    let serving : All (λ x. Serves w x.handle) online =
      All-imp (λ x. Found handles w.store x × Recent u x.handle) (λ x. Serves w x.handle) online
        (λ x k. record {
          is_connected =
              subst (Any (λ c. (c.handle ≡ x.handle) × Accepts c))
                (sym (query_same connections w cs p)) (connected x.handle cs k.0.0);
          is_registered = k.0.1;
          is_recent = Recent-Same u w x.handle uw k.1;
        })
        (online_shuttles-All (Found handles w.store) db_shuttles online u found a) in
    choose_location-Answers (Serves w) disabled user cs (sort_stable (less_full cs) online)
      (online_shuttles db_shuttles u).1 l
      (sort_stable-All (λ x. Serves w x.handle) (less_full cs) online serving) b

-- The loop's flag for shuttles that are all low on space is true whenever every connection is active,
-- however much space they have. A preferred shuttle of the list is then
-- preferred to every other, however low on space it is.
pub full_shuttle_preferred :
    (cs : List ShuttleConnection) (xs : List Shuttle) (h : ℕ)
    → All (λ c. is_active c ≡ true) cs
    → elem h (map (λ x. x.handle) xs) ≡ true
    → (all_shuttles_low_space cs ≡ true) × (preferred cs xs (some (shuttle h)) ≡ some h)
full_shuttle_preferred cs xs h k e = let f = flag_set cs k in (f, rw (f, e) refl)
