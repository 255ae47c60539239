-- ===== src/Staging/Consolidation/Destination.antt =====
-- Where a zone's contents are gathered.
use estuary.Prelude.{
  ℕ, ◌≡◌, refl, sym, ap, subst, ◌∙◌, ◌&&◌, List, [], ◌∷◌, Bool, true, Bool-cases, inl, inr, arith,
  Option, none, some, keep, Any, Any-imp, Any-append_left, not, ◌++◌, ◌==◌, false,
}
use estuary.Prelude.Int.{ℤ, pos, ◌<ℤ◌}
use estuary.Db.{Result, ok, err, World, query}
use estuary.Db.Atomic.{query-ReadOnly}
use estuary.Db.Gives.{ended, query_same}
use estuary.Model.{Content, Location, shuttle, same_location, Store}
use estuary.Staging.Consolidation.{
  Choice, no_choice, weigh_all, in_zone, gather, gather_at, get_contents_and_destination,
  contents_to_move,
}
use estuary.Staging.Consolidation.Weighing.{
  size_at, IsDestination, Sound, zero_first, add_zero, weigh_all-Sound, same_location_lem,
}

-- Some content is where there is data.
size_at-Any :
    (l : Location) (cs : List Content)
    → pos 0 <ℤ size_at l cs
    → Any (λ c. same_location c.location l ≡ true) cs
size_at-Any l [] h = absurd (ground (arith, h))
size_at-Any l (c ∷ cs) h = elim (Bool-cases (same_location c.location l)) [
  | inl e ↦ inl e
  | inr e ↦ inr (size_at-Any l cs (subst (λ n. pos 0 <ℤ n) (zero_first_lem l c cs e) h))
]
  where
    zero_first_lem :
        (l : Location) (c : Content) (cs : List Content)
        → same_location c.location l ≡ false
        → size_at l (c ∷ cs) ≡ size_at l cs
    zero_first_lem l c cs e = rw e (sym (zero_first (size_at l cs)) ∙ add_zero (size_at l cs))

-- The contents of a zone, the destination among their locations, what has to move there, and the size
-- that is there.
pub record Destined (can_add : ℕ → Result Bool) (zone : List Content) (dst : Location)
    (to_move : List Content) (size : ℤ) : Type 0 where
  handle : ℕ
  at_shuttle : dst ≡ shuttle handle
  allowed : can_add handle ≡ ok true
  positive : pos 0 <ℤ size
  before : List Content
  after : List Content
  first_part : zone ≡ before ++ after
  data_there : size ≡ size_at dst before
  content_there : Any (λ c. c.location ≡ dst) zone
  others : to_move ≡ keep (λ c. not (same_location c.location dst)) zone

gather_at_chosen :
    (zone_cont : ℕ) (n : ℤ) (found : Option Location) (w : World Store) (dst : Location)
    (to_move : List Content) (cur_max : ℤ)
    → (gather_at zone_cont n found w).0 ≡ ok (dst, (to_move, cur_max))
    → (found ≡ some dst) × ((n ≡ cur_max) × (contents_to_move zone_cont dst w.store ≡ to_move))
unfolding gather_at
gather_at_chosen zone_cont n none w dst to_move cur_max e = absurd (ground (arith, e))
gather_at_chosen zone_cont n (some l) w dst to_move cur_max e =
    let q =
      query_same (λ s. (l, (contents_to_move zone_cont l s, n))) w (dst, (to_move, cur_max)) e in
    let there : l ≡ dst = ap (λ x. x.0) q in
    (
      ap some there,
      (
        ap (λ x. x.1.1) q,
        subst (λ d. contents_to_move zone_cont d w.store ≡ to_move) there (ap (λ x. x.1.0) q),
      ),
    )

gather_chosen :
    (zone_cont : ℕ) (r : Result Choice) (w : World Store) (dst : Location) (to_move : List Content)
    (cur_max : ℤ)
    → (gather zone_cont r w).0 ≡ ok (dst, (to_move, cur_max))
    → (choice : Choice) × ((r ≡ ok choice)
        × ((choice.dst_location ≡ some dst)
            × ((choice.cur_max ≡ cur_max) × (contents_to_move zone_cont dst w.store ≡ to_move))))
unfolding gather
gather_chosen zone_cont (err d) w dst to_move cur_max e = absurd (ground (arith, e))
gather_chosen zone_cont (ok choice) w dst to_move cur_max e = (
  choice,
  (refl, gather_at_chosen zone_cont choice.cur_max choice.dst_location w dst to_move cur_max e),
)

module _ (can_add : ℕ → Result Bool) where
  chosen-Destined :
      (zone : List Content) (choice : Choice) (dst : Location) (to_move : List Content) (size : ℤ)
      → IsDestination can_add zone choice
      → choice.dst_location ≡ some dst
      → choice.cur_max ≡ size
      → keep (λ c. not (same_location c.location dst)) zone ≡ to_move
      → Destined can_add zone dst to_move size
  chosen-Destined zone choice dst to_move size (inl n) d s m = absurd (ground (arith, n, d))
  chosen-Destined zone choice dst to_move size (inr (h, (d', (a, (p, (before, (after, (q, n))))))))
        d s m =
      let at : shuttle h ≡ dst = ground (arith, d, d') in
      let there : size ≡ size_at dst before = sym s ∙ n ∙ ap (λ l. size_at l before) at in
      record {
        handle = h;
        at_shuttle = sym at;
        allowed = a;
        positive = subst (λ n. pos 0 <ℤ n) s p;
        before = before;
        after = after;
        first_part = q;
        data_there = there;
        content_there = subst (Any (λ c. c.location ≡ dst)) (sym q) (
            Any-append_left (λ c. c.location ≡ dst) before after
              (Any-imp (λ c. same_location c.location dst ≡ true) (λ c. c.location ≡ dst) before
                (λ c e. same_location_lem c.location dst e)
                (size_at-Any dst before
                  (subst (λ n. pos 0 <ℤ n) there (subst (λ n. pos 0 <ℤ n) s p)))));
        others = sym m;
      }

  empty-Sound : Sound can_add [] no_choice
  empty-Sound = record { sizes = λ l. refl; chosen = inl refl; nonneg = omega arith }

  -- Whichever statements fail: when gathering a zone's contents finds a destination, it is a shuttle and
  -- never the primary node, the shuttle manager lets it take contents, some content of the zone is there
  -- already, the size is positive and is the data that the first ones of the zone's contents have there,
  -- and the contents to move are the zone's others. The zone's contents are its active ones.
  pub gathers_at_shuttle :
      (zone_cont : ℕ) (w : World Store) (dst : Location) (to_move : List Content) (cur_max : ℤ)
      → (get_contents_and_destination can_add zone_cont w).0 ≡ ok (dst, (to_move, cur_max))
      → Destined can_add
          (keep (λ c. c.active && c.aggregated_in == zone_cont) w.store.contents)
          dst
          to_move
          cur_max
  unfolding get_contents_and_destination
  gathers_at_shuttle zone_cont w dst to_move cur_max e =
      let zone = λ (s : Store). keep (in_zone zone_cont) s.contents in
      let (contents, asked, e1) =
        ended (query zone) (λ cs. gather zone_cont (weigh_all can_add cs no_choice)) w
          (dst, (to_move, cur_max)) e in
      let (choice, (p, (there, (size, moved)))) =
        gather_chosen zone_cont (weigh_all can_add contents no_choice) (query zone w).1 dst to_move
          cur_max e1 in
      let same : contents ≡ zone w.store = sym (query_same zone w contents asked) in
      chosen-Destined (zone w.store) choice dst to_move cur_max
        (subst (λ l. IsDestination can_add l choice) same
          (weigh_all-Sound can_add contents [] no_choice choice empty-Sound p).chosen)
        there size
        (subst (λ s. contents_to_move zone_cont dst s ≡ to_move) (query-ReadOnly zone w) moved)
