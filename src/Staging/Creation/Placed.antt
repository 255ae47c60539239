-- ===== src/Staging/Creation/Placed.antt =====
-- Where a new content is to be placed, and what that writes.
use estuary.Prelude.{
  ℕ, suc, ◌≡◌, ◌≢◌, refl, sym, subst, ap, ◌∙◌, ◌==◌, ◌&&◌, Bool, true, false, Bool-cases, inl, inr,
  ◌⊎◌, not, if◌then◌else◌, List, [], ◌∷◌, ◌++◌, All, All-imp, map, keep, arith,
}
use estuary.Prelude.Int.{ℤ, ◌+ℤ◌, ◌≤ℤ◌, ltb_ℤ}
use estuary.Db.Rows.{update-map, delete-keep}
use estuary.Model.{Content, StagingZone, ZoneStatus, opened, Store, Config}
use estuary.Staging.Creation.{has_room, open_zones, assign, claimable}
use estuary.Staging.Creation.Claim.{joined, founded, staged}
use mathlib.Core.List.{reverse, reverse-cons}

abbrev is_opened : ZoneStatus → Bool
is_opened opened = true
is_opened _ = false

-- An open zone of the content's user that `n` more fit into.
abbrev pub HasSpace : Config → Content → ℤ → StagingZone → Type 0
HasSpace cfg cont n z =
    (z.user_id ≡ cont.user_id) × ((z.status ≡ opened) × (z.size +ℤ n ≤ℤ cfg.max_size))

-- The zone `z` takes the content: the content is assigned to the zone's content, which grows with the
-- zone, and leaves the queue.
pub record Takes (cfg : Config) (cont : Content) (n : ℤ) (z : StagingZone) (s s' : Store)
    : Type 0 where
  pub contents :
      s'.contents
      ≡ map
          (λ c. if c.id == z.cont_id then record c { size = c.size +ℤ n } else c)
          (map
            (λ c. if c.id == cont.id then record c { aggregated_in = z.cont_id } else c)
            s.contents)
  pub zones :
      s'.staging_zones
      ≡ map
          (λ x.
            if x.id == z.id && ltb_ℤ x.size cfg.max_size && is_opened x.status
            then record x { size = x.size +ℤ n }
            else x)
          s.staging_zones
  pub queue : s'.staging_zone_queue ≡ keep (λ r. not (r.cont_id == cont.id)) s.staging_zone_queue
  pub others : s' ≡ record s {
    contents = s'.contents;
    staging_zones = s'.staging_zones;
    staging_zone_queue = s'.staging_zone_queue;
  }

-- The rows of a zone of its own, and of the zone's content.
abbrev aggregate_row : Config → Content → ℤ → ℕ → ℕ → Content
aggregate_row cfg cont n now id = record {
  id = id;
  created_at = now;
  cid = 0;
  name = "aggregate";
  user_id = cont.user_id;
  size = n;
  active = false;
  offloaded = false;
  replication = cfg.replication;
  aggregated_in = 0;
  aggregate = true;
  pinning = false;
  failed = false;
  location = cont.location;
  dag_split = false;
  split_from = 0;
}

abbrev zone_row : Config → Content → ℤ → ℕ → ℕ → StagingZone
zone_row cfg cont n zone_cont id = record {
  id = id;
  created_at = cont.created_at;
  min_size = cfg.min_size;
  max_size = cfg.max_size;
  size = n;
  user_id = cont.user_id;
  cont_id = zone_cont;
  location = cont.location;
  status = opened;
  message = opened;
  attempted = 0;
  next_attempt_at = 0;
}

-- The content of the new zone: a new aggregate that the content is assigned to, or the one that it is
-- already assigned to.
abbrev NewContent : Config → Content → ℤ → ℕ → Store → Store → ℕ → Type 0
NewContent cfg cont n now s s' zone_cont =
    ((cont.aggregated_in ≡ 0)
      × ((zone_cont ≡ s.next_content)
          × ((s'.next_content ≡ suc s.next_content)
              × (s'.contents
                  ≡ map (λ c. if c.id == cont.id then record c { aggregated_in = zone_cont } else c)
                      (s.contents ++ aggregate_row cfg cont n now s.next_content ∷ [])))))
    ⊎ ((cont.aggregated_in ≢ 0)
        × ((zone_cont ≡ cont.aggregated_in)
            × ((s'.next_content ≡ s.next_content) × (s'.contents ≡ s.contents))))

-- A new zone for the content, which leaves the queue.
pub record Founds (cfg : Config) (cont : Content) (n : ℤ) (now : ℕ) (s s' : Store) : Type 0 where
  pub zone_cont : ℕ
  pub contents : NewContent cfg cont n now s s' zone_cont
  pub zones : s'.staging_zones ≡ s.staging_zones ++ zone_row cfg cont n zone_cont s.next_zone ∷ []
  pub next : s'.next_zone ≡ suc s.next_zone
  pub queue : s'.staging_zone_queue ≡ keep (λ r. not (r.cont_id == cont.id)) s.staging_zone_queue
  pub others : s' ≡ record s {
    contents = s'.contents;
    next_content = s'.next_content;
    staging_zones = s'.staging_zones;
    next_zone = s'.next_zone;
    staging_zone_queue = s'.staging_zone_queue;
  }

-- The most recent zone with space takes the content, or there is no such zone and it gets one.
abbrev pub Placed : Config → Content → ℤ → ℕ → Store → Store → Type 0
Placed cfg cont n now s s' =
    ((z : StagingZone) × ((before : List StagingZone) × ((after : List StagingZone)
          × ((s.staging_zones ≡ before ++ z ∷ after)
              × (HasSpace cfg cont n z
                  × (All (λ y. ¬ HasSpace cfg cont n y) after × Takes cfg cont n z s s'))))))
    ⊎ (All (λ y. ¬ HasSpace cfg cont n y) s.staging_zones × Founds cfg cont n now s s')

joined-Takes :
    (cfg : Config) (cont : Content) (n : ℤ) (z : StagingZone) (s : Store)
    → Takes cfg cont n z s (joined cfg cont n z s)
joined-Takes cfg cont n z s = record {
  contents =
      update-map (λ c. c.id == z.cont_id) _ (assign cont.id z.cont_id s).contents
      ∙ ap (map (λ c. if c.id == z.cont_id then record c { size = c.size +ℤ n } else c))
          (update-map (λ c. c.id == cont.id) _ s.contents);
  zones = update-map (claimable cfg z.id) _ s.staging_zones;
  queue = delete-keep (λ r. r.cont_id == cont.id) s.staging_zone_queue;
  others = refl;
}

founded-Founds :
    (cfg : Config) (cont : Content) (n : ℤ) (now : ℕ) (s : Store)
    → Founds cfg cont n now s (founded cfg cont n now s)
founded-Founds cfg cont n now s = elim (Bool-cases (cont.aggregated_in == 0)) [
  | inl e ↦ rw e (record {
    zone_cont = s.next_content;
    contents = inl (
      ground (arith, e),
      (refl, (refl, update-map (λ c. c.id == cont.id) _ (s.contents ++ _ ∷ []))),
    );
    zones = refl;
    next = refl;
    queue = delete-keep (λ r. r.cont_id == cont.id) s.staging_zone_queue;
    others = refl;
  })
  | inr e ↦ rw e (record {
    zone_cont = cont.aggregated_in;
    contents = inr ((λ p. ground (arith, e, p)), (refl, (refl, refl)));
    zones = refl;
    next = refl;
    queue = delete-keep (λ r. r.cont_id == cont.id) s.staging_zone_queue;
    others = refl;
  })
]

-- The first of the elements that pass a test, from the end.
module _ {A : Type 0} (p : A → Bool) where
  Last : List A → List A → Type 0
  Last xs found =
      (All (λ x. p x ≡ false) xs × (found ≡ []))
      ⊎ ((z : A) × ((before : List A) × ((after : List A) × ((rest : List A) × ((xs
                    ≡ before ++ z ∷ after)
                  × ((p z ≡ true) × (All (λ x. p x ≡ false) after × (found ≡ z ∷ rest))))))))

  skipped : (x : A) (xs : List A) → p x ≡ false → keep p (x ∷ xs) ≡ keep p xs
  skipped x xs e = rw e refl

  kept : (x : A) (xs : List A) → p x ≡ true → keep p (x ∷ xs) ≡ x ∷ keep p xs
  kept x xs e = rw e refl

  skipped-Last : (x : A) (xs found : List A) → p x ≡ false → Last xs found → Last (x ∷ xs) found
  unfolding Last
  skipped-Last x xs found e (inl (h, q)) = inl ((e, h), q)
  skipped-Last x xs found e (inr (z, (before, (after, (rest, (q, k)))))) =
      inr (z, (x ∷ before, (after, (rest, (ap (λ l. x ∷ l) q, k)))))

  kept-Last :
      (x : A) (xs found : List A) → p x ≡ true → Last xs found → Last (x ∷ xs) (found ++ x ∷ [])
  unfolding Last
  kept-Last x xs found e (inl (h, q)) = inr (x, ([], (xs, ([], (refl, (e, (h, rw q refl)))))))
  kept-Last x xs found e (inr (z, (before, (after, (rest, (q, (a, (b, f)))))))) =
      inr (z, (x ∷ before, (after, (rest ++ x ∷ [], (ap (λ l. x ∷ l) q, (a, (b, rw f refl)))))))

  reverse-Last : (xs : List A) → Last xs (reverse (keep p xs))
  unfolding Last
  reverse-Last [] = inl (tt, refl)
  reverse-Last (x ∷ xs) = elim (Bool-cases (p x)) [
    | inr e ↦
        subst (λ l. Last (x ∷ xs) (reverse l)) (sym (skipped x xs e))
          (skipped-Last x xs (reverse (keep p xs)) e (reverse-Last xs))
    | inl e ↦
        subst (Last (x ∷ xs)) (sym (ap reverse (kept x xs e) ∙ reverse-cons x (keep p xs)))
          (kept-Last x xs (reverse (keep p xs)) e (reverse-Last xs))
  ]

has_space :
    (cfg : Config) (cont : Content) (n : ℤ) (z : StagingZone)
    → has_room cfg cont n z ≡ true
    → HasSpace cfg cont n z
has_space cfg cont n z h = ground (arith, h)

no_space :
    (cfg : Config) (cont : Content) (n : ℤ) (z : StagingZone)
    → has_room cfg cont n z ≡ false
    → ¬ HasSpace cfg cont n z
no_space cfg cont n z h (u, (o, k)) = ground (arith, h, u, o, k)

pub staged-Placed :
    (cfg : Config) (cont : Content) (n : ℤ) (now : ℕ) (s : Store)
    → Placed cfg cont n now s (staged cfg cont n now s (open_zones cfg cont n s))
unfolding Last
staged-Placed cfg cont n now s =
    let none_in = All-imp (λ z. has_room cfg cont n z ≡ false) (λ z. ¬ HasSpace cfg cont n z) in
    elim (reverse-Last (has_room cfg cont n) s.staging_zones) [
      | inl (h, q) ↦
          rw q
            (inr (none_in s.staging_zones (no_space cfg cont n) h, founded-Founds cfg cont n now s))
      | inr (z, (before, (after, (rest, (q, (a, (b, f))))))) ↦ rw f (
          inl (
            z,
            (
              before,
              (
                after,
                (
                  q,
                  (
                    has_space cfg cont n z a,
                    (none_in after (no_space cfg cont n) b, joined-Takes cfg cont n z s),
                  ),
                ),
              ),
            ),
          ))
    ]
