-- ===== src/Staging/Creation/Bounds.antt =====
-- Staging keeps the zones within their bound.
use estuary.Prelude.{
  ℕ, suc, ◌<◌, ◌≡◌, ◌≢◌, sym, subst, ◌==◌, List, [], ◌∷◌, ◌++◌, Bool, true, Bool-cases, inl, inr,
  arith, All, All-append, Any, Any-imp, refl, ap, ◌∙◌, ◌⊎◌, keep,
}
use estuary.Prelude.Int.{ℤ, pos, ◌<ℤ◌, ◌≤ℤ◌, ◌+ℤ◌}
use estuary.Db.{Result, World, ok, err, db_error, quiet, transaction}
use estuary.Db.Atomic.{transaction-Atomic}
use estuary.Db.Agree.{transaction-Agrees}
use estuary.Db.Table.{update, members, All-reverse, count_pos, update-Any}
use estuary.Model.{Content, StagingZone, Store, Config}
use estuary.Staging.Creation.{
  claimable, claim_zone, stage_new_content, open_zones, has_room, is_open, new_zone,
}
use estuary.Staging.Creation.Claim.{staged, founded, joined, claim_quiet}
use estuary.Staging.Creation.Outcome.{stage_new_content-staged, claim_zone-Agrees}

-- An open zone holds at most MaxSize.
abbrev Bounded : Config → StagingZone → Type 0
Bounded cfg z = is_open z.status ≡ true → z.size ≤ℤ cfg.max_size

abbrev Distinct : List StagingZone → Type 0
Distinct [] = Unit
Distinct (z ∷ zs) = All (λ y. y.id ≢ z.id) zs × Distinct zs

-- The zones have different ids, which the next one is above, and the open ones are within the bound.
pub record WellFormed (cfg : Config) (s : Store) : Type 0 where
  pub fresh : All (λ z. z.id < s.next_zone) s.staging_zones
  pub distinct : Distinct s.staging_zones
  pub bounded : All (Bounded cfg) s.staging_zones

abbrev enlarge : ℤ → StagingZone → StagingZone
enlarge n z = record z { size = z.size +ℤ n }

module _ (p : StagingZone → Bool) (n : ℤ) where
  update_ids :
      (P : ℕ → Type 0) (zs : List StagingZone)
      → All (λ z. P z.id) zs
      → All (λ z. P z.id) (update p (enlarge n) zs)
  update_ids P [] h = tt
  update_ids P (z ∷ zs) h = elim (Bool-cases (p z)) [
    | inl e ↦ rw e (h.0, update_ids P zs h.1)
    | inr e ↦ rw e (h.0, update_ids P zs h.1)
  ]

  update-Distinct : (zs : List StagingZone) → Distinct zs → Distinct (update p (enlarge n) zs)
  update-Distinct [] h = tt
  update-Distinct (z ∷ zs) h = elim (Bool-cases (p z)) [
    | inl e ↦ rw e (update_ids (λ i. i ≢ z.id) zs h.0, update-Distinct zs h.1)
    | inr e ↦ rw e (update_ids (λ i. i ≢ z.id) zs h.0, update-Distinct zs h.1)
  ]

claimable_id : (cfg : Config) (id : ℕ) (z : StagingZone) → claimable cfg id z ≡ true → z.id ≡ id
claimable_id cfg id z h = ground arith

-- The other rows of a table with different ids are left alone.
others-Bounded :
    (cfg : Config) (n : ℤ) (id : ℕ) (zs : List StagingZone)
    → All (λ y. y.id ≢ id) zs
    → All (Bounded cfg) zs
    → All (Bounded cfg) (update (claimable cfg id) (enlarge n) zs)
others-Bounded cfg n id [] h b = tt
others-Bounded cfg n id (z ∷ zs) h b = elim (Bool-cases (claimable cfg id z)) [
  | inl e ↦ absurd (h.0 (claimable_id cfg id z e))
  | inr e ↦ rw e (b.0, others-Bounded cfg n id zs h.1 b.1)
]

apart :
    (x z : StagingZone) (zs : List StagingZone)
    → All (λ y. y.id ≢ x.id) zs
    → Any (λ y. y ≡ z) zs
    → x.id ≢ z.id
apart x z (y ∷ zs) h (inl e) p = h.0 (rw e (sym p))
apart x z (y ∷ zs) h (inr a) p = apart x z zs h.1 a p
apart x z [] h a p = absurd a

grow-Bounded :
    (cfg : Config) (n : ℤ) (z : StagingZone) (zs : List StagingZone)
    → z.size +ℤ n ≤ℤ cfg.max_size
    → Any (λ y. y ≡ z) zs
    → Distinct zs
    → All (Bounded cfg) zs
    → All (Bounded cfg) (update (claimable cfg z.id) (enlarge n) zs)
grow-Bounded cfg n z (x ∷ zs) room (inl e) d b =
    let rest =
      others-Bounded cfg n z.id zs (subst (λ (y : StagingZone). All (λ u. u.id ≢ y.id) zs) e d.0)
        b.1 in
    elim (Bool-cases (claimable cfg z.id x)) [
      | inl c ↦
          rw c ((λ _. subst (λ (y : StagingZone). y.size +ℤ n ≤ℤ cfg.max_size) (sym e) room), rest)
      | inr c ↦ rw c (b.0, rest)
    ]
grow-Bounded cfg n z (x ∷ zs) room (inr a) d b = elim (Bool-cases (claimable cfg z.id x)) [
  | inl c ↦ absurd (apart x z zs d.0 a (claimable_id cfg z.id x c))
  | inr c ↦ rw c (b.0, grow-Bounded cfg n z zs room a d.1 b.1)
]
grow-Bounded cfg n z [] room a d b = absurd a

-- A content that joins a zone of the store with room for it.
joined-WellFormed :
    (cfg : Config) (cont : Content) (n : ℤ) (z : StagingZone) (s : Store)
    → z.size +ℤ n ≤ℤ cfg.max_size
    → Any (λ y. y ≡ z) s.staging_zones
    → WellFormed cfg s
    → WellFormed cfg (joined cfg cont n z s)
joined-WellFormed cfg cont n z s room a f = record {
  fresh = update_ids (claimable cfg z.id) n (λ i. i < s.next_zone) s.staging_zones f.fresh;
  distinct = update-Distinct (claimable cfg z.id) n s.staging_zones f.distinct;
  bounded = grow-Bounded cfg n z s.staging_zones room a f.distinct f.bounded;
}

below : (m : ℕ) (zs : List StagingZone) → All (λ z. z.id < m) zs → All (λ z. z.id < suc m) zs
below m [] h = tt
below m (z ∷ zs) h = (omega (arith, h.0), below m zs h.1)

add-Distinct :
    (new : StagingZone) (zs : List StagingZone)
    → All (λ z. z.id < new.id) zs
    → Distinct zs
    → Distinct (zs ++ new ∷ [])
add-Distinct new [] h d = (tt, tt)
add-Distinct new (z ∷ zs) h d = (
  All-append (λ y. y.id ≢ z.id) zs (new ∷ []) d.0 ((λ p. absurd (omega (arith, h.0, p))), tt),
  add-Distinct new zs h.1 d.1,
)

added :
    (cfg : Config) (new : StagingZone) (zs : List StagingZone)
    → new.size ≤ℤ cfg.max_size
    → All (λ z. z.id < new.id) zs
    → Distinct zs
    → All (Bounded cfg) zs
    → All (λ z. z.id < suc new.id) (zs ++ new ∷ [])
      × (Distinct (zs ++ new ∷ []) × All (Bounded cfg) (zs ++ new ∷ []))
added cfg new zs small h d b = (
  All-append (λ z. z.id < suc new.id) zs (new ∷ []) (below new.id zs h) (omega arith, tt),
  (add-Distinct new zs h d, All-append (Bounded cfg) zs (new ∷ []) b ((λ _. small), tt)),
)

founded-WellFormed :
    (cfg : Config) (cont : Content) (n : ℤ) (now : ℕ) (s : Store)
    → n ≤ℤ cfg.max_size
    → WellFormed cfg s
    → WellFormed cfg (founded cfg cont n now s)
founded-WellFormed cfg cont n now s small f = elim (Bool-cases (cont.aggregated_in == 0)) [
  | inl e ↦
      let a =
        added cfg (new_zone cfg cont n s.next_content s.next_zone) s.staging_zones small f.fresh
          f.distinct f.bounded in
      rw e (record { fresh = a.0; distinct = a.1.0; bounded = a.1.1 })
  | inr e ↦
      let a =
        added cfg (new_zone cfg cont n cont.aggregated_in s.next_zone) s.staging_zones small f.fresh
          f.distinct f.bounded in
      rw e (record { fresh = a.0; distinct = a.1.0; bounded = a.1.1 })
]

has_room_fits :
    (cfg : Config) (cont : Content) (n : ℤ) (z : StagingZone)
    → has_room cfg cont n z ≡ true
    → z.size +ℤ n ≤ℤ cfg.max_size
has_room_fits cfg cont n z h = ground arith

staged-WellFormed :
    (cfg : Config) (cont : Content) (n : ℤ) (now : ℕ) (s : Store) (zones : List StagingZone)
    → n ≤ℤ cfg.max_size
    → All (λ z. (has_room cfg cont n z ≡ true) × Any (λ y. y ≡ z) s.staging_zones) zones
    → WellFormed cfg s
    → WellFormed cfg (staged cfg cont n now s zones)
staged-WellFormed cfg cont n now s [] small h f = founded-WellFormed cfg cont n now s small f
staged-WellFormed cfg cont n now s (z ∷ zones) small h f =
    joined-WellFormed cfg cont n z s (has_room_fits cfg cont n z h.0.0) h.0.1 f

-- Whichever statements fail, staging a new content of a positive size up to MaxSize keeps the zones
-- well-formed: their ids stay different and below the next one, and no open zone passes MaxSize.
pub stage_new_content-WellFormed :
    (cfg : Config) (cont : Content) (n : ℤ) (w : World Store)
    → pos 0 <ℤ n
    → n ≤ℤ cfg.max_size
    → WellFormed cfg w.store
    → WellFormed cfg (stage_new_content cfg cont n w).1.store
stage_new_content-WellFormed cfg cont n w positive small f =
    elim (stage_new_content-staged cfg cont n w positive) [
      | inl h ↦ subst (WellFormed cfg) (sym h.1) f
      | inr h ↦ subst (WellFormed cfg) (sym h.1) (
          staged-WellFormed cfg cont n w.now w.store (open_zones cfg cont n w.store) small
            (All-reverse _ (keep (has_room cfg cont n) w.store.staging_zones)
              (members (has_room cfg cont n) w.store.staging_zones))
            f)
    ]

claimable_now :
    (cfg : Config) (listed current : StagingZone)
    → current.id ≡ listed.id
    → is_open current.status ≡ true
    → current.size <ℤ cfg.max_size
    → claimable cfg listed.id current ≡ true
claimable_now cfg listed current same is small = ground (arith, same, is, small)

-- The write that claims an open zone asks for a size below MaxSize, not for room: when others filled the
-- zone since the query that listed it, up to a size still below MaxSize, then whichever statements fail,
-- the claim either ends in a database error and changes nothing, or succeeds, and the zone has that size
-- and the content's, beyond MaxSize whenever the sum is.
pub claim_after_others :
    (cfg : Config) (cont : Content) (n : ℤ) (listed current : StagingZone) (w : World Store)
    → Any (λ z. z ≡ current) w.store.staging_zones
    → current.id ≡ listed.id
    → is_open listed.status ≡ true
    → is_open current.status ≡ true
    → current.size <ℤ cfg.max_size
    → let r = transaction (claim_zone cfg cont n listed) w in
      ((r.0 ≡ err db_error) × (r.1.store ≡ w.store))
      ⊎ ((r.0 ≡ ok tt)
          × Any (λ z. z ≡ record current { size = current.size +ℤ n }) r.1.store.staging_zones)
claim_after_others cfg cont n listed current w there same is is_too small =
    let hits = claimable_now cfg listed current same is_too small in
    let hit = count_pos (claimable cfg listed.id) w.store.staging_zones (
      Any-imp (λ z. z ≡ current) (λ z. claimable cfg listed.id z ≡ true) w.store.staging_zones
        (λ z e. rw e hits) there) in
    let q = claim_quiet cfg cont n listed w.store w.tick w.now is (ground (arith, hit)) in
    let grown =
      update-Any (λ z. z ≡ current) (λ z. z ≡ record current { size = current.size +ℤ n })
        (claimable cfg listed.id) (enlarge n) w.store.staging_zones
        (λ z e. (rw e hits, ap (enlarge n) e)) there in
    elim (transaction-Agrees (claim_zone cfg cont n listed) (claim_zone-Agrees cfg cont n listed) w
      (quiet w.store w.tick w.now)
      (record { same_store = refl; same_now = refl; no_failure = λ _. refl })) [
        | inl e ↦ inl (e, transaction-Atomic (claim_zone cfg cont n listed) w db_error e)
        | inr (e, k) ↦ inr (
          e ∙ ap (λ (r : Result (Unit {0}) × World Store). r.0) q,
          subst
              (λ (s : Store).
                Any (λ z. z ≡ record current { size = current.size +ℤ n }) s.staging_zones)
              (sym (k.same_store ∙ ap (λ (r : Result (Unit {0}) × World Store). r.1.store) q))
              grown,
        )
      ]
