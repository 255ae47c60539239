-- ===== src/Deal/Making/Outcome.antt =====
-- What one attempt to make a deal leaves, where no statement fails.
use estuary.Prelude.{
  ℕ, suc, ◌<◌, ◌≡◌, ◌⊎◌, inl, inr, refl, sym, subst, true, false, not, if◌then◌else◌, List, [], ◌∷◌,
  ◌++◌, All, All-append, All-imp, Option, none, some, arith, String,
}
use estuary.Db.{
  Error, Result, ok, err, World, M, failure, quiet, pure, throw, ◌>>=◌, execute, statement,
}
use estuary.Db.Table.{update, delete}
use estuary.Model.{Content, ContentDeal, ProposalRecord, Location, local_node, shuttle, Store}
use estuary.Model.Lookup.{content_of}
use estuary.Deal.Check.{record_failure, has_deal_id}
use estuary.Deal.Check.{set_channel, after_start, return_error}
use estuary.Deal.Making.Proposal.{
  StorageProvider, Sent, clean_up, start_local, start_at, create_deal,
}

-- The keys of the deals are those given out so far.
abbrev pub Fresh : ℕ → List ContentDeal → Type 0
Fresh next deals = All (λ d. d.id < next) deals

delete-Fresh :
    (next : ℕ) (d : ContentDeal) (deals : List ContentDeal)
    → d.id ≡ next
    → Fresh next deals
    → delete (has_deal_id next) (deals ++ d ∷ []) ≡ deals
delete-Fresh next d [] e h = ground (arith, e)
delete-Fresh next d (x ∷ deals) e h = ground (arith, h.0, delete-Fresh next d deals e h.1)

update-Fresh :
    (next : ℕ) (f : ContentDeal → ContentDeal) (d : ContentDeal) (deals : List ContentDeal)
    → d.id ≡ next
    → Fresh next deals
    → update (has_deal_id next) f (deals ++ d ∷ []) ≡ deals ++ f d ∷ []
update-Fresh next f d [] e h = ground (arith, e)
update-Fresh next f d (x ∷ deals) e h = ground (arith, h.0, update-Fresh next f d deals e h.1)

-- A live deal of the content with the miner.
pub record IsDeal (content : Content) (miner : ℕ) (d : ContentDeal) : Type 0 where
  pub of_content : d.content ≡ content.id
  pub with_miner : d.miner ≡ miner
  pub not_failed : d.failed ≡ false

-- The store after an attempt: the deals are as before, or there is one more and the attempt ended well.
pub record Left (content : Content) (miner : ℕ) (s : Store) (ended : Type 0) (s' : Store)
    : Type 0 where
  pub same_contents : s'.contents ≡ s.contents
  pub fresh : Fresh s'.next_deal s'.content_deals
  pub deals :
      (s'.content_deals ≡ s.content_deals)
      ⊎ (ended
          × ((d : ContentDeal) × (s'.content_deals ≡ s.content_deals ++ d ∷ [])
              × IsDeal content miner d))

-- How an attempt ends in a world where no statement fails.
abbrev pub Attempt : Content → ℕ → Store → ℕ → Result (Option ContentDeal) × World Store → Type 0
Attempt content miner s now r =
    (s' : Store) × (t : ℕ) × (r.1 ≡ quiet s' t now)
    × Left content miner s ((d : ContentDeal) × (r.0 ≡ ok (some d))) s'

Fresh-suc : (next : ℕ) (deals : List ContentDeal) → Fresh next deals → Fresh (suc next) deals
Fresh-suc next deals h = All-imp _ _ deals (λ d l. omega (arith, l)) h

-- A store whose contents, deals and keys of deals are those of another.
pub unchanged :
    (content : Content) (miner : ℕ) (s s' : Store) (ended : Type 0)
    → Fresh s'.next_deal s'.content_deals
    → s'.contents ≡ s.contents
    → s'.content_deals ≡ s.content_deals
    → Left content miner s ended s'
unchanged content miner s s' ended f c d = record { same_contents = c; fresh = f; deals = inl d }

module _ (sp : StorageProvider) (content : Content) (miner prop_cid : ℕ) (s : Store) (t now : ℕ)
    (fresh : Fresh s.next_deal s.content_deals) where
  -- The store and the deal, when the deal's row is created.
  abbrev pub created : ContentDeal × Store
  created = create_deal content miner prop_cid now s

  pub clean_up-Attempt :
      (dp : ProposalRecord) (sent : Sent) (e : Error)
      → Attempt content miner s now (clean_up created.0 dp sent e (quiet created.1 t now))
  unfolding clean_up record_failure execute statement ◌>>=◌
  clean_up-Attempt dp sent e =
      let same = delete-Fresh s.next_deal created.0 s.content_deals refl fresh in
      (
        _,
        _,
        refl,
        unchanged content miner s _ _
            (subst (Fresh (suc s.next_deal)) (sym same)
              (Fresh-suc s.next_deal s.content_deals fresh))
            refl same,
      )

  -- The row stays as it was created, or with its channel.
  pub kept_row :
      (f : ContentDeal → ContentDeal) (ended : Type 0) (s' : Store)
      → ended
      → IsDeal content miner (f created.0)
      → (f created.0).id ≡ s.next_deal
      → s'.contents ≡ s.contents
      → s'.next_deal ≡ suc s.next_deal
      → s'.content_deals ≡ s.content_deals ++ f created.0 ∷ []
      → Left content miner s ended s'
  kept_row f ended s' e d id c n p = record {
    same_contents = c;
    fresh =
        rw (n, p)
          (All-append (λ x. x.id < suc s.next_deal) s.content_deals (f created.0 ∷ [])
            (Fresh-suc s.next_deal s.content_deals fresh) (omega (arith, id), tt));
    deals = inr (e, (f created.0, p, d));
  }

  pub is_deal : IsDeal content miner created.0
  is_deal = record { of_content = refl; with_miner = refl; not_failed = refl }

  module _ (cont : Content) (here : content_of content.id s ≡ some cont)
      (parses : sp.address_parses ≡ true)
      (starts : (l : Location) → sp.start_at_shuttle l ≡ none) where
    -- A step, and the deal as the answer.
    abbrev pub Answers : M Store (Unit {0}) → Type 0
    Answers m =
        Attempt content miner s now ((m >>= λ _. pure (some created.0)) (quiet created.1 t now))

    started : Answers (pure tt)
    unfolding ◌>>=◌
    started = (_, _, refl, kept_row (λ d. d) _ _ (created.0, refl) is_deal refl refl refl refl)

    not_started : Answers (record_failure "start-data-transfer")
    unfolding ◌>>=◌ record_failure execute statement
    not_started = (_, _, refl, kept_row (λ d. d) _ _ (created.0, refl) is_deal refl refl refl refl)

    with_channel : (chan : String) → Answers (set_channel created.0.id chan)
    unfolding ◌>>=◌ set_channel execute statement
    with_channel chan = (
      _,
      _,
      refl,
      kept_row (λ x. record x { dt_chan = some chan }) _ _ (created.0, refl)
          (record { of_content = refl; with_miner = refl; not_failed = refl }) refl refl refl
          (update-Fresh s.next_deal (λ x. record x { dt_chan = some chan }) created.0
            s.content_deals refl fresh),
    )

    after_start-Attempt : (r : Result String) → Answers (after_start created.0 r)
    after_start-Attempt (err e) = not_started
    after_start-Attempt (ok chan) = with_channel chan

    pub start_at-Attempt : (l : Location) → Answers (start_at sp created.0 l)
    unfolding start_at start_local
    start_at-Attempt (shuttle h) =
        subst (λ o. Answers (return_error o)) (sym (starts (shuttle h))) started
    start_at-Attempt local_node =
        subst
          (λ b. Answers (
            if not b
            then throw (failure "miner address")
            else after_start created.0 sp.start_transfer))
          (sym parses) (after_start-Attempt sp.start_transfer)
