-- ===== src/Deal/Making/Rounds.antt =====
-- The rounds of `makeDealsForContent`, where no statement fails.
use estuary.Prelude.{
  ℕ, zero, suc, ◌+◌, ◌≤◌, ◌≡◌, inl, inr, refl, sym, subst, ◌∙◌, ap, true, false, Bool-cases, List,
  [], ◌∷◌, ◌++◌, All, All-append, All-imp, none, some, arith, elem, length, length-append,
}
use estuary.Db.{Error, Result, ok, err, World, M, quiet, ◌>>=◌, execute, statement}
use estuary.Db.Atomic.{Result-cases}
use estuary.Db.Table.{first}
use estuary.Db.Run.{bind_ok}
use estuary.Model.{Content, ContentDeal, Location, Store, Config}
use estuary.Model.Lookup.{content_of, has_id}
use estuary.Deal.Queue.{made_one_deal}
use estuary.Deal.Making.{DealMaker, unless_failed, count_deal, deal_round, deal_rounds}
use estuary.Deal.Making.Proposal.{make_deal_with_miner}
use estuary.Deal.Making.Miners.{live_miners, distinct, distinct_snoc, elem_none, live_miners_snoc}
use estuary.Deal.Making.Outcome.{Fresh, IsDeal}
use estuary.Deal.Making.Attempt.{make_deal_with_miner-Attempt}

module _ (content : Content) where
  -- What the rounds keep: live deals of the content with different miners, all of them excluded, and
  -- at most `n` of them.
  pub record Spread (cont : Content) (n : ℕ) (ex : List ℕ) (s : Store) : Type 0 where
    pub here : content_of content.id s ≡ some cont
    pub fresh : Fresh s.next_deal s.content_deals
    pub excluded : All (λ m. elem m ex ≡ true) (live_miners content.id s.content_deals)
    pub different : distinct (live_miners content.id s.content_deals) ≡ true
    pub few : length (live_miners content.id s.content_deals) ≤ n

  more_excluded :
      (m : ℕ) (ex xs : List ℕ)
      → All (λ x. elem x ex ≡ true) xs
      → All (λ x. elem x (m ∷ ex) ≡ true) xs
  more_excluded m ex xs h = All-imp _ _ xs (λ x e. ground (arith, e)) h

  module _ (cont : Content) (n miner : ℕ) (ex : List ℕ) (s s' : Store) (h : Spread cont n ex s)
      (contents : s'.contents ≡ s.contents) (fresh' : Fresh s'.next_deal s'.content_deals) where
    same_deals : s'.content_deals ≡ s.content_deals → Spread cont n ex s'
    same_deals e = record {
      here = subst (λ c. first (has_id content.id) c ≡ some cont) (sym contents) h.here;
      fresh = fresh';
      excluded =
          subst (λ d. All (λ m. elem m ex ≡ true) (live_miners content.id d)) (sym e) h.excluded;
      different = rw e h.different;
      few = rw e h.few;
    }

    one_more :
        (d : ContentDeal)
        → IsDeal content miner d
        → elem miner ex ≡ false
        → s'.content_deals ≡ s.content_deals ++ d ∷ []
        → Spread cont (suc n) (miner ∷ ex) s'
    one_more d l k e =
        let old = live_miners content.id s.content_deals in
        let p : live_miners content.id s'.content_deals ≡ old ++ miner ∷ [] =
          ap (live_miners content.id) e
          ∙ live_miners_snoc content.id s.content_deals d l.of_content l.not_failed
          ∙ ap (λ m. old ++ m ∷ []) l.with_miner in
        record {
          here = subst (λ c. first (has_id content.id) c ≡ some cont) (sym contents) h.here;
          fresh = fresh';
          excluded = subst (All (λ m. elem m (miner ∷ ex) ≡ true)) (sym p) (
              All-append (λ m. elem m (miner ∷ ex) ≡ true) old (miner ∷ [])
                (more_excluded miner ex old h.excluded) (ground arith, tt));
          different =
              rw p (distinct_snoc old miner h.different (elem_none miner ex old h.excluded k));
          few = rw p (ground (arith, length-append old (miner ∷ []), h.few));
        }

  module _ (maker : DealMaker) (cfg : Config) (cont : Content) (now : ℕ)
      (parses : (i m : ℕ) → (maker.storage_provider i m).address_parses ≡ true)
      (starts : (i m : ℕ) (l : Location)
        → (maker.storage_provider i m).start_at_shuttle l ≡ none) where
    -- The rounds end well, in a store with this.
    abbrev pub Ends : ℕ → Result (List ℕ) × World Store → Type 0
    Ends n r =
        (ex : List ℕ) × (s : Store) × (t : ℕ) × (r ≡ (ok ex, quiet s t now)) × Spread cont n ex s

    counted :
        (n miner : ℕ) (ex : List ℕ) (s : Store) (t : ℕ)
        → Spread cont n (miner ∷ ex) s
        → Ends n (count_deal maker cfg content.id miner ex (quiet s t now))
    unfolding count_deal made_one_deal execute statement ◌>>=◌
    counted n miner ex s t h = (
      miner ∷ ex,
      _,
      _,
      refl,
      record {
        here = h.here;
        fresh = h.fresh;
        excluded = h.excluded;
        different = h.different;
        few = h.few;
      },
    )

    more : (n : ℕ) (ex : List ℕ) (s : Store) → Spread cont n ex s → Spread cont (suc n) ex s
    more n ex s h = record {
      here = h.here;
      fresh = h.fresh;
      excluded = h.excluded;
      different = h.different;
      few = omega (arith, h.few);
    }

    also :
        (n miner : ℕ) (ex : List ℕ) (s : Store) → Spread cont n ex s → Spread cont n (miner ∷ ex) s
    also n miner ex s h = record {
      here = h.here;
      fresh = h.fresh;
      excluded = more_excluded miner ex (live_miners content.id s.content_deals) h.excluded;
      different = h.different;
      few = h.few;
    }

    -- The two ends of an attempt that is excused when it fails.
    attempted :
        {A B : Type 0} (m : M Store A) (skip : M Store B) (go : A → M Store B) (w : World Store)
        (P : Result B × World Store → Type 0)
        → ((e : Error) → (m w).0 ≡ err e → P (skip (m w).1))
        → ((a : A) → (m w).0 ≡ ok a → P (go a (m w).1))
        → P (unless_failed m skip go w)
    unfolding unless_failed
    attempted {A} {B} m skip go w P h k = elim (Result-cases (m w).0) [
      | inl (a, p) ↦
          subst
            (λ (q : Result A). P (elim q as (λ _. Result B × World Store) [
              | ok b ↦ go b (m w).1
              | err e ↦ skip (m w).1
            ]))
            (sym p) (k a p)
      | inr (e, p) ↦
          subst
            (λ (q : Result A). P (elim q as (λ _. Result B × World Store) [
              | ok b ↦ go b (m w).1
              | err d ↦ skip (m w).1
            ]))
            (sym p) (h e p)
    ]

    round-Ends :
        (n i : ℕ) (miners ex : List ℕ) (s : Store) (t : ℕ)
        → Spread cont n ex s
        → Ends (suc n) (deal_round maker cfg i content miners ex (quiet s t now))
    unfolding deal_round
    round-Ends n i [] ex s t h = (ex, s, t, refl, more n ex s h)
    round-Ends n i (miner ∷ miners) ex s t h = elim (Bool-cases (elem miner ex)) [
      | inl e ↦ rw e (round-Ends n i miners ex s t h)
      | inr e ↦ rw e (
          let sp = maker.storage_provider i miner in
          let attempt = make_deal_with_miner maker.deal_config sp content miner in
          let (s', u, q, l) =
            make_deal_with_miner-Attempt sp content miner now (parses i miner) (starts i miner) cont
              s t h.fresh h.here maker.deal_config in
          attempted attempt (deal_round maker cfg i content miners ex)
            (λ _. count_deal maker cfg content.id miner ex) (quiet s t now) (Ends (suc n))
            (λ d p.
              subst (λ w. Ends (suc n) (deal_round maker cfg i content miners ex w)) (sym q)
                (elim l.deals [
                  | inl same ↦
                      round-Ends n i miners ex s' u
                        (same_deals cont n miner ex s s' h l.same_contents l.fresh same)
                  | inr x ↦ absurd (ground (arith, p, x.0.1))
                ]))
            (λ a p.
              subst (λ w. Ends (suc n) (count_deal maker cfg content.id miner ex w)) (sym q)
                (counted (suc n) miner ex s' u (elim l.deals [
                  | inl same ↦ more n (miner ∷ ex) s' (
                      also n miner ex s'
                        (same_deals cont n miner ex s s' h l.same_contents l.fresh same))
                  | inr x ↦
                      one_more cont n miner ex s s' h l.same_contents l.fresh x.1.0 x.1.2 e x.1.1
                ]))))
    ]

    pub rounds-Ends :
        (n i : ℕ) (miners ex : List ℕ) (s : Store) (t : ℕ)
        → Spread cont n ex s
        → Ends (i + n) (deal_rounds maker cfg i content miners ex (quiet s t now))
    unfolding deal_rounds
    rounds-Ends n zero miners ex s t h =
        (ex, s, t, refl, subst (λ k. Spread cont k ex s) (omega arith) h)
    rounds-Ends n (suc i) miners ex s t h =
        let (ex', s', t', e, h') = round-Ends n i miners ex s t h in
        let w = quiet s t now in
        subst (Ends (suc i + n))
          (sym (
            bind_ok (deal_round maker cfg i content miners ex)
              (deal_rounds maker cfg i content miners) w ex' (quiet s' t' now) e))
          (subst (λ k. Ends k (deal_rounds maker cfg i content miners ex' (quiet s' t' now)))
            (omega arith) (rounds-Ends (suc n) i miners ex' s' t' h'))
