-- ===== src/Deal/Making/Spread.antt =====
-- `makeDealsForContent` spreads the replicas of a content over miners.
use estuary.Prelude.{
  ℕ, suc, ◌+◌, ◌≡◌, inl, inr, refl, sym, subst, ◌∙◌, ap, Bool, true, Bool-cases, not, ◌||◌, List,
  [], ◌∷◌, All, All-imp, Option, none, some, arith, map, keep, elem,
}
use estuary.Prelude.Int.{ℤ, pos_part, ltb_ℤ}
use estuary.Db.{Result, ok, err, World, quiet, pure, ◌>>=◌, query}
use estuary.Db.Run.{bind_ok, query-quiet}
use estuary.Db.Gives.{ended}
use estuary.Db.Table.{first}
use estuary.Db.Reads.{Reads, pure-Reads, throw-Reads, query-Reads, if-Reads, >>=-Reads, reads_bind}
use estuary.Model.{Content, ContentDeal, Location, local_node, shuttle, Store, Config}
use estuary.Model.Lookup.{content_of, has_id, get_content, get_content-quiet}
use estuary.Deal.Check.{answer}
use estuary.Deal.Replication.{live_deal}
use estuary.Deal.Making.{
  DealMaker, excluded_miners, deal_rounds, make_rounds, pick_and_deal, deal_beside,
  exclude_and_deal, deals_for_ready, deals_for, make_deals_for_content,
}
use estuary.Deal.Making.Ready.{
  Readiness, check_content_ready, check_state, check_blocks, check_shuttle, check_datacap,
  check_balance,
}
use estuary.Deal.Making.Outcome.{Fresh}
use estuary.Deal.Making.Miners.{live_miners, SpreadOver}
use estuary.Deal.Making.Rounds.{rounds-Ends}

answer-Reads : {A : Type 0} (r : Result A) → Reads {S = Store} (answer r)
answer-Reads (ok a) = pure-Reads
answer-Reads (err e) = throw-Reads

check_balance-Reads :
    (ready : Readiness) (content : Content) (o : Option ℕ) → Reads (check_balance ready content o)
unfolding check_balance
check_balance-Reads ready content none = throw-Reads
check_balance-Reads ready content (some cap) = if-Reads _ pure-Reads pure-Reads

check_shuttle-Reads :
    (is_online : Location → Result Bool) (l : Location) → Reads (check_shuttle is_online l)
unfolding check_shuttle
check_shuttle-Reads is_online local_node = pure-Reads
check_shuttle-Reads is_online (shuttle h) =
    >>=-Reads (answer-Reads (is_online (shuttle h)))
      (λ online. if-Reads online pure-Reads throw-Reads)

check_datacap-Reads : (ready : Readiness) (content : Content) → Reads (check_datacap ready content)
unfolding check_datacap
check_datacap-Reads ready content =
    if-Reads ready.is_verified
      (>>=-Reads (answer-Reads ready.balance) (check_balance-Reads ready content)) pure-Reads

check_state-Reads :
    (disabled : Bool) (is_online : Location → Result Bool) (cfg : Config) (content : Content)
    → Reads (check_state disabled is_online cfg content)
unfolding check_state check_blocks
check_state-Reads disabled is_online cfg content =
    if-Reads (not content.active || content.pinning) throw-Reads (
      if-Reads content.offloaded throw-Reads (
        if-Reads (ltb_ℤ content.size cfg.min_size) throw-Reads (
          if-Reads (ltb_ℤ cfg.max_size content.size) throw-Reads (
            if-Reads disabled throw-Reads (
              >>=-Reads (query-Reads (λ s. elem content.id s.sanity_checks)) (λ corrupted.
                if-Reads corrupted throw-Reads
                  (check_shuttle-Reads is_online content.location)))))))

check_content_ready-Reads :
    (ready : Readiness) (cfg : Config) (content : Content)
    → Reads (check_content_ready ready cfg content)
unfolding check_content_ready
check_content_ready-Reads ready cfg content =
    >>=-Reads (check_state-Reads ready.deal_making_disabled ready.is_online cfg content)
      (λ _. check_datacap-Reads ready content)

excluded_miners-Reads :
    (has_miner : ContentDeal → Bool) (deals : List ContentDeal)
    → Reads (excluded_miners has_miner deals)
unfolding excluded_miners
excluded_miners-Reads has_miner [] = pure-Reads
excluded_miners-Reads has_miner (d ∷ deals) =
    if-Reads (has_miner d) (>>=-Reads (excluded_miners-Reads has_miner deals) (λ ex. pure-Reads))
      throw-Reads

-- The miners of all the deals are excluded.
excluded_all :
    (has_miner : ContentDeal → Bool) (deals : List ContentDeal) (s : Store) (t now : ℕ)
    (ex : List ℕ)
    → (excluded_miners has_miner deals (quiet s t now)).0 ≡ ok ex
    → map (λ d. d.miner) deals ≡ ex
unfolding excluded_miners ◌>>=◌
excluded_all has_miner [] s t now ex e = ground (arith, e)
excluded_all has_miner (d ∷ deals) s t now ex e = elim (Bool-cases (has_miner d)) [
  | inr f ↦ absurd (ground (arith, e, f))
  | inl f ↦
      let (a, p, q) =
        ended (excluded_miners has_miner deals) (λ ms. pure (d.miner ∷ ms)) (quiet s t now) ex
          (sym (rw f refl) ∙ e) in
      ap (λ ms. d.miner ∷ ms) (excluded_all has_miner deals s t now a p) ∙ ground (arith, q)
]

All-elem_self : (xs : List ℕ) → All (λ x. elem x xs ≡ true) xs
All-elem_self [] = tt
All-elem_self (x ∷ xs) = (
  ground arith,
  All-imp (λ y. elem y xs ≡ true) _ xs (λ y e. ground (arith, e)) (All-elem_self xs),
)

content_id : (id : ℕ) (c : Content) (cs : List Content) → first (has_id id) cs ≡ some c → c.id ≡ id
content_id id c [] h = absurd (ground (arith, h))
content_id id c (x ∷ cs) h = elim (Bool-cases (has_id id x)) [
  | inl e ↦ ground (arith, e, h)
  | inr e ↦ content_id id c cs (ground (arith, e, h))
]

module _ (maker : DealMaker) (cfg : Config) (now : ℕ)
    (parses : (i m : ℕ) → (maker.storage_provider i m).address_parses ≡ true)
    (starts : (i m : ℕ) (l : Location)
      → (maker.storage_provider i m).start_at_shuttle l ≡ none) where
  module _ (content : Content) (n : ℤ) (s : Store) (k : ℕ)
      (here : content_of content.id s ≡ some content) (fresh : Fresh s.next_deal s.content_deals)
      (h : SpreadOver content.id k s) where
    abbrev Good : Result (Unit {0}) × World Store → Type 0
    Good r = SpreadOver content.id (pos_part n + k) r.1.store

    still : Good (ok tt, quiet s 0 now)
    still = (h.0, omega (arith, h.1))

    make_rounds-Good :
        (miners : List ℕ) (t : ℕ)
        → Good (
            make_rounds maker cfg content n
              (live_miners content.id s.content_deals)
              miners
              (quiet s t now))
    unfolding make_rounds
    make_rounds-Good miners t =
        let ex = live_miners content.id s.content_deals in
        let (ex', s', t', e, sp) =
          rounds-Ends content maker cfg content now parses starts k (pos_part n) miners ex s t
            (record {
              here = here;
              fresh = fresh;
              excluded = All-elem_self ex;
              different = h.0;
              few = h.1;
            }) in
        subst Good
          (sym (
            bind_ok (deal_rounds maker cfg (pos_part n) content miners ex) (λ _. pure tt)
              (quiet s t now) ex' (quiet s' t' now) e))
          (sp.different, sp.few)

    pick_and_deal-Good :
        (piece_size t : ℕ) (ex : List ℕ)
        → live_miners content.id s.content_deals ≡ ex
        → Good (pick_and_deal maker cfg content n piece_size ex (quiet s t now))
    unfolding pick_and_deal
    pick_and_deal-Good piece_size t ex e =
        reads_bind Good (answer (maker.pick_miners piece_size ex))
          (make_rounds maker cfg content n ex) s t now
          (answer-Reads (maker.pick_miners piece_size ex))
          (λ miners u p.
            subst (λ x. Good (make_rounds maker cfg content n x miners (quiet s u now))) e
              (make_rounds-Good miners u))
          (λ e u. still)

    exclude_and_deal-Good :
        (piece_size t : ℕ) → Good (exclude_and_deal maker cfg content n piece_size (quiet s t now))
    unfolding exclude_and_deal deal_beside
    exclude_and_deal-Good piece_size t =
        let live = λ (s : Store). keep (live_deal content.id) s.content_deals in
        let deals = keep (live_deal content.id) s.content_deals in
        subst Good
          (sym (
            bind_ok (query live) (deal_beside maker cfg content n piece_size) (quiet s t now) deals
              (quiet s (suc t) now) (query-quiet live (quiet s t now) refl)))
          (reads_bind Good (excluded_miners maker.has_miner deals)
            (pick_and_deal maker cfg content n piece_size) s (suc t) now
            (excluded_miners-Reads maker.has_miner deals)
            (λ ex u p.
              pick_and_deal-Good piece_size u ex
                (excluded_all maker.has_miner deals s (suc t) now ex p))
            (λ e u. still))

    deals_for-Good : (t : ℕ) → Good (deals_for maker cfg n content (quiet s t now))
    unfolding deals_for deals_for_ready
    deals_for-Good t =
        reads_bind Good (check_content_ready maker.readiness cfg content)
          (λ _. deals_for_ready maker cfg content n) s t now
          (check_content_ready-Reads maker.readiness cfg content)
          (λ _ u p.
            reads_bind Good (answer (maker.piece_size content))
              (exclude_and_deal maker cfg content n) s u now
              (answer-Reads (maker.piece_size content))
              (λ piece_size v q. exclude_and_deal-Good piece_size v) (λ e v. still))
          (λ e u. still)

  -- Where no statement fails, the live deals of a content stay with different miners when more are
  -- made, and at most as many are added as were asked for, whatever the miners answer and even when
  -- the call ends in an error. Transfers that are pushed by a shuttle must start: the deal of one that
  -- does not is kept, and its miner is asked again. The addresses of the miners must
  -- parse.
  pub make_deals_for_content-SpreadOver :
      (cont_id : ℕ) (n : ℤ) (content : Content) (s : Store) (t k : ℕ)
      → content_of cont_id s ≡ some content
      → Fresh s.next_deal s.content_deals
      → SpreadOver cont_id k s
      → SpreadOver cont_id
          (pos_part n + k)
          (make_deals_for_content maker cfg cont_id n (quiet s t now)).1.store
  unfolding make_deals_for_content
  make_deals_for_content-SpreadOver cont_id n content s t k here fresh h =
      let e = content_id cont_id content s.contents here in
      subst
        (λ id.
          SpreadOver id (pos_part n + k)
            (make_deals_for_content maker cfg cont_id n (quiet s t now)).1.store)
        e
        (subst (λ r. SpreadOver content.id (pos_part n + k) r.1.store)
          (sym (
            bind_ok (get_content cont_id) (deals_for maker cfg n) (quiet s t now) content
              (quiet s (suc t) now) (get_content-quiet cont_id content s t now here)))
          (deals_for-Good content n s k (subst (λ id. content_of id s ≡ some content) (sym e) here)
            fresh (subst (λ id. SpreadOver id k s) (sym e) h) (suc t)))
