-- ===== src/Deal/Making/Limits.antt =====
-- Which contents get deals, and two ways in which the checks and the counts fall short.
use estuary.Prelude.{
  ℕ, suc, ◌≡◌, refl, sym, subst, ap, ◌∙◌, Bool, true, false, not, ◌||◌, if◌then◌else◌, List, ◌∷◌,
  ◌++◌, [], some, elem, arith, ltb,
}
use estuary.Prelude.Int.{ℤ, pos, ◌-ℤ◌, ◌≤ℤ◌, ltb_ℤ}
use estuary.Db.{Error, ok, err, World, M, quiet, pure, throw, ◌>>=◌, query, execute, statement}
use estuary.Db.Gives.{ended, query_same}
use estuary.Model.{Content, Store, Config}
use estuary.Model.Lookup.{content_of, get_content, get_content_same}
use estuary.Deal.Queue.{on_queue, made_one_deal}
use estuary.Deal.Check.{record_failure}
use estuary.Deal.Making.{
  DealMaker, unless_failed, count_deal, deal_round, deals_for, deals_for_ready,
  make_deals_for_content,
}
use estuary.Deal.Making.Ready.{
  Readiness, check_content_ready, check_state, check_blocks, check_datacap, check_balance,
}
use estuary.Deal.Making.Proposal.{make_deal_with_miner, with_protocol}

-- What makes a content fit for deals.
pub record IsReady (ready : Readiness) (cfg : Config) (content : Content) (s : Store) : Type 0 where
  active : content.active ≡ true
  not_pinning : content.pinning ≡ false
  not_offloaded : content.offloaded ≡ false
  large_enough : cfg.min_size ≤ℤ content.size
  small_enough : content.size ≤ℤ cfg.max_size
  enabled : ready.deal_making_disabled ≡ false
  not_corrupted : elem content.id s.sanity_checks ≡ false

-- A test that throws was not met when the handler ended well.
passed :
    {A : Type 0} (b : Bool) (e : Error) (m : M Store A) (w : World Store) (a : A)
    → ((if b then throw e else m) w).0 ≡ ok a
    → (b ≡ false) × ((m w).0 ≡ ok a)
passed true e m w a h = absurd (ground (arith, h))
passed false e m w a h = (refl, h)

check_content_ready-IsReady :
    (ready : Readiness) (cfg : Config) (content : Content) (w : World Store)
    → (check_content_ready ready cfg content w).0 ≡ ok tt
    → IsReady ready cfg content w.store
unfolding check_content_ready check_state check_blocks
check_content_ready-IsReady ready cfg content w h0 =
    let (v, h, z) =
      ended (check_state ready.deal_making_disabled ready.is_online cfg content)
        (λ _. check_datacap ready content) w tt h0 in
    let (a, h1) = passed (not content.active || content.pinning) _ _ w tt h in
    let (b, h2) = passed content.offloaded _ _ w tt h1 in
    let (c, h3) = passed (ltb_ℤ content.size cfg.min_size) _ _ w tt h2 in
    let (d, h4) = passed (ltb_ℤ cfg.max_size content.size) _ _ w tt h3 in
    let (e, h5) = passed ready.deal_making_disabled _ _ w tt h4 in
    let (x, p, q) = ended (query (λ s. elem content.id s.sanity_checks)) _ w tt h5 in
    let (f, h6) = passed x _ _ _ tt q in
    record {
      active = ground (arith, a);
      not_pinning = ground (arith, a);
      not_offloaded = b;
      large_enough = ground (arith, c);
      small_enough = ground (arith, d);
      enabled = e;
      not_corrupted = query_same (λ s. elem content.id s.sanity_checks) w x p ∙ f;
    }

-- When making deals ends well, whichever statements fail and whatever is answered, the content was
-- active, not being pinned, not offloaded, within the sizes for deals and not corrupted, and deal
-- making was enabled.
pub make_deals_for_content-IsReady :
    (maker : DealMaker) (cfg : Config) (cont_id : ℕ) (n : ℤ) (content : Content) (w : World Store)
    → content_of cont_id w.store ≡ some content
    → (make_deals_for_content maker cfg cont_id n w).0 ≡ ok tt
    → IsReady maker.readiness cfg content w.store
unfolding make_deals_for_content deals_for
make_deals_for_content-IsReady maker cfg cont_id n content w here h =
    let (c, p, q) = ended (get_content cont_id) (deals_for maker cfg n) w tt h in
    let (same, store) = get_content_same cont_id content c w here p in
    let (u, r, z) =
      ended (check_content_ready maker.readiness cfg c) (λ _. deals_for_ready maker cfg c n)
        (get_content cont_id w).1 tt q in
    subst (λ x. IsReady maker.readiness cfg x w.store) same
      (subst (IsReady maker.readiness cfg c) store
        (check_content_ready-IsReady maker.readiness cfg c (get_content cont_id w).1 r))

same_branches : {A : Type 0} (b : Bool) (a : A) → (if b then a else a) ≡ a
same_branches true a = refl
same_branches false a = refl

balance_passes :
    (ready : Readiness) (content : Content) (available : ℕ)
    → check_balance ready content (some available) ≡ pure tt
unfolding check_balance
balance_passes ready content available =
    same_branches (ltb available (ready.padded content.size)) (pure tt)

datacap_passes :
    (ready : Readiness) (content : Content) (available : ℕ)
    → check_datacap (record ready { balance = ok (some available) }) content ≡ pure tt
unfolding check_datacap ◌>>=◌
datacap_passes ready content available =
    ap (λ (m : M Store (Unit {0})). if ready.is_verified then m else pure tt)
      (balance_passes (record ready { balance = ok (some available) }) content available)
    ∙ same_branches ready.is_verified (pure tt)

-- The check of a content's readiness does not depend on how much datacap there is: the error for too
-- little of it wraps an error that is nil, and so is nil.
pub datacap_ignored :
    (ready : Readiness) (cfg : Config) (content : Content) (available available' : ℕ)
    → check_content_ready (record ready { balance = ok (some available) }) cfg content
      ≡ check_content_ready (record ready { balance = ok (some available') }) cfg content
unfolding check_content_ready
datacap_ignored ready cfg content available available' =
    ap (λ d. check_state ready.deal_making_disabled ready.is_online cfg content >>= λ _. d)
      (datacap_passes ready content available ∙ sym (datacap_passes ready content available'))

-- A miner whose protocol cannot be found counts as one that made a deal: the round ends with it, it is
-- excluded, and the count of the deals to be made is reduced, but there is no deal. No statement fails,
-- and the miner was not excluded before.
pub phantom_deal :
    (maker : DealMaker) (cfg : Config) (i : ℕ) (content : Content) (miner : ℕ) (miners ex : List ℕ)
    (s : Store) (t now : ℕ) (e : Error)
    → elem miner ex ≡ false
    → (maker.storage_provider i miner).protocol ≡ err e
    → deal_round maker cfg i content (miner ∷ miners) ex (quiet s t now) ≡ (
      ok (miner ∷ ex),
      quiet
          (on_queue
            (λ t r. record r { deal_count = r.deal_count -ℤ pos 1 })
            content.id
            0
            (record s { dfe_records = s.dfe_records ++ "deal-protocol-version" ∷ [] }))
          (suc (suc t))
          now,
    )
unfolding deal_round unless_failed make_deal_with_miner with_protocol count_deal made_one_deal
    record_failure execute statement ◌>>=◌
phantom_deal maker cfg i content miner miners ex s t now e h p = rw h (
    subst
      (λ r.
        unless_failed
          (with_protocol maker.deal_config (maker.storage_provider i miner) content miner r)
          (deal_round maker cfg i content miners ex) (λ _. count_deal maker cfg content.id miner ex)
          (quiet s t now)
        ≡ (
          ok (miner ∷ ex),
          quiet
              (on_queue (λ t r. record r { deal_count = r.deal_count -ℤ pos 1 }) content.id 0
                (record s { dfe_records = s.dfe_records ++ "deal-protocol-version" ∷ [] }))
              (suc (suc t)) now,
        ))
      (sym p) refl)
