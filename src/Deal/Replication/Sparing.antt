-- ===== src/Deal/Replication/Sparing.antt =====
-- The check of a content's deals leaves the deal queue alone, so the check worker can run it.
use estuary.Prelude.{Option-cases, ℕ, ◌≡◌, sym, subst, ap, List, [], ◌∷◌, false, inl, inr, keep}
use estuary.Prelude.Int.{ℤ, pos, ◌-ℤ◌}
use estuary.Db.{Result, ok, err, World, M}
use estuary.Db.Atomic.{Result-cases}
use estuary.Db.Table.{count}
use estuary.Model.{Content, ContentDeal, Store, Config, shuttle}
use estuary.Deal.Check.Sparing.{
  Keeps, pure-Keeps, throw-Keeps, now-Keeps, query-Keeps, >>=-Keeps, if-Keeps, record_failure-Keeps,
  on_deal-Keeps, check_deal-Keeps, get_content-Keeps,
}
use estuary.Deal.Check.{
  DealCheck, unknown, progress, deal_id_on_chain, sector_on_chain, nearly_expired, slashed, Answers,
  check_deal,
}
use estuary.Deal.Replication.{
  Tally, no_deals, attempt, repair_deal, fail_deal, replace_deal, tally_deal, tally_result,
  inspect_deal, inspect_deals, missing_deals, reconcile, count_missing, check_content_deals,
  live_deal, replication_factor, good_deals,
}
use estuary.Deal.Replication.Missing.{Location-cases}
use estuary.Deal.Workers.{deal_check_tick, check_due}
use estuary.Deal.Workers.Progress.{Spares, Covers, deal_check_tick-Settles}

attempt-Keeps : {A : Type 0} (m : M Store A) → Keeps m → Keeps (attempt m)
unfolding attempt
attempt-Keeps m h = record { same = h.same }

module _ (answers : Answers) (cfg : Config) where
  repair_deal-Keeps : (d : ContentDeal) → Keeps (repair_deal d)
  unfolding repair_deal
  repair_deal-Keeps d =
      >>=-Keeps (if-Keeps _ pure-Keeps (record_failure-Keeps "fault"))
        (λ _. >>=-Keeps now-Keeps (λ t. on_deal-Keeps d.id (fail_deal t)))

  replace_deal-Keeps : (d : ContentDeal) (c : Tally) → Keeps (replace_deal d c)
  unfolding replace_deal
  replace_deal-Keeps d c =
      >>=-Keeps (attempt-Keeps (repair_deal d) (repair_deal-Keeps d)) (λ r. pure-Keeps)

  tally_deal-Keeps :
      (d : ContentDeal) (c : Tally) (r : Result DealCheck) → Keeps (tally_result d c r)
  unfolding tally_result tally_deal
  tally_deal-Keeps d c (err e) = pure-Keeps
  tally_deal-Keeps d c (ok unknown) = replace_deal-Keeps d c
  tally_deal-Keeps d c (ok nearly_expired) = replace_deal-Keeps d c
  tally_deal-Keeps d c (ok slashed) = replace_deal-Keeps d c
  tally_deal-Keeps d c (ok sector_on_chain) = pure-Keeps
  tally_deal-Keeps d c (ok deal_id_on_chain) = pure-Keeps
  tally_deal-Keeps d c (ok progress) = pure-Keeps

  inspect_deals-Keeps :
      (content : Content) (deals : List ContentDeal) (c : Tally)
      → Keeps (inspect_deals answers cfg content deals c)
  unfolding inspect_deals inspect_deal
  inspect_deals-Keeps content [] c = pure-Keeps
  inspect_deals-Keeps content (d ∷ deals) c =
      >>=-Keeps
        (>>=-Keeps
          (attempt-Keeps (check_deal answers cfg d content)
            (check_deal-Keeps answers cfg d content))
          (λ r. tally_deal-Keeps d c r))
        (λ c1. inspect_deals-Keeps content deals c1)

  missing_deals-Keeps : (content : Content) (n : ℤ) → Keeps (missing_deals answers cfg content n)
  unfolding missing_deals
  missing_deals-Keeps content n = if-Keeps _ pure-Keeps (if-Keeps _ throw-Keeps pure-Keeps)

  reconcile-Keeps : (content : Content) (c : Tally) → Keeps (reconcile answers cfg content c)
  unfolding reconcile
  reconcile-Keeps content c =
      let missing =
        missing_deals-Keeps content (replication_factor cfg content -ℤ pos (good_deals c)) in
      elim (Option-cases c.ret_err) [
        | inr (e, x) ↦ rw (x, reconcile) throw-Keeps
        | inl x ↦ elim (Location-cases content.location) [
          | inl l ↦ rw (x, l, reconcile) missing
          | inr (handle, l) ↦ elim (Result-cases (answers.is_online (shuttle handle))) [
            | inr (e, y) ↦ rw (x, l, y, reconcile) throw-Keeps
            | inl (online, y) ↦ rw (x, l, y, reconcile) (if-Keeps online missing pure-Keeps)
          ]
        ]
      ]

  count_missing-Keeps :
      (content : Content) (deals : List ContentDeal)
      → Keeps (count_missing answers cfg content deals)
  unfolding count_missing
  count_missing-Keeps content [] = pure-Keeps
  count_missing-Keeps content (d ∷ deals) =
      >>=-Keeps (inspect_deals-Keeps content (d ∷ deals) no_deals) (λ c. reconcile-Keeps content c)

  check_content_deals-Keeps : (cont_id : ℕ) → Keeps (check_content_deals answers cfg cont_id)
  unfolding check_content_deals
  check_content_deals-Keeps cont_id = >>=-Keeps (get_content-Keeps cont_id) (λ content.
      >>=-Keeps (query-Keeps (λ s. keep (live_deal cont_id) s.content_deals))
        (λ deals. count_missing-Keeps content deals))

  -- What the loop of the check worker asks of a check.
  pub check_content_deals-Spares :
      (t cont_id : ℕ) → Spares (check_due t) (check_content_deals answers cfg cont_id)
  check_content_deals-Spares t cont_id =
      let same = λ (w : World Store). (check_content_deals-Keeps cont_id).same w in
      record {
        no_new_task = λ w ids h. subst (Covers (check_due t) ids) (sym (ap (λ x. x.0) (same w))) h;
        same_now = λ w. ap (λ x. x.1.0) (same w);
        same_failures = λ w. ap (λ x. x.1.1) (same w);
      }

  -- A tick of the deal check worker with the code's own check, where no statement fails and whatever
  -- chain and providers answer, runs through all its tasks, and no row is due for a check after it.
  pub check_tick-Settles :
      (w : World Store)
      → ((n : ℕ) → w.fails n ≡ false)
      → let r = deal_check_tick (check_content_deals answers cfg) w in
        (r.0 ≡ ok tt) × (count (check_due w.now) r.1.store.deal_queue ≡ 0)
  check_tick-Settles w h =
      deal_check_tick-Settles (check_content_deals answers cfg) check_content_deals-Spares w h
