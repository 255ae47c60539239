-- ===== src/Deal/Replication/Missing.antt =====
-- How many deals a check asks for.
use estuary.Prelude.{
  ℕ, ◌+◌, ◌≤◌, ◌≡◌, refl, sym, ◌∙◌, subst, ap, ◌⊎◌, List, [], ◌∷◌, Bool-cases, inl, inr, arith,
  Option-cases, some, keep, length,
}
use estuary.Prelude.Int.{ℤ, pos, ◌-ℤ◌, ◌≤ℤ◌, leb_ℤ}
use estuary.Db.{Result, ok, err, World, pure, query, failure}
use estuary.Db.Gives.{
  Gives, pure-Gives, throw-Gives, if-Gives, >>=-Gives, any-Gives, ended, query_same,
}
use estuary.Db.Atomic.{Result-cases}
use estuary.Model.{Content, ContentDeal, Store, Config, local_node, shuttle, Location}
use estuary.Model.Lookup.{content_of, get_content, get_content_same}
use estuary.Deal.Check.{
  DealCheck, unknown, progress, deal_id_on_chain, sector_on_chain, nearly_expired, slashed, Answers,
  check_deal,
}
use estuary.Deal.Replication.{
  Tally, no_deals, good_deals, attempt, after_repair, tally_result, repair_deal, replace_deal,
  tally_deal, inspect_deal, inspect_deals, missing_deals, reconcile, count_missing,
  check_content_deals, live_deal, replication_factor, failed_with,
}

pub Location-cases : (l : Location) → (l ≡ local_node) ⊎ ((h : ℕ) × (l ≡ shuttle h))
Location-cases local_node = inl refl
Location-cases (shuttle h) = inr (h, refl)

-- At most one deal more is good.
abbrev OneMore : Tally → Tally → Type 0
OneMore c c' = good_deals c' ≤ good_deals c + 1

repaired : (c : Tally) (r : Result (Unit {0})) → OneMore c (after_repair c r)
repaired c (ok a) = omega arith
repaired c (err e) = omega arith

replace_deal-Gives : (d : ContentDeal) (c : Tally) → Gives (replace_deal d c) (OneMore c)
unfolding replace_deal
replace_deal-Gives d c =
    >>=-Gives (λ _. Unit) (OneMore c) (attempt (repair_deal d)) (λ r. pure (after_repair c r))
      (any-Gives (attempt (repair_deal d)))
      (λ r _. pure-Gives (OneMore c) (after_repair c r) (repaired c r))

tally_deal-Gives :
    (d : ContentDeal) (c : Tally) (status : DealCheck) → Gives (tally_deal d c status) (OneMore c)
unfolding tally_deal
tally_deal-Gives d c unknown = replace_deal-Gives d c
tally_deal-Gives d c nearly_expired = replace_deal-Gives d c
tally_deal-Gives d c slashed = replace_deal-Gives d c
tally_deal-Gives d c sector_on_chain = pure-Gives (OneMore c) _ (omega arith)
tally_deal-Gives d c deal_id_on_chain = pure-Gives (OneMore c) _ (omega arith)
tally_deal-Gives d c progress = pure-Gives (OneMore c) _ (omega arith)

tally_result-Gives :
    (d : ContentDeal) (c : Tally) (r : Result DealCheck) → Gives (tally_result d c r) (OneMore c)
unfolding tally_result
tally_result-Gives d c (ok status) = tally_deal-Gives d c status
tally_result-Gives d c (err e) = pure-Gives (OneMore c) (failed_with c e) (omega arith)

module _ (answers : Answers) (cfg : Config) where
  inspect_deal-Gives :
      (content : Content) (d : ContentDeal) (c : Tally)
      → Gives (inspect_deal answers cfg content d c) (OneMore c)
  unfolding inspect_deal
  inspect_deal-Gives content d c =
      >>=-Gives (λ _. Unit) (OneMore c) (attempt (check_deal answers cfg d content))
        (tally_result d c) (any-Gives (attempt (check_deal answers cfg d content)))
        (λ r _. tally_result-Gives d c r)

  inspect_deals-Gives :
      (content : Content) (deals : List ContentDeal) (c : Tally)
      → Gives
          (inspect_deals answers cfg content deals c)
          (λ c'. good_deals c' ≤ good_deals c + length deals)
  unfolding inspect_deals
  inspect_deals-Gives content [] c =
      pure-Gives (λ c'. good_deals c' ≤ good_deals c + 0) c (omega arith)
  inspect_deals-Gives content (d ∷ deals) c =
      >>=-Gives (OneMore c) (λ c'. good_deals c' ≤ good_deals c + length (d ∷ deals))
        (inspect_deal answers cfg content d c) (inspect_deals answers cfg content deals)
        (inspect_deal-Gives content d c)
        (λ c1 h w c2 e. let k = inspect_deals-Gives content deals c1 w c2 e in omega (arith, h, k))

  -- What is asked for, with `k` deals there: no more than the factor, and where it is something, no
  -- less than the deals there leave open.
  abbrev pub Enough : Content → ℕ → ℤ → Type 0
  Enough content k n =
      (n ≤ℤ replication_factor cfg content)
      × ((n ≡ pos 0) ⊎ (replication_factor cfg content -ℤ pos k ≤ℤ n))

  missing_deals-Gives :
      (content : Content) (g k : ℕ)
      → g ≤ k
      → pos 0 ≤ℤ replication_factor cfg content
      → Gives
          (missing_deals answers cfg content (replication_factor cfg content -ℤ pos g))
          (Enough content k)
  unfolding missing_deals
  missing_deals-Gives content g k h p =
      let factor = replication_factor cfg content in
      elim (Bool-cases (leb_ℤ (factor -ℤ pos g) (pos 0))) [
        | inl e ↦ rw e (pure-Gives (Enough content k) (pos 0) (p, inl refl))
        | inr e ↦ rw e (
            if-Gives (Enough content k) content.offloaded _ _
              (throw-Gives (Enough content k) (failure "offloaded for deal making"))
              (pure-Gives (Enough content k) (factor -ℤ pos g)
                (ground (arith, h), inr (ground (arith, h)))))
      ]

  reconcile-Gives :
      (content : Content) (c : Tally) (k : ℕ)
      → good_deals c ≤ k
      → pos 0 ≤ℤ replication_factor cfg content
      → Gives (reconcile answers cfg content c) (Enough content k)
  unfolding reconcile
  reconcile-Gives content c k h p =
      let missing = missing_deals-Gives content (good_deals c) k h p in
      elim (Option-cases c.ret_err) [
        | inr (e, x) ↦ rw (x, reconcile) (throw-Gives (Enough content k) e)
        | inl x ↦ elim (Location-cases content.location) [
          | inl l ↦ rw (x, l, reconcile) missing
          | inr (handle, l) ↦ elim (Result-cases (answers.is_online (shuttle handle))) [
            | inr (e, y) ↦ rw (x, l, y, reconcile) (throw-Gives (Enough content k) e)
            | inl (online, y) ↦
                rw (x, l, y, reconcile)
                  (if-Gives (Enough content k) online _ (pure (pos 0)) missing
                    (pure-Gives (Enough content k) (pos 0) (p, inl refl)))
          ]
        ]
      ]

  count_missing-Gives :
      (content : Content) (deals : List ContentDeal)
      → pos 0 ≤ℤ replication_factor cfg content
      → Gives (count_missing answers cfg content deals) (Enough content (length deals))
  unfolding count_missing
  count_missing-Gives content [] p =
      pure-Gives (Enough content 0) (replication_factor cfg content)
        (omega arith, inr (ground arith))
  count_missing-Gives content (d ∷ deals) p =
      >>=-Gives (λ c. good_deals c ≤ good_deals no_deals + length (d ∷ deals))
        (Enough content (length (d ∷ deals)))
        (inspect_deals answers cfg content (d ∷ deals) no_deals) (reconcile answers cfg content)
        (inspect_deals-Gives content (d ∷ deals) no_deals)
        (λ c h. reconcile-Gives content c (length (d ∷ deals)) (omega (arith, h)) p)

  -- Whichever statements fail and whatever chain and providers answer: when the check of a content that
  -- there is ends well, it asks for no more deals than the replication factor, which must not be
  -- negative; and when it asks for any, for no fewer than the factor without the content's live deals.
  pub check_content_deals-Gives :
      (cont_id : ℕ) (content : Content) (w : World Store) (n : ℤ)
      → content_of cont_id w.store ≡ some content
      → pos 0 ≤ℤ replication_factor cfg content
      → (check_content_deals answers cfg cont_id w).0 ≡ ok n
      → Enough content (length (keep (live_deal cont_id) w.store.content_deals)) n
  unfolding check_content_deals
  check_content_deals-Gives cont_id content w n h p e =
      let (c, got, e1) = ended (get_content cont_id) _ w n e in
      let (same, store) = get_content_same cont_id content c w h got in
      let w1 = (get_content cont_id w).1 in
      let live = λ (s : Store). keep (live_deal cont_id) s.content_deals in
      let (deals, asked, e2) = ended (query live) (count_missing answers cfg c) w1 n e1 in
      let rows = sym (query_same live w1 deals asked) ∙ ap live store in
      let q =
        count_missing-Gives c deals (subst (λ x. pos 0 ≤ℤ replication_factor cfg x) (sym same) p)
          (query live w1).1 n e2 in
      subst (λ x. Enough x (length (live w.store)) n) same
        (subst (λ ds. Enough c (length ds) n) rows q)
