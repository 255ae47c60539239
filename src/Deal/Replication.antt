-- ===== src/Deal/Replication.antt =====
-- `checkContentDeals` and `repairDeal` of deal/check.go. The goroutines that check the deals of a content
-- meet only in the counts, which a lock guards, and each works on its own deal: they run here one after
-- the other. No code answers a DealFailureError as an error, so the branch that ignores one is left out.
-- The refresh of an offloaded content, started in the background, is another handler.
pub mod Missing
pub mod Sparing
use estuary.Prelude.{
  ℕ, ◌+◌, ◌==◌, Bool, true, false, ◌&&◌, not, if◌then◌else◌, List, [], ◌∷◌, Option, none, some,
  keep,
}
use estuary.Prelude.Int.{ℤ, pos, ◌-ℤ◌, leb_ℤ, ltb_ℤ, is_zero}
use estuary.Db.{M, Error, Result, ok, err, failure, pure, throw, ◌>>=◌, ◌>>◌, query, execute, now}
use estuary.Model.{Content, ContentDeal, Location, local_node, shuttle, Store, Config}
use estuary.Model.Lookup.{get_content}
use estuary.Deal.Check.{
  DealCheck, unknown, progress, deal_id_on_chain, sector_on_chain, nearly_expired, slashed, Answers,
  answer, check_deal, on_deal, record_failure,
}

-- The outcome of a step as a value.
unfoldable pub attempt : {A : Type 0} → M Store A → M Store (Result A)
attempt m w = let r = m w in (ok r.0, r.1)

abbrev pub fail_deal : ℕ → ContentDeal → ContentDeal
fail_deal t x = record x { failed = true; failed_at = some t }

unfoldable pub repair_deal : ContentDeal → M Store (Unit {0})
repair_deal d = do
  if is_zero d.deal_id then pure tt else record_failure "fault"
  t ← now
  execute (on_deal d.id (fail_deal t))

-- The three counts, and the last error.
pub record Tally : Type 0 where
  pub num_sealed : ℕ
  pub num_published : ℕ
  pub num_progress : ℕ
  pub ret_err : Option Error

abbrev pub no_deals : Tally
no_deals = record { num_sealed = 0; num_published = 0; num_progress = 0; ret_err = none }

abbrev pub failed_with : Tally → Error → Tally
failed_with c e = record c { ret_err = some e }

abbrev pub after_repair : Tally → Result (Unit {0}) → Tally
after_repair c (ok _) = c
after_repair c (err e) = failed_with c e

-- A deal that is to be replaced.
unfoldable pub replace_deal : ContentDeal → Tally → M Store Tally
replace_deal d c = do r ← attempt (repair_deal d); pure (after_repair c r)

unfoldable pub tally_deal : ContentDeal → Tally → DealCheck → M Store Tally
tally_deal d c unknown = replace_deal d c
tally_deal d c nearly_expired = replace_deal d c
tally_deal d c slashed = replace_deal d c
tally_deal d c sector_on_chain = pure (record c { num_sealed = c.num_sealed + 1 })
tally_deal d c deal_id_on_chain = pure (record c { num_published = c.num_published + 1 })
tally_deal d c progress = pure (record c { num_progress = c.num_progress + 1 })

unfoldable pub tally_result : ContentDeal → Tally → Result DealCheck → M Store Tally
tally_result d c (ok status) = tally_deal d c status
tally_result d c (err e) = pure (failed_with c e)

abbrev pub good_deals : Tally → ℕ
good_deals c = c.num_sealed + c.num_published + c.num_progress

-- The deals that a content has, without the failed ones.
abbrev pub live_deal : ℕ → ContentDeal → Bool
live_deal cont_id d = d.content == cont_id && not d.failed

abbrev pub replication_factor : Config → Content → ℤ
replication_factor cfg content =
    if ltb_ℤ (pos 0) content.replication then content.replication else cfg.replication

module _ (answers : Answers) (cfg : Config) where
  unfoldable pub inspect_deal : Content → ContentDeal → Tally → M Store Tally
  inspect_deal content d c = do r ← attempt (check_deal answers cfg d content); tally_result d c r

  unfoldable pub inspect_deals : Content → List ContentDeal → Tally → M Store Tally
  inspect_deals content [] c = pure c
  inspect_deals content (d ∷ deals) c = inspect_deal content d c >>= inspect_deals content deals

  -- From the counts on.
  unfoldable pub missing_deals : Content → ℤ → M Store ℤ
  missing_deals content to_be_made =
      if leb_ℤ to_be_made (pos 0)
      then pure (pos 0)
      else if content.offloaded
      then throw (failure "offloaded for deal making")
      else pure to_be_made

  unfoldable pub reconcile : Content → Tally → M Store ℤ
  reconcile content c = elim c.ret_err [
    | some e ↦ throw e
    | none ↦
        let rest = missing_deals content (replication_factor cfg content -ℤ pos (good_deals c)) in
        elim content.location [
          | local_node ↦ rest
          | shuttle handle ↦ elim (answers.is_online (shuttle handle)) [
            | err e ↦ throw e
            | ok online ↦ if online then rest else pure (pos 0)
          ]
        ]
  ]

  unfoldable pub count_missing : Content → List ContentDeal → M Store ℤ
  count_missing content [] = pure (replication_factor cfg content)
  count_missing content (d ∷ deals) =
      inspect_deals content (d ∷ deals) no_deals >>= reconcile content

  unfoldable pub check_content_deals : ℕ → M Store ℤ
  check_content_deals cont_id = do
    content ← get_content cont_id
    deals ← query (λ s. keep (live_deal cont_id) s.content_deals)
    count_missing content deals
