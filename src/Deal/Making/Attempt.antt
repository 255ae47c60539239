-- ===== src/Deal/Making/Attempt.antt =====
-- One attempt to make a deal, from its start, where no statement fails.
use estuary.Prelude.{
  ℕ, suc, ◌≡◌, inl, inr, refl, sym, subst, ◌∙◌, true, Bool-cases, Option, none, some,
}
use estuary.Db.{Error, Result, ok, err, World, M, quiet, pure, ◌>>=◌, execute, statement}
use estuary.Db.Run.{bind_ok, bind_same, statement-quiet}
use estuary.Model.{Content, ContentDeal, ProposalRecord, Location, Store}
use estuary.Model.Lookup.{content_of, get_content, get_content-quiet}
use estuary.Deal.Check.{answer, record_failure}
use estuary.Deal.Making.Proposal.{
  DealConfig, StorageProvider, Protocol, v110, v120, other_protocol, AskAnswer, asked, lotus_error,
  ask_failed, Sent, send, start_at, start_data_transfer, start_push, after_sending, propose,
  propose_made, propose_cid, send_deal, with_ask, make_deal_with_miner, with_protocol,
  put_proposal_record, create_proposal, create_deal, price_is_too_high,
}
use estuary.Deal.Making.Outcome.{
  Fresh, Attempt, unchanged, kept_row, is_deal, start_at-Attempt, clean_up-Attempt,
}

module _ (sp : StorageProvider) (content : Content) (miner now : ℕ)
    (parses : sp.address_parses ≡ true) (starts : (l : Location) → sp.start_at_shuttle l ≡ none)
    (cont : Content) where
  module _ (prop_cid : ℕ) (s : Store) (t : ℕ) (fresh : Fresh s.next_deal s.content_deals)
      (here : content_of content.id s ≡ some cont) where
    abbrev row : ContentDeal × Store
    row = create_deal content miner prop_cid now s

    start_push-Attempt :
        (proto : Protocol)
        → Attempt content miner s now (start_push sp proto row.0 (quiet row.1 t now))
    unfolding start_push start_data_transfer
    start_push-Attempt v120 = (
      _,
      _,
      refl,
      kept_row sp content miner prop_cid s t now fresh (λ d. d) _ _ (row.0, refl)
          (is_deal sp content miner prop_cid s t now fresh) refl refl refl refl,
    )
    start_push-Attempt other_protocol = (
      _,
      _,
      refl,
      kept_row sp content miner prop_cid s t now fresh (λ d. d) _ _ (row.0, refl)
          (is_deal sp content miner prop_cid s t now fresh) refl refl refl refl,
    )
    start_push-Attempt v110 =
        subst (Attempt content miner s now)
          (sym (
            bind_same (start_data_transfer sp row.0) (start_at sp row.0 cont.location)
              (λ _. pure (some row.0)) (quiet row.1 t now) (quiet row.1 (suc t) now)
              (bind_ok (get_content content.id) (λ c. start_at sp row.0 c.location)
                (quiet row.1 t now) cont (quiet row.1 (suc t) now)
                (get_content-quiet content.id cont row.1 t now here))))
          (start_at-Attempt sp content miner prop_cid s (suc t) now fresh cont here parses starts
            cont.location)

    after_sending-Attempt :
        (proto : Protocol) (dp : ProposalRecord) (sent : Sent) (o : Option Error)
        → Attempt content miner s now (after_sending sp proto row.0 dp sent o (quiet row.1 t now))
    unfolding after_sending
    after_sending-Attempt proto dp sent none = start_push-Attempt proto
    after_sending-Attempt proto dp sent (some e) =
        clean_up-Attempt sp content miner prop_cid s t now fresh dp sent e

  module _ (s : Store) (t : ℕ) (fresh : Fresh s.next_deal s.content_deals)
      (here : content_of content.id s ≡ some cont) where
    -- An answer from outside, and the steps after it.
    answer_bind :
        {A : Type 0} (r : Result A) (f : A → M Store (Option ContentDeal))
        → ((a : A) → r ≡ ok a → Attempt content miner s now (f a (quiet s t now)))
        → Attempt content miner s now ((answer r >>= f) (quiet s t now))
    unfolding ◌>>=◌
    answer_bind (ok a) f h = h a refl
    answer_bind (err e) f h = (_, _, refl, unchanged content miner s _ _ fresh refl refl)

    -- The proposal's record changes neither the contents nor the deals.
    with_record :
        (cid : ℕ) (r : Result (Option ContentDeal) × World Store)
        → Attempt content miner (create_proposal cid s).1 now r
        → Attempt content miner s now r
    with_record cid r (s', u, e, l) =
        (s', u, e, record { same_contents = l.same_contents; fresh = l.fresh; deals = l.deals })

    put_quiet :
        (p cid : ℕ)
        → sp.as_ipld p ≡ ok cid
        → put_proposal_record sp p (quiet s t now)
          ≡ (ok (create_proposal cid s).0, quiet (create_proposal cid s).1 (suc t) now)
    unfolding put_proposal_record
    put_quiet p cid q =
        bind_ok (answer (sp.as_ipld p)) (λ c. statement (create_proposal c)) (quiet s t now) cid
          (quiet s t now) (rw q refl)
        ∙ statement-quiet (create_proposal cid) s t now

    send_deal-Attempt :
        (proto : Protocol) (cid t' : ℕ) (dp : ProposalRecord)
        → let s1 = (create_proposal cid s).1 in
          Attempt content miner s1 now (send_deal sp content miner proto cid dp (quiet s1 t' now))
    unfolding send_deal ◌>>=◌ statement
    send_deal-Attempt proto cid t' dp =
        let sent = send sp proto content.location s.next_deal in
        after_sending-Attempt cid (create_proposal cid s).1 (suc t') fresh here proto dp sent
          sent.error

    propose_cid-Attempt :
        (proto : Protocol) (p cid : ℕ)
        → sp.as_ipld p ≡ ok cid
        → Attempt content miner s now (propose_cid sp content miner proto p cid (quiet s t now))
    unfolding propose_cid
    propose_cid-Attempt proto p cid q =
        let r = create_proposal cid s in
        subst (Attempt content miner s now)
          (sym (
            bind_ok (put_proposal_record sp p) (send_deal sp content miner proto cid)
              (quiet s t now) r.0 (quiet r.1 (suc t) now) (put_quiet p cid q)))
          (with_record cid (send_deal sp content miner proto cid r.0 (quiet r.1 (suc t) now))
            (send_deal-Attempt proto cid (suc t) r.0))

    propose-Attempt :
        (proto : Protocol)
        → Attempt content miner s now (propose sp content miner proto (quiet s t now))
    unfolding propose propose_made
    propose-Attempt proto = answer_bind sp.make_deal (propose_made sp content miner proto) (λ p e.
        answer_bind (sp.as_ipld p) (propose_cid sp content miner proto p)
          (propose_cid-Attempt proto p))

    with_ask-Attempt :
        (cfg : DealConfig) (proto : Protocol) (a : AskAnswer)
        → Attempt content miner s now (with_ask cfg sp content miner proto a (quiet s t now))
    unfolding with_ask record_failure execute statement ◌>>=◌
    with_ask-Attempt cfg proto lotus_error =
        (_, _, refl, unchanged content miner s _ _ fresh refl refl)
    with_ask-Attempt cfg proto ask_failed =
        (_, _, refl, unchanged content miner s _ _ fresh refl refl)
    with_ask-Attempt cfg proto (asked ask) = elim (Bool-cases (price_is_too_high ask cfg)) [
      | inl e ↦ rw e (_, _, refl, unchanged content miner s _ _ fresh refl refl)
      | inr e ↦ rw e (propose-Attempt proto)
    ]

    with_protocol-Attempt :
        (cfg : DealConfig) (r : Result Protocol)
        → Attempt content miner s now (with_protocol cfg sp content miner r (quiet s t now))
    unfolding with_protocol record_failure execute statement ◌>>=◌
    with_protocol-Attempt cfg (err e) = (_, _, refl, unchanged content miner s _ _ fresh refl refl)
    with_protocol-Attempt cfg (ok proto) = with_ask-Attempt cfg proto sp.ask

    pub make_deal_with_miner-Attempt :
        (cfg : DealConfig)
        → Attempt content miner s now (make_deal_with_miner cfg sp content miner (quiet s t now))
    unfolding make_deal_with_miner
    make_deal_with_miner-Attempt cfg = with_protocol-Attempt cfg sp.protocol
