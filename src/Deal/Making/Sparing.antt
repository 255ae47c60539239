-- ===== src/Deal/Making/Sparing.antt =====
-- Making deals makes no row of the deal queue due, so the deal worker can run it.
use estuary.Prelude.{
  ℕ, ◌≡◌, refl, sym, subst, ap, ◌∙◌, Bool, true, false, Bool-cases, inl, inr, Option, none, some,
  if◌then◌else◌, not,
}
use estuary.Db.{Error, Result, ok, err, M, ◌>>=◌, statement}
use estuary.Db.Atomic.{Result-cases}
use estuary.Model.{
  Content, ContentDeal, ProposalRecord, DealQueue, Location, local_node, shuttle, Store,
}
use estuary.Deal.Check.Sparing.{
  Keeps, pure-Keeps, throw-Keeps, now-Keeps, >>=-Keeps, if-Keeps, record_failure-Keeps,
  execute-Keeps, answer-Keeps, get_content-Keeps, after_start-Keeps, return_error-Keeps,
}
use estuary.Deal.Making.{unless_failed}
use estuary.Deal.Making.Proposal.{
  DealConfig, StorageProvider, Protocol, v110, v120, other_protocol, AskAnswer, asked, lotus_error,
  ask_failed, Sent, send, clean_up, start_local, start_at, start_data_transfer, start_push,
  after_sending, propose, propose_made, propose_cid, send_deal, with_ask, with_protocol,
  make_deal_with_miner, put_proposal_record, create_proposal, create_deal, delete_deal,
  delete_proposal, price_is_too_high,
}
use estuary.Deal.Workers.Progress.{Spares, Covers}

-- A step that leaves the queue alone.
pub Keeps-Spares : {A : Type 0} (due : DealQueue → Bool) (m : M Store A) → Keeps m → Spares due m
Keeps-Spares due m k = record {
  no_new_task = λ w ids h. subst (Covers due ids) (sym (ap (λ x. x.0) (k.same w))) h;
  same_now = λ w. ap (λ x. x.1.0) (k.same w);
  same_failures = λ w. ap (λ x. x.1.1) (k.same w);
}

module _ (due : DealQueue → Bool) where
  pub >>=-Spares :
      {A B : Type 0} {m : M Store A} {f : A → M Store B}
      → Spares due m
      → ((a : A) → Spares due (f a))
      → Spares due (m >>= f)
  unfolding ◌>>=◌
  >>=-Spares {m = m} {f = f} h k = record {
    no_new_task = λ w ids c. elim (Result-cases (m w).0) [
      | inl (a, p) ↦ rw (p, ◌>>=◌) ((k a).no_new_task (m w).1 ids (h.no_new_task w ids c))
      | inr (e, p) ↦ rw (p, ◌>>=◌) (h.no_new_task w ids c)
    ];
    same_now = λ w. elim (Result-cases (m w).0) [
      | inl (a, p) ↦ rw (p, ◌>>=◌) ((k a).same_now (m w).1 ∙ h.same_now w)
      | inr (e, p) ↦ rw (p, ◌>>=◌) (h.same_now w)
    ];
    same_failures = λ w. elim (Result-cases (m w).0) [
      | inl (a, p) ↦ rw (p, ◌>>=◌) ((k a).same_failures (m w).1 ∙ h.same_failures w)
      | inr (e, p) ↦ rw (p, ◌>>=◌) (h.same_failures w)
    ];
  }

  pub if-Spares :
      {A : Type 0} (b : Bool) {m n : M Store A}
      → Spares due m
      → Spares due n
      → Spares due (if b then m else n)
  if-Spares true h k = h
  if-Spares false h k = k

  pub unless_failed-Spares :
      {A B : Type 0} {m : M Store A} {skip : M Store B} {go : A → M Store B}
      → Spares due m
      → Spares due skip
      → ((a : A) → Spares due (go a))
      → Spares due (unless_failed m skip go)
  unfolding unless_failed
  unless_failed-Spares {m = m} h l k = record {
    no_new_task = λ w ids c. elim (Result-cases (m w).0) [
      | inl (a, p) ↦ rw (p, unless_failed) ((k a).no_new_task (m w).1 ids (h.no_new_task w ids c))
      | inr (e, p) ↦ rw (p, unless_failed) (l.no_new_task (m w).1 ids (h.no_new_task w ids c))
    ];
    same_now = λ w. elim (Result-cases (m w).0) [
      | inl (a, p) ↦ rw (p, unless_failed) ((k a).same_now (m w).1 ∙ h.same_now w)
      | inr (e, p) ↦ rw (p, unless_failed) (l.same_now (m w).1 ∙ h.same_now w)
    ];
    same_failures = λ w. elim (Result-cases (m w).0) [
      | inl (a, p) ↦ rw (p, unless_failed) ((k a).same_failures (m w).1 ∙ h.same_failures w)
      | inr (e, p) ↦ rw (p, unless_failed) (l.same_failures (m w).1 ∙ h.same_failures w)
    ];
  }

statement-Keeps :
    {A : Type 0} (f : Store → A × Store)
    → ((s : Store) → (f s).1.deal_queue ≡ s.deal_queue)
    → Keeps (statement f)
unfolding statement
statement-Keeps f k = record {
  same = λ w. elim (Bool-cases (w.fails w.tick)) [
    | inl e ↦ rw e refl
    | inr e ↦ rw (e, k w.store) refl
  ];
}

module _ (cfg : DealConfig) (sp : StorageProvider) where
  start_at-Keeps : (d : ContentDeal) (l : Location) → Keeps (start_at sp d l)
  unfolding start_at start_local
  start_at-Keeps d local_node =
      if-Keeps (not sp.address_parses) throw-Keeps (after_start-Keeps d sp.start_transfer)
  start_at-Keeps d (shuttle h) = return_error-Keeps (sp.start_at_shuttle (shuttle h))

  start_push-Keeps : (proto : Protocol) (d : ContentDeal) → Keeps (start_push sp proto d)
  unfolding start_push start_data_transfer
  start_push-Keeps v110 d =
      >>=-Keeps (>>=-Keeps (get_content-Keeps d.content) (λ c. start_at-Keeps d c.location))
        (λ _. pure-Keeps)
  start_push-Keeps v120 d = pure-Keeps
  start_push-Keeps other_protocol d = pure-Keeps

  after_sending-Keeps :
      (proto : Protocol) (d : ContentDeal) (dp : ProposalRecord) (sent : Sent) (o : Option Error)
      → Keeps (after_sending sp proto d dp sent o)
  unfolding after_sending clean_up
  after_sending-Keeps proto d dp sent none = start_push-Keeps proto d
  after_sending-Keeps proto d dp sent (some e) =
      >>=-Keeps (execute-Keeps (delete_deal d.id) (λ s. refl)) (λ _.
        >>=-Keeps (execute-Keeps (delete_proposal dp) (λ s. refl)) (λ _.
          >>=-Keeps (record_failure-Keeps (if sent.prop_phase then "propose" else "send-proposal"))
            (λ _. throw-Keeps)))

  propose-Keeps :
      (content : Content) (miner : ℕ) (proto : Protocol) → Keeps (propose sp content miner proto)
  unfolding propose propose_made propose_cid put_proposal_record send_deal
  propose-Keeps content miner proto = >>=-Keeps (answer-Keeps sp.make_deal) (λ p.
      >>=-Keeps (answer-Keeps (sp.as_ipld p)) (λ cid.
        >>=-Keeps
          (>>=-Keeps (answer-Keeps (sp.as_ipld p))
            (λ c. statement-Keeps (create_proposal c) (λ s. refl)))
          (λ dp. >>=-Keeps now-Keeps (λ t.
            >>=-Keeps (statement-Keeps (create_deal content miner cid t) (λ s. refl)) (λ d.
              let sent = send sp proto content.location d.id in
              after_sending-Keeps proto d dp sent sent.error)))))

  with_ask-Keeps :
      (content : Content) (miner : ℕ) (proto : Protocol) (a : AskAnswer)
      → Keeps (with_ask cfg sp content miner proto a)
  unfolding with_ask
  with_ask-Keeps content miner proto lotus_error = throw-Keeps
  with_ask-Keeps content miner proto ask_failed =
      >>=-Keeps (record_failure-Keeps "query-ask") (λ _. throw-Keeps)
  with_ask-Keeps content miner proto (asked ask) =
      if-Keeps (price_is_too_high ask cfg) throw-Keeps (propose-Keeps content miner proto)

  with_protocol-Keeps :
      (content : Content) (miner : ℕ) (r : Result Protocol)
      → Keeps (with_protocol cfg sp content miner r)
  unfolding with_protocol
  with_protocol-Keeps content miner (err e) =
      >>=-Keeps (record_failure-Keeps "deal-protocol-version") (λ _. pure-Keeps)
  with_protocol-Keeps content miner (ok proto) = with_ask-Keeps content miner proto sp.ask

  pub make_deal_with_miner-Keeps :
      (content : Content) (miner : ℕ) → Keeps (make_deal_with_miner cfg sp content miner)
  unfolding make_deal_with_miner
  make_deal_with_miner-Keeps content miner = with_protocol-Keeps content miner sp.protocol
