-- ===== src/Deal/Check/Sparing.antt =====
-- Checking a deal leaves the deal queue, the time and the pattern of failures alone.
use estuary.Prelude.{
  Option-cases, ℕ, String, ◌≡◌, refl, ◌∙◌, List, Bool, true, false, Bool-cases, inl, inr, Option,
  none, some, if◌then◌else◌, not,
}
use estuary.Prelude.Int.{ℤ}
use estuary.Db.{
  Error, Result, ok, err, World, M, pure, throw, ◌>>=◌, query, execute, statement, now,
  or_not_found, catch,
}
use estuary.Db.Atomic.{Result-cases}
use estuary.Model.{Content, ContentDeal, DealQueue, Location, local_node, shuttle, Store, Config}
use estuary.Model.Lookup.{get_content, content_of}
use estuary.Deal.Check.{
  DealCheck, deal_id_on_chain, sector_on_chain, Answers, Transfer, ChainDeal, Provider, answer,
  check_deal, check_chain, check_with_provider, check_provider, check_expiry, check_waiting,
  check_published, check_transfer, confirm_deal_id, deal_has_expired, give_up, record_failure,
  update_transfer, on_deal, set_transfer, set_channel, after_start, return_error, restart_at,
  restart_transfer,
}

-- What a step must keep: the deal queue, the time and the pattern of failures.
abbrev pub kept : World Store → List DealQueue × (ℕ × (ℕ → Bool))
kept w = (w.store.deal_queue, (w.now, w.fails))

pub record Keeps {A : Type 0} (m : M Store A) : Type 0 where
  pub same : (w : World Store) → kept (m w).1 ≡ kept w

pub pure-Keeps : {A : Type 0} {a : A} → Keeps (pure a)
pure-Keeps = record { same = λ w. refl }

pub throw-Keeps : {A : Type 0} {e : Error} → Keeps (throw {A = A} e)
throw-Keeps = record { same = λ w. refl }

pub now-Keeps : Keeps now
now-Keeps = record { same = λ w. refl }

pub execute-Keeps :
    (f : Store → Store) → ((s : Store) → (f s).deal_queue ≡ s.deal_queue) → Keeps (execute f)
unfolding execute statement
execute-Keeps f k = record {
  same = λ w. elim (Bool-cases (w.fails w.tick)) [
    | inl e ↦ rw e refl
    | inr e ↦ rw (e, k w.store) refl
  ];
}

pub query-Keeps : {A : Type 0} (f : Store → A) → Keeps (query f)
unfolding query statement
query-Keeps f = record {
  same = λ w. elim (Bool-cases (w.fails w.tick)) [ inl e ↦ rw e refl | inr e ↦ rw e refl ];
}

pub >>=-Keeps :
    {A B : Type 0} {m : M Store A} {f : A → M Store B}
    → Keeps m
    → ((a : A) → Keeps (f a))
    → Keeps (m >>= f)
unfolding ◌>>=◌
>>=-Keeps {m = m} h k = record {
  same = λ w. elim (Result-cases (m w).0) [
    | inl (a, p) ↦ rw (p, ◌>>=◌) ((k a).same (m w).1 ∙ h.same w)
    | inr (e, p) ↦ rw (p, ◌>>=◌) (h.same w)
  ];
}

pub if-Keeps :
    {A : Type 0} (b : Bool) {m n : M Store A} → Keeps m → Keeps n → Keeps (if b then m else n)
if-Keeps true h k = h
if-Keeps false h k = k

pub answer-Keeps : {A : Type 0} (r : Result A) → Keeps (answer r)
answer-Keeps (ok a) = pure-Keeps
answer-Keeps (err e) = throw-Keeps

fetched-Keeps : (o : Option Content) → Keeps (or_not_found o)
fetched-Keeps none = throw-Keeps
fetched-Keeps (some c) = pure-Keeps

pub get_content-Keeps : (id : ℕ) → Keeps (get_content id)
unfolding get_content
get_content-Keeps id = >>=-Keeps (query-Keeps (content_of id)) fetched-Keeps

pub record_failure-Keeps : (t : String) → Keeps (record_failure t)
unfolding record_failure
record_failure-Keeps t = execute-Keeps _ (λ s. refl)

give_up-Keeps : (t : String) → Keeps (give_up t)
unfolding give_up
give_up-Keeps t = >>=-Keeps (record_failure-Keeps t) (λ _. pure-Keeps)

pub on_deal-Keeps : (id : ℕ) (f : ContentDeal → ContentDeal) → Keeps (execute (on_deal id f))
on_deal-Keeps id f = execute-Keeps (on_deal id f) (λ s. refl)

pub return_error-Keeps : (o : Option Error) → Keeps (return_error o)
return_error-Keeps none = pure-Keeps
return_error-Keeps (some e) = throw-Keeps

pub after_start-Keeps : (d : ContentDeal) (r : Result String) → Keeps (after_start d r)
unfolding set_channel
after_start-Keeps d (err e) = record_failure-Keeps "start-data-transfer"
after_start-Keeps d (ok chan) = on_deal-Keeps d.id (λ x. record x { dt_chan = some chan })

catch-Keeps :
    {A : Type 0} {m : M Store A} {h : Error → M Store A}
    → Keeps m
    → ((e : Error) → Keeps (h e))
    → Keeps (catch m h)
unfolding catch
catch-Keeps {m = m} {h = h} k l = record {
  same = λ w. elim (Result-cases (m w).0) [
    | inl (a, p) ↦ rw (p, catch) (k.same w)
    | inr (e, p) ↦ rw (p, catch) ((l e).same (m w).1 ∙ k.same w)
  ];
}

-- An update of a deal, and an answer.
mark-Keeps :
    {A : Type 0} (id : ℕ) (f : ContentDeal → ContentDeal) (a : A)
    → Keeps (execute (on_deal id f) >>= λ _. pure a)
mark-Keeps id f a = >>=-Keeps (on_deal-Keeps id f) (λ _. pure-Keeps)

sealed-Keeps :
    (d : ContentDeal) (sealed : Option ℕ)
    → Keeps (elim sealed as (λ _. M Store DealCheck) [
      | some _ ↦ pure sector_on_chain
      | none ↦ now >>= λ t. execute (on_deal d.id (λ x. record x { sealed_at = some t })) >>= λ _.
          pure sector_on_chain
    ])
sealed-Keeps d (some u) = pure-Keeps
sealed-Keeps d none =
    >>=-Keeps now-Keeps
      (λ t. mark-Keeps d.id (λ x. record x { sealed_at = some t }) sector_on_chain)

check_chain-Keeps :
    (d : ContentDeal) (head : ℤ) (deal : Option ChainDeal) → Keeps (check_chain d head deal)
unfolding check_chain
check_chain-Keeps d head none = pure-Keeps
check_chain-Keeps d head (some deal) =
    if-Keeps _
      (>>=-Keeps (on_deal-Keeps d.id (λ x. record x { slashed = true }))
        (λ _. >>=-Keeps (record_failure-Keeps "check-chain-deal") (λ _. pure-Keeps)))
      (if-Keeps _ pure-Keeps (if-Keeps _ (sealed-Keeps d d.sealed_at) pure-Keeps))

update_transfer-Keeps : (d : ContentDeal) (st : Option Transfer) → Keeps (update_transfer d st)
unfolding update_transfer
update_transfer-Keeps d none = pure-Keeps
update_transfer-Keeps d (some st) =
    if-Keeps _ (>>=-Keeps now-Keeps (λ t. on_deal-Keeps d.id (set_transfer d st t))) pure-Keeps

module _ (answers : Answers) (cfg : Config) where
  deal_has_expired-Keeps :
      (d : ContentDeal) (head : ℤ) → Keeps (deal_has_expired answers cfg d head)
  unfolding deal_has_expired
  deal_has_expired-Keeps d head = elim (Result-cases (answers.proposal_record d)) [
    | inl (a, p) ↦ rw (p, deal_has_expired) pure-Keeps
    | inr (e, p) ↦
        rw (p, deal_has_expired) (>>=-Keeps now-Keeps (λ t. if-Keeps _ pure-Keeps throw-Keeps))
  ]

  check_expiry-Keeps : (d : ContentDeal) (head : ℤ) → Keeps (check_expiry answers cfg d head)
  unfolding check_expiry
  check_expiry-Keeps d head =
      >>=-Keeps (deal_has_expired-Keeps d head)
        (λ expired. if-Keeps _ (give_up-Keeps "check-status") pure-Keeps)

  check_transfer-Keeps : (st : Option Transfer) → Keeps (check_transfer answers cfg st)
  unfolding check_transfer
  check_transfer-Keeps none = pure-Keeps
  check_transfer-Keeps (some st) =
      if-Keeps _
        (>>=-Keeps (record_failure-Keeps "data-transfer") (λ _. if-Keeps _ pure-Keeps pure-Keeps))
        pure-Keeps

  restart_at-Keeps : (d : ContentDeal) (l : Location) → Keeps (restart_at answers cfg d l)
  unfolding restart_at
  restart_at-Keeps d local_node =
      if-Keeps (not (answers.has_miner d)) throw-Keeps
        (after_start-Keeps d (answers.start_transfer d))
  restart_at-Keeps d (shuttle h) = return_error-Keeps (answers.start_at_shuttle d (shuttle h))

  restart_transfer-Keeps : (d : ContentDeal) → Keeps (restart_transfer answers cfg d)
  unfolding restart_transfer
  restart_transfer-Keeps d =
      >>=-Keeps (get_content-Keeps d.content) (λ c. restart_at-Keeps d c.location)

  check_waiting-Keeps :
      (d : ContentDeal) (head start : ℤ) (st : Option Transfer)
      → Keeps (check_waiting answers cfg d head start st)
  unfolding check_waiting
  check_waiting-Keeps d head start st = if-Keeps _ (give_up-Keeps "check-status") (
      >>=-Keeps now-Keeps (λ t.
        if-Keeps _
          (if-Keeps _
            (catch-Keeps (>>=-Keeps (restart_transfer-Keeps d) (λ _. pure-Keeps)) (λ e. pure-Keeps))
            pure-Keeps)
          (check_transfer-Keeps st)))

  check_published-Keeps :
      (d : ContentDeal) (head start : ℤ) (cid : ℕ)
      → Keeps (check_published answers cfg d head start cid)
  unfolding check_published
  check_published-Keeps d head start cid = elim (Result-cases (answers.published_id d cid)) [
    | inl (id, p) ↦
        rw (p, check_published) (mark-Keeps d.id (λ x. record x { deal_id = id }) deal_id_on_chain)
    | inr (e, p) ↦ rw (p, check_published) (if-Keeps _ (give_up-Keeps "check-status") pure-Keeps)
  ]

  confirm-Keeps :
      (d : ContentDeal) (content : Content) (id : ℤ)
      → Keeps (confirm_deal_id answers cfg d content id)
  unfolding confirm_deal_id
  confirm-Keeps d content id =
      >>=-Keeps (answer-Keeps (answers.matches_on_chain d content id)) (λ matches.
        if-Keeps _ (mark-Keeps d.id (λ x. record x { deal_id = id }) deal_id_on_chain) pure-Keeps)

  check_provider-Keeps :
      (d : ContentDeal) (content : Content) (head : ℤ) (st : Option Transfer) (p : Provider)
      → Keeps (check_provider answers cfg d content head st p)
  unfolding check_provider
  check_provider-Keeps d content head st p = elim (Option-cases p.proposal_start) [
    | inl e ↦
        rw (e, check_provider)
          (>>=-Keeps now-Keeps (λ t. if-Keeps _ (give_up-Keeps "check-status") pure-Keeps))
    | inr (start, e) ↦ elim (Option-cases p.publish_cid) [
      | inl f ↦
          rw (e, f, check_provider)
            (if-Keeps _ (confirm-Keeps d content p.deal_id) (check_waiting-Keeps d head start st))
      | inr (cid, f) ↦
          rw (e, f, check_provider)
            (if-Keeps _ (confirm-Keeps d content p.deal_id)
              (check_published-Keeps d head start cid))
    ]
  ]

  check_with_provider-Keeps :
      (d : ContentDeal) (content : Content) (head : ℤ) (st : Option Transfer)
      → Keeps (check_with_provider answers cfg d content head st)
  unfolding check_with_provider
  check_with_provider-Keeps d content head st = elim (Result-cases (answers.provider_status d)) [
    | inr (e, p) ↦ rw (p, check_with_provider) (if-Keeps _ throw-Keeps (check_expiry-Keeps d head))
    | inl (found, p) ↦ elim (Option-cases found) [
      | inl e ↦ rw (p, e, check_with_provider) (if-Keeps _ throw-Keeps throw-Keeps)
      | inr (q, e) ↦
          rw (p, e, check_with_provider)
            (if-Keeps _ throw-Keeps (check_provider-Keeps d content head st q))
    ]
  ]

  pub check_deal-Keeps :
      (d : ContentDeal) (content : Content) → Keeps (check_deal answers cfg d content)
  unfolding check_deal
  check_deal-Keeps d content = if-Keeps _ throw-Keeps (
      >>=-Keeps (answer-Keeps (answers.transfer_status d content)) (λ st.
        >>=-Keeps (update_transfer-Keeps d st) (λ _.
          >>=-Keeps (answer-Keeps answers.chain_head) (λ head.
            if-Keeps _ (check_with_provider-Keeps d content head st) (
              >>=-Keeps (answer-Keeps (answers.check_chain_deal d.deal_id))
                (λ deal. check_chain-Keeps d head deal))))))
