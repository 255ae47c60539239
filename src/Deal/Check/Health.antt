-- ===== src/Deal/Check/Health.antt =====
-- What the check of a deal on chain vouches for.
use estuary.Prelude.{◌≡◌, refl, true, Bool-cases, inl, inr, arith, Option, Option-cases, none, some}
use estuary.Prelude.Int.{ℤ, pos, ◌-ℤ◌, ◌≤ℤ◌, ltb_ℤ}
use estuary.Db.{ok, World, execute, now}
use estuary.Db.Gives.{Gives, pure-Gives, >>=-Gives, any-Gives}
use estuary.Model.{ContentDeal, Store}
use estuary.Deal.Check.{
  DealCheck, unknown, progress, deal_id_on_chain, sector_on_chain, nearly_expired, slashed,
  ChainDeal, check_chain, min_safe_deal_lifetime, record_failure, on_deal,
}

-- The deal on chain is not slashed and lives long enough from the height `head` on.
abbrev pub IsHealthy : ChainDeal → ℤ → Type 0
IsHealthy deal head =
    (deal.slash_epoch ≤ℤ pos 0) × (min_safe_deal_lifetime ≤ℤ (deal.end_epoch -ℤ head))

-- What a status vouches for: a deal that counts as published or sealed is healthy on chain.
abbrev pub Vouches : Option ChainDeal → ℤ → DealCheck → Type 0
Vouches answered head deal_id_on_chain =
    (deal : ChainDeal) × (answered ≡ some deal) × IsHealthy deal head
Vouches answered head sector_on_chain =
    (deal : ChainDeal) × (answered ≡ some deal) × IsHealthy deal head
Vouches answered head progress = ⊥
Vouches answered head unknown = Unit
Vouches answered head nearly_expired = Unit
Vouches answered head slashed = Unit

chain-Vouches :
    (d : ContentDeal) (head : ℤ) (answered : Option ChainDeal)
    → Gives (check_chain d head answered) (Vouches answered head)
unfolding check_chain
chain-Vouches d head none = pure-Gives (Vouches none head) unknown tt
chain-Vouches d head (some deal) = elim (Bool-cases (ltb_ℤ (pos 0) deal.slash_epoch)) [
  | inl e ↦ rw e (
      >>=-Gives (λ _. Unit) (Vouches (some deal) head)
        (execute (on_deal d.id (λ x. record x { slashed = true }))) _
        (any-Gives (execute (on_deal d.id (λ x. record x { slashed = true }))))
        (λ _ _.
          >>=-Gives (λ _. Unit) (Vouches (some deal) head) (record_failure "check-chain-deal") _
            (any-Gives (record_failure "check-chain-deal"))
            (λ _ _. pure-Gives (Vouches (some deal) head) slashed tt)))
  | inr e ↦ elim (Bool-cases (ltb_ℤ (deal.end_epoch -ℤ head) min_safe_deal_lifetime)) [
    | inl f ↦ rw (e, f) (pure-Gives (Vouches (some deal) head) nearly_expired tt)
    | inr f ↦
        let good : IsHealthy deal head = (ground (arith, e), ground (arith, f)) in
        elim (Bool-cases (ltb_ℤ (pos 0) deal.sector_start_epoch)) [
          | inr g ↦
              rw (e, f, g)
                (pure-Gives (Vouches (some deal) head) deal_id_on_chain (deal, refl, good))
          | inl g ↦ elim (Option-cases d.sealed_at) [
            | inr (u, z) ↦
                rw (e, f, g, z)
                  (pure-Gives (Vouches (some deal) head) sector_on_chain (deal, refl, good))
            | inl z ↦
                rw (e, f, g, z)
                  (>>=-Gives (λ _. Unit) (Vouches (some deal) head) now _ (any-Gives now)
                    (λ t _.
                      >>=-Gives (λ _. Unit) (Vouches (some deal) head)
                        (execute (on_deal d.id (λ x. record x { sealed_at = some t }))) _
                        (any-Gives (execute (on_deal d.id (λ x. record x { sealed_at = some t }))))
                        (λ _ _.
                          pure-Gives (Vouches (some deal) head) sector_on_chain
                            (deal, refl, good))))
          ]
        ]
  ]
]

-- Whichever statements fail: a deal with an id on chain whose check ends well is never just in progress,
-- and it counts as published or sealed only if the chain knows it, it is not slashed, and it does not end
-- within three weeks from the chain's height.
pub check_chain-Vouches :
    (d : ContentDeal) (head : ℤ) (answered : Option ChainDeal) (w : World Store)
    (status : DealCheck)
    → (check_chain d head answered w).0 ≡ ok status
    → Vouches answered head status
check_chain-Vouches d head answered w status e = chain-Vouches d head answered w status e
