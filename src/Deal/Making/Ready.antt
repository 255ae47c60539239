-- ===== src/Deal/Making/Ready.antt =====
-- `CheckContentReadyForDealMaking` of deal/deal.go.
use estuary.Prelude.{ℕ, ltb, Bool, not, ◌||◌, if◌then◌else◌, elem, String, Option, none, some}
use estuary.Prelude.Int.{ℤ, ltb_ℤ}
use estuary.Db.{M, Error, Result, failure, throw, pure, ◌>>=◌, query}
use estuary.Model.{Content, Location, local_node, shuttle, Store, Config}
use estuary.Deal.Check.{answer}
use estuary.Deal.Check.{return_error}

-- The switch for deal making, the shuttles, and what the chain tells of the client's datacap. `padded` is
-- the size that a piece takes on chain.
pub record Readiness : Type 0 where
  pub deal_making_disabled : Bool
  pub is_verified : Bool
  pub is_online : Location → Result Bool
  pub balance : Result (Option ℕ)
  pub padded : ℤ → ℕ

-- `errors.Wrapf` gives no error where it is given none.
abbrev pub wrapf : Option Error → String → Option Error
wrapf none message = none
wrapf (some e) message = some (failure message)

unfoldable pub check_balance : Readiness → Content → Option ℕ → M Store (Unit {0})
check_balance ready content none = throw (failure "verifed deals requires datacap")
check_balance ready content (some available) =
    if ltb available (ready.padded content.size)
    then return_error (wrapf none "client address dataCap is lower than content size")
    else pure tt

unfoldable pub check_datacap : Readiness → Content → M Store (Unit {0})
check_datacap ready content =
    if ready.is_verified then answer ready.balance >>= check_balance ready content else pure tt

unfoldable pub check_shuttle : (Location → Result Bool) → Location → M Store (Unit {0})
check_shuttle is_online local_node = pure tt
check_shuttle is_online (shuttle handle) = answer (is_online (shuttle handle)) >>= λ online.
    if online then pure tt else throw (failure "content shuttle is not online")

unfoldable pub check_blocks : (Location → Result Bool) → Content → M Store (Unit {0})
check_blocks is_online content = query (λ s. elem content.id s.sanity_checks) >>= λ corrupted.
    if corrupted
    then throw (failure "ignored due to missing blocks")
    else check_shuttle is_online content.location

-- Up to the check of the datacap.
unfoldable pub check_state : Bool → (Location → Result Bool) → Config → Content → M Store (Unit {0})
check_state disabled is_online cfg content =
    if not content.active || content.pinning
    then throw (failure "cannot make deals for content that is not pinned")
    else if content.offloaded
    then throw (failure "cannot make more deals for offloaded content, must retrieve first")
    else if ltb_ℤ content.size cfg.min_size
    then throw (failure "below individual deal size threshold")
    else if ltb_ℤ cfg.max_size content.size
    then throw (failure "above individual deal size threshold")
    else if disabled
    then throw (failure "deal making is disabled for now")
    else check_blocks is_online content

unfoldable pub check_content_ready : Readiness → Config → Content → M Store (Unit {0})
check_content_ready ready cfg content =
    check_state ready.deal_making_disabled ready.is_online cfg content >>= λ _.
    check_datacap ready content
