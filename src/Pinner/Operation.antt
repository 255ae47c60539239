-- ===== src/Pinner/Operation.antt =====
-- pinner/operation/operation.go: one pin that is waiting or in progress. A time is a number, the
-- `time.Now()` of a method is its last argument, and the mutex of the methods makes each of them one
-- step. The fields that no method reads (the object, its name, its peers) are carried along.
use estuary.Prelude.{ℕ, String, Bool, Option, some}

pub data PinningStatus : Type 0 where
  pinning pinned failed queued offloaded : PinningStatus

pub record PinningOperation : Type 0 where
  pub obj : String
  pub name : String
  pub peers : String
  pub meta : String
  pub status : PinningStatus
  pub user_id : ℕ
  pub cont_id : ℕ
  pub replace : ℕ
  pub last_update : ℕ
  pub started : ℕ
  pub fetch_err : Option String
  pub end_time : ℕ
  pub location : String
  pub skip_limiter : Bool
  pub make_deal : Bool

unfoldable pub fail : PinningOperation → String → ℕ → PinningOperation
fail po err now = record po {
  fetch_err = some err;
  end_time = now;
  status = failed;
  last_update = now;
}

unfoldable pub set_status : PinningOperation → PinningStatus → ℕ → PinningOperation
set_status po st now = record po { status = st; last_update = now }

unfoldable pub complete : PinningOperation → ℕ → PinningOperation
complete po now = record po { end_time = now; last_update = now; status = pinned }
