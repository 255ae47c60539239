-- ===== src/Tests/Commitments.antt =====
-- Three contents with one CID, whose piece commitment cannot be computed.
use estuary.Prelude.{ℕ, ◌≡◌, refl, [], ◌∷◌, All, false, none, arith}
use estuary.Db.{ok, err, failure, quiet}
use estuary.Prelude.Int.{pos}
use estuary.Model.{DealQueue, Store}
use estuary.Contents.Commp.{Commitments, commp_due, commp_tick}
use estuary.Contents.Commp.Attempts.{attempts_exhausted}
use estuary.Tests.Tables.{content, database, task}

abbrev no_commitments : Commitments
no_commitments = record {
  generate = λ cid. err (failure "no such block");
  calculate_car_size = λ cid objects. ok 1;
  defined = λ piece. false;
  commp_content = λ l cid. none;
}

abbrev waiting : ℕ → DealQueue
waiting cont = record (task cont false) { cont_cid = 50; commp_done = false }

abbrev shared : Store
shared = record database {
  contents =
      record (content 1 (pos 20)) { cid = 50 } ∷ record (content 2 (pos 20)) { cid = 50 } ∷ [];
  deal_queue = waiting 1 ∷ waiting 2 ∷ waiting 3 ∷ [];
}

attempts_exhausted_example :
    ((commp_tick no_commitments (quiet shared 0 5)).0 ≡ ok tt)
    × ((later : ℕ)
        → All
            (λ (r : DealQueue). r.cont_cid ≡ 50 → commp_due later r ≡ false)
            (commp_tick no_commitments (quiet shared 0 5)).1.store.deal_queue)
attempts_exhausted_example =
    attempts_exhausted no_commitments 50 "no such block" 5 shared 0 (refl, (refl, (refl, tt)))
      (omega arith) (refl, (record (content 1 (pos 20)) { cid = 50 }, (refl, (refl, refl))))
