-- ===== src/Shuttle/Rpc/Completion.antt =====
-- A pin that a shuttle reports as complete.
use estuary.Prelude.{ℕ, ◌≡◌, refl, List, [], ◌∷◌, Option, none, some}
use estuary.Db.{World, Error, err, pure}
use estuary.Db.Atomic.{
  Atomic, >>=-Atomic, query-ReadOnly, if-Atomic, execute-Atomic, throw-Atomic, transaction-Atomic,
}
use estuary.Model.{Content, Location, Config, Store, shuttle}
use estuary.Model.Lookup.{content_of}
use estuary.Pinner.Block.{Node, add_objects_to_database}
use estuary.Shuttle.Rpc.{
  PinComplete, pin_aggregate, pin_found, pin_looked_up, handle_pinning_complete,
}

pin_aggregate-Atomic :
    (cfg : Config) (cont : Content) (cid : ℕ) (objects : List Node) (loc : Location)
    → Atomic (pin_aggregate cfg cont cid objects loc)
unfolding pin_aggregate
pin_aggregate-Atomic cfg cont cid [] loc = throw-Atomic _
pin_aggregate-Atomic cfg cont cid (o ∷ []) loc = transaction-Atomic _
pin_aggregate-Atomic cfg cont cid (o ∷ o' ∷ objects) loc = throw-Atomic _

pure-Atomic : Atomic {S = Store} (pure {A = Unit {0}} tt)
pure-Atomic w e h = refl

pin_looked_up-Atomic :
    (cfg : Config) (handle : ℕ) (p : PinComplete) (c : Option Content)
    → Atomic (pin_looked_up cfg handle p c)
unfolding pin_found add_objects_to_database
pin_looked_up-Atomic cfg handle p none = pure-Atomic
pin_looked_up-Atomic cfg handle p (some cont) = if-Atomic cont.active _ _ (execute-Atomic _) (
    if-Atomic cont.aggregate _ _ (pin_aggregate-Atomic cfg cont p.cid p.objects (shuttle handle))
      (transaction-Atomic _))

-- When the message that a pin is complete ends in an error, whatever fails, the store is as it was.
pub handle_pinning_complete-Atomic :
    (cfg : Config) (handle : ℕ) (p : PinComplete) (w : World Store) (e : Error)
    → (handle_pinning_complete cfg handle p w).0 ≡ err e
    → (handle_pinning_complete cfg handle p w).1.store ≡ w.store
unfolding handle_pinning_complete
handle_pinning_complete-Atomic cfg handle p =
    >>=-Atomic _ (pin_looked_up cfg handle p) (query-ReadOnly (content_of p.db_id))
      (pin_looked_up-Atomic cfg handle p)
