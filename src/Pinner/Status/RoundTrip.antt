-- ===== src/Pinner/Status/RoundTrip.antt =====
-- What a content's status is after an update of it.
use estuary.Prelude.{ℕ, suc, ◌≡◌, refl, subst, ◌==◌, false, arith, some, ◌≢◌, ◌∙◌, sym}
use estuary.Db.Run.{bind_ok}
use estuary.Db.{Result, World, ok, quiet, execute, transaction, statement}
use estuary.Model.{Content, Store}
use estuary.Model.Lookup.{content_of, get_content, get_content-quiet, first-update}
use estuary.Pinner.Operation.{PinningStatus, pinned, failed, offloaded}
use estuary.Pinner.Status.{
  update_content_pin_status, write_pin_status, get_content_pinning_status, set_flags,
  update_content, leave_zone,
}

-- A handler ends well, leaves `d` as the content `id`, and the zones as they are.
abbrev pub Leaves : ℕ → Content → Store → Result (Unit {0}) × World Store → Type 0
Leaves id d s r =
    (r.0 ≡ ok tt)
    × ((content_of id r.1.store ≡ some d) × (r.1.store.staging_zones ≡ s.staging_zones))

-- What the handler writes for a content that is no aggregate, if its transaction writes `f`.
write-Leaves :
    (id : ℕ) (c : Content) (status : PinningStatus) (f : Content → Content) (s : Store) (t now : ℕ)
    → content_of id s ≡ some c
    → ((x : Content) → (f x).id ≡ x.id)
    → ((v : World Store)
        → write_pin_status id status c v ≡ transaction (execute (update_content id f)) v)
    → Leaves id (f c) s (update_content_pin_status id status (quiet s t now))
unfolding update_content_pin_status transaction execute statement
write-Leaves id c status f s t now h k l =
    let u = first-update id f s.contents c k h in
    let q =
      bind_ok (get_content id) (write_pin_status id status) (quiet s t now) c (quiet s (suc t) now)
        (get_content-quiet id c s t now h) in
    subst (Leaves id (f c) s) (sym (q ∙ l (quiet s (suc t) now))) (refl, (u, refl))

-- Where no statement fails, a content of no aggregate that is neither active nor offloaded and is no
-- aggregate itself has, once a pinning, failed or queued status is written for it, that very status.
pub update_content_pin_status-get :
    (id : ℕ) (c : Content) (status : PinningStatus) (s : Store) (t now : ℕ)
    → content_of id s ≡ some c
    → c.aggregated_in ≡ 0
    → c.aggregate ≡ false
    → c.active ≡ false
    → c.offloaded ≡ false
    → status ≢ pinned
    → status ≢ offloaded
    → Leaves id (set_flags status c) s (update_content_pin_status id status (quiet s t now))
      × (get_content_pinning_status (set_flags status c) ≡ status)
unfolding write_pin_status
update_content_pin_status-get id c status s t now h a b d e p q = (
  write-Leaves id c status (set_flags status) s t now h (λ x. refl) (λ v. rw (b, a) refl),
  ground arith,
)

-- Where no statement fails, a content that fails to be pinned while it is in an aggregate leaves it with
-- no other change of its row, but the staging zones stay as they are: the zone keeps the size of the content that left.
pub failed_keeps_zone_size :
    (id : ℕ) (c : Content) (s : Store) (t now : ℕ)
    → content_of id s ≡ some c
    → c.aggregated_in ≢ 0
    → c.aggregate ≡ false
    → Leaves id
        (record c { aggregated_in = 0 })
        s
        (update_content_pin_status id failed (quiet s t now))
unfolding write_pin_status
failed_keeps_zone_size id c s t now h a b =
    let nz : (c.aggregated_in == 0) ≡ false = ground (arith, a) in
    write-Leaves id c failed leave_zone s t now h (λ x. refl) (λ v. rw (b, nz) refl)
