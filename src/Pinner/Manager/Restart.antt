-- ===== src/Pinner/Manager/Restart.antt =====
-- pinner/pinmgr.go: newPinManager, which finds its queue again from its files. What goque and leveldb
-- read there is an argument: the values of the files, none when they cannot be opened, and
-- `PrefixQueueCount`. The prefixes are the users' numbers.
use estuary.Prelude.{
  ℕ, ◌^◌, ◌<◌, ◌≡◌, refl, ◌∙◌, ap, ◌==◌, ltb, Bool, true, false, Bool-cases, inl, inr, ◌||◌,
  if◌then◌else◌, List, [], ◌∷◌, All, elem, length, Option, none, some, arith,
}
use estuary.Prelude.Int.{ℤ, pos, ◌<ℤ◌}
use estuary.Prelude.Map.{get_or, get_or-insert, lookup, lookup-insert, insert, insert-Values, keys}
use estuary.Pinner.Operation.{PinningOperation}
use estuary.Pinner.Block.{int64}
use estuary.Pinner.Queue.{PinQueue}
use estuary.Pinner.Manager.{PinManager}
use estuary.Pinner.Manager.Counts.{IsPositive}
use estuary.Pinner.Manager.Invariant.{Counted}

abbrev pub guard_entry : Option PinningOperation → List (ℕ × Bool) → List (ℕ × Bool)
guard_entry none guard = guard
guard_entry (some po) guard = insert po.cont_id true guard

unfoldable pub count_entries : List (ℕ × ℕ) → List (ℕ × ℤ) → Option (List (ℕ × ℤ))
count_entries [] m = some m
count_entries ((u, n) ∷ es) m =
    let rest = count_entries es (insert u (int64 n) m) in if ltb u (2 ^ 32) then rest else none

-- A prefix that is no 32-bit number is `log.Fatal`.
abbrev pub build_pin_queue_count : List (ℕ × ℕ) → Option (List (ℕ × ℤ))
build_pin_queue_count es = count_entries es []

int64_small : (n : ℕ) → n < 2 ^ 63 → int64 n ≡ pos n
int64_small n h = ground arith

module _ (q : PinQueue) where
  unfoldable pub guard_entries : List q.Bytes → List (ℕ × Bool) → List (ℕ × Bool)
  guard_entries [] guard = guard
  guard_entries (b ∷ bs) guard = guard_entries bs (guard_entry (q.decode b) guard)

  abbrev pub build_duplicate_guard : Option (List q.Bytes) → List (ℕ × Bool)
  build_duplicate_guard none = []
  build_duplicate_guard (some bs) = guard_entries bs []

  abbrev pub started : ℤ → Option (List q.Bytes) → q.Queue → List (ℕ × ℤ) → PinManager q
  started max files queue counts = record {
    duplicate_guard = build_duplicate_guard files;
    active_pins = [];
    pin_queue_count = counts;
    pin_queue = queue;
    max_active_per_user = max;
  }

  -- `newPinManager` after its checks of the options; none is `log.Fatal`.
  abbrev pub new_pin_manager :
      ℤ → Option (List q.Bytes) → q.Queue → List (ℕ × ℕ) → Option (PinManager q)
  new_pin_manager max files queue es = elim (build_pin_queue_count es) [
    | none ↦ none
    | some m ↦ some (started max files queue m)
  ]

  -- The content of an encoded operation.
  abbrev is_content : ℕ → Option PinningOperation → Bool
  is_content id none = false
  is_content id (some po) = po.cont_id == id

  abbrev pub mentions : ℕ → List q.Bytes → Bool
  mentions id [] = false
  mentions id (b ∷ bs) = is_content id (q.decode b) || mentions id bs

  lookup-guard_entry :
      (id : ℕ) (o : Option PinningOperation) (guard : List (ℕ × Bool))
      → lookup id (guard_entry o guard) ≡ (if is_content id o then some true else lookup id guard)
  lookup-guard_entry id none guard = refl
  lookup-guard_entry id (some po) guard = lookup-insert po.cont_id id true guard

  lookup-guard_entries :
      (id : ℕ) (bs : List q.Bytes) (guard : List (ℕ × Bool))
      → lookup id (guard_entries bs guard) ≡ (if mentions id bs then some true else lookup id guard)
  unfolding guard_entries
  lookup-guard_entries id [] guard = refl
  lookup-guard_entries id (b ∷ bs) guard = ground (
    arith,
    lookup-guard_entries id bs (guard_entry (q.decode b) guard),
    lookup-guard_entry id (q.decode b) guard,
  )

  -- What `PrefixQueueCount` gives: the lengths of the queues that have something, which are below 2 ^ 63,
  -- with users below 2 ^ 32.
  abbrev pub Fits : q.Queue → ℕ × ℕ → Type 0
  Fits queue e =
      (e.1 ≡ length (q.items queue e.0)) × ((0 < e.1) × ((e.1 < 2 ^ 63) × (e.0 < 2 ^ 32)))

  pub record Lists (queue : q.Queue) (es : List (ℕ × ℕ)) : Type 0 where
    pub lengths : All (Fits queue) es
    pub whole : (u : ℕ) → 0 < length (q.items queue u) → elem u (keys es) ≡ true

  -- The count of a user in the map after the entries.
  abbrev Counts : q.Queue → List (ℕ × ℕ) → List (ℕ × ℤ) → List (ℕ × ℤ) → Type 0
  Counts queue es m m' =
      (u : ℕ)
      → get_or u m' (pos 0)
        ≡ (if elem u (keys es) then pos (length (q.items queue u)) else get_or u m (pos 0))

  Counts-∷ :
      (queue : q.Queue) (u n : ℕ) (es : List (ℕ × ℕ)) (m m' : List (ℕ × ℤ))
      → Fits queue (u, n)
      → Counts queue es (insert u (int64 n) m) m'
      → Counts queue ((u, n) ∷ es) m m'
  Counts-∷ queue u n es m m' (same, (_, (small, _))) h v = elim (Bool-cases (u == v)) [
    | inl e ↦
        let w : u ≡ v = ground (arith, e) in
        let c : int64 n ≡ pos (length (q.items queue v)) =
          int64_small n small ∙ ap pos (same ∙ ap (λ i. length (q.items queue i)) w) in
        ground (arith, h v, get_or-insert u v (int64 n) (pos 0) m, e, c)
    | inr e ↦ ground (arith, h v, get_or-insert u v (int64 n) (pos 0) m, e)
  ]

  int64_positive : (n : ℕ) → 0 < n → n < 2 ^ 63 → pos 0 <ℤ int64 n
  int64_positive n p s = rw (int64_small n s) (ground (arith, p))

  count_entries-Counts :
      (queue : q.Queue) (es : List (ℕ × ℕ)) (m : List (ℕ × ℤ))
      → All (Fits queue) es
      → IsPositive m
      → (m' : List (ℕ × ℤ)) × ((count_entries es m ≡ some m')
          × (IsPositive m' × Counts queue es m m'))
  unfolding count_entries
  count_entries-Counts queue [] m h p = (m, (refl, (p, λ u. refl)))
  count_entries-Counts queue ((u, n) ∷ es) m (k, h) p =
      let (m', (e, (p', c))) =
        count_entries-Counts queue es (insert u (int64 n) m) h
          (insert-Values (λ n. pos 0 <ℤ n) u (int64 n) m (int64_positive n k.1.0 k.1.1.0) p) in
      (m', (ground (arith, e, k.1.1.1), (p', Counts-∷ queue u n es m m' k c)))

  empty_queue :
      (queue : q.Queue) (es : List (ℕ × ℕ)) (u : ℕ)
      → Lists queue es
      → elem u (keys es) ≡ false
      → length (q.items queue u) ≡ 0
  empty_queue queue es u h e = elim (Bool-cases (ltb 0 (length (q.items queue u)))) [
    | inl l ↦ absurd (ground (arith, h.whole u (ground (arith, l)), e))
    | inr l ↦ ground (arith, l)
  ]

  started-exact :
      (queue : q.Queue) (es : List (ℕ × ℕ)) (m : List (ℕ × ℤ))
      → Lists queue es
      → Counts queue es [] m
      → (u : ℕ) → get_or u m (pos 0) ≡ pos (length (q.items queue u))
  unfolding get_or
  started-exact queue es m h c u = elim (Bool-cases (elem u (keys es))) [
    | inl e ↦ ground (arith, c u, e)
    | inr e ↦ ground (arith, c u, e, empty_queue queue es u h e)
  ]

  -- A manager as it should start: its counts are the lengths of the queues, its guard has the contents of
  -- the operations in the files and no other, and nothing is active.
  pub record Restored (bs : List q.Bytes) (queue : q.Queue) (pm : PinManager q) : Type 0 where
    counts : Counted pm
    same_queue : pm.pin_queue ≡ queue
    guard : (id : ℕ) → lookup id pm.duplicate_guard ≡ (if mentions id bs then some true else none)
    idle : pm.active_pins ≡ []

  -- Where the files can be read and the queue lists the lengths of its parts, a manager starts, and it is
  -- restored: its counts are the lengths of the durable queues, its guard has exactly the contents of
  -- the operations in the files, and nothing is active.
  pub new_pin_manager-Restored :
      (max : ℤ) (bs : List q.Bytes) (queue : q.Queue) (es : List (ℕ × ℕ))
      → Lists queue es
      → (pm : PinManager q) × ((new_pin_manager max (some bs) queue es ≡ some pm)
          × Restored bs queue pm)
  unfolding lookup
  new_pin_manager-Restored max bs queue es h =
      let (m, (e, (p, c))) = count_entries-Counts queue es [] h.lengths tt in
      (
        started max (some bs) queue m,
        (
          rw (e, new_pin_manager) refl,
          record {
            counts = record { exact = started-exact queue es m h c; positive = p };
            same_queue = refl;
            guard = λ id. lookup-guard_entries id bs [];
            idle = refl;
          },
        ),
      )
