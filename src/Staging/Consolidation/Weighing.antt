-- ===== src/Staging/Consolidation/Weighing.antt =====
-- The loop that weighs the contents of a zone by their locations.
use estuary.Prelude.{
  ℕ, ◌≡◌, refl, sym, ap, subst, ◌∙◌, ◌&&◌, List, [], ◌∷◌, Bool, true, Bool-cases, inl, inr, arith,
  none, some, ◌⊎◌, if◌then◌else◌, ==_iff, ◌++◌,
}
use estuary.Prelude.Int.{ℤ, pos, ◌<ℤ◌, ◌≤ℤ◌, ltb_ℤ, ◌+ℤ◌, negsuc}
use estuary.Db.{Result, ok}
use estuary.Db.Atomic.{Result-cases}
use estuary.Model.{Content, Location, local_node, shuttle, same_location}
use mathlib.Core.List.{append_assoc, append-nil}
use estuary.Staging.Consolidation.{Choice, weigh, prefer, consider, weigh_all, data_at}

-- The data of contents at a location.
abbrev pub size_at : Location → List Content → ℤ
size_at l [] = pos 0
size_at l (c ∷ cs) = (if same_location c.location l then c.size else pos 0) +ℤ size_at l cs

-- A destination that the shuttle manager lets take contents, which is never the primary node, and whose
-- size is the data that the first ones of the contents have there.
abbrev pub IsDestination : (ℕ → Result Bool) → List Content → Choice → Type 0
IsDestination can_add contents s =
    (s.dst_location ≡ none)
    ⊎ ((h : ℕ) × ((s.dst_location ≡ some (shuttle h))
          × ((can_add h ≡ ok true)
              × ((pos 0 <ℤ s.cur_max)
                  × ((before : List Content) × ((after : List Content) × ((contents
                            ≡ before ++ after)
                          × (s.cur_max ≡ size_at (shuttle h) before))))))))

-- The loop has gone over the contents `seen`.
pub record Sound (can_add : ℕ → Result Bool) (seen : List Content) (s : Choice) : Type 0 where
  pub sizes : (l : Location) → data_at l s.data_by_loc ≡ size_at l seen
  pub chosen : IsDestination can_add seen s
  pub nonneg : pos 0 ≤ℤ s.cur_max

pub same_location_lem : (k l : Location) → same_location k l ≡ true → k ≡ l
same_location_lem local_node local_node h = refl
same_location_lem (shuttle a) (shuttle b) h = ap shuttle ((==_iff a b).0 h)
same_location_lem local_node (shuttle b) h = absurd (ground (arith, h))
same_location_lem (shuttle a) local_node h = absurd (ground (arith, h))

pub zero_first : (a : ℤ) → a +ℤ pos 0 ≡ pos 0 +ℤ a
zero_first (pos a) = ground arith
zero_first (negsuc a) = ground arith

pub add_zero : (a : ℤ) → a +ℤ pos 0 ≡ a
add_zero (pos a) = ground arith
add_zero (negsuc a) = ground arith

add_assoc : (a b c : ℤ) → a +ℤ (b +ℤ c) ≡ (a +ℤ b) +ℤ c
add_assoc (pos a) (pos b) (pos c) = ground arith
add_assoc (pos a) (pos b) (negsuc c) = ground arith
add_assoc (pos a) (negsuc b) (pos c) = ground arith
add_assoc (pos a) (negsuc b) (negsuc c) = ground arith
add_assoc (negsuc a) (pos b) (pos c) = ground arith
add_assoc (negsuc a) (pos b) (negsuc c) = ground arith
add_assoc (negsuc a) (negsuc b) (pos c) = ground arith
add_assoc (negsuc a) (negsuc b) (negsuc c) = ground arith

size_at_next :
    (l : Location) (c : Content) (seen : List Content)
    → size_at l (seen ++ c ∷ [])
      ≡ size_at l seen +ℤ (if same_location c.location l then c.size else pos 0)
size_at_next l c [] = zero_first (if same_location c.location l then c.size else pos 0)
size_at_next l c (d ∷ seen) =
    let n = if same_location d.location l then d.size else pos 0 in
    ap (λ z. n +ℤ z) (size_at_next l c seen)
    ∙ add_assoc n (size_at l seen) (if same_location c.location l then c.size else pos 0)

-- A prefix of what was seen is one of what is seen later.
later :
    {can_add : ℕ → Result Bool} (seen more : List Content) (s : Choice)
    → IsDestination can_add seen s
    → IsDestination can_add (seen ++ more) s
later seen more s (inl e) = inl e
later seen more s (inr (h, (d, (a, (p, (before, (after, (q, n)))))))) = inr (
  h,
  (
    d,
    (
      a,
      (p, (before, (after ++ more, (ap (λ l. l ++ more) q ∙ append_assoc before after more, n)))),
    ),
  ),
)

module _ (can_add : ℕ → Result Bool) where
  weigh-Sound :
      (c : Content) (seen : List Content) (s : Choice)
      → Sound can_add seen s
      → Sound can_add (seen ++ c ∷ []) (weigh c s)
  weigh-Sound c seen s k = record {
    sizes = λ l. sizes_next l;
    chosen = later seen (c ∷ []) s k.chosen;
    nonneg = k.nonneg;
  }
    where
      sizes_next : (l : Location) → data_at l (weigh c s).data_by_loc ≡ size_at l (seen ++ c ∷ [])
      sizes_next l = elim (Bool-cases (same_location c.location l)) [
        | inl e ↦
            rw (size_at_next l c seen, e)
              (ap (λ z. z +ℤ c.size)
                (ap (λ m. data_at m s.data_by_loc) (same_location_lem c.location l e) ∙ k.sizes l))
        | inr e ↦ rw (size_at_next l c seen, e) (k.sizes l ∙ sym (add_zero (size_at l seen)))
      ]

  prefer-Sound :
      (h : ℕ) (can : Bool) (seen : List Content) (s : Choice)
      → can_add h ≡ ok can
      → Sound can_add seen s
      → Sound can_add seen (prefer (shuttle h) can s)
  prefer-Sound h can seen s p k =
      elim (Bool-cases (ltb_ℤ s.cur_max (data_at (shuttle h) s.data_by_loc) && can)) [
        | inr e ↦ rw e k
        | inl e ↦
            let more : pos 0 <ℤ data_at (shuttle h) s.data_by_loc = ground (arith, e, k.nonneg) in
            let yes : can ≡ true = ground (arith, e) in
            rw e (record {
              sizes = k.sizes;
              chosen = inr (
                h,
                (
                  refl,
                  (
                    subst (λ b. can_add h ≡ ok b) yes p,
                    (more, (seen, ([], (sym (append-nil seen), k.sizes (shuttle h))))),
                  ),
                ),
              );
              nonneg = omega (arith, more);
            })
      ]

  -- The value of a step that went well.
  same_ok :
      (seen : List Content) (s s' : Choice)
      → Sound can_add seen s
      → ok s ≡ ok s'
      → Sound can_add seen s'
  same_ok seen s s' k e = let p : s ≡ s' = ground (arith, e) in subst (Sound can_add seen) p k

  consider-Sound :
      (l : Location) (seen : List Content) (s s' : Choice)
      → Sound can_add seen s
      → consider can_add l s ≡ ok s'
      → Sound can_add seen s'
  unfolding consider
  consider-Sound local_node seen s s' k e = same_ok seen s s' k e
  consider-Sound (shuttle h) seen s s' k e = elim (Result-cases (can_add h)) [
    | inr (d, p) ↦ absurd (ground (arith, p, e))
    | inl (can, p) ↦
        same_ok seen (prefer (shuttle h) can s) s' (prefer-Sound h can seen s p k)
          (sym (rw (p, consider) refl) ∙ e)
  ]

  pub weigh_all-Sound :
      (contents seen : List Content) (s s' : Choice)
      → Sound can_add seen s
      → weigh_all can_add contents s ≡ ok s'
      → Sound can_add (seen ++ contents) s'
  unfolding weigh_all
  weigh_all-Sound [] seen s s' k e =
      subst (λ l. Sound can_add l s') (sym (append-nil seen)) (same_ok seen s s' k e)
  weigh_all-Sound (c ∷ contents) seen s s' k e =
      elim (Result-cases (consider can_add c.location (weigh c s))) [
        | inr (d, p) ↦ absurd (ground (arith, p, e))
        | inl (m, p) ↦
            subst (λ l. Sound can_add l s') (append_assoc seen (c ∷ []) contents)
              (weigh_all-Sound contents (seen ++ c ∷ []) m s'
                (consider-Sound c.location (seen ++ c ∷ []) (weigh c s) m (weigh-Sound c seen s k)
                  p)
                (sym (rw (p, weigh_all) refl) ∙ e))
      ]
