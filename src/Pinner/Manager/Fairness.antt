-- ===== src/Pinner/Manager/Fairness.antt =====
-- Which user `popNextPinOp` serves.
use estuary.Prelude.{
  ℕ, ◌≡◌, refl, List, [], ◌∷◌, true, false, arith, inl, inr, Bool-cases, elem, ◌⊎◌,
}
use estuary.Prelude.Int.{ℤ, pos, ltb_ℤ, ◌<ℤ◌, ◌≤ℤ◌}
use estuary.Prelude.Map.{get_or, keys}
use estuary.Pinner.Manager.{Choice, choose_user}

-- What the loop makes of a choice: it keeps the choice, or takes a user of the list with fewer pins
-- in progress; and nobody on the list has fewer than the result.
pub record IsLeast (active counts : List (ℕ × ℤ)) (c r : Choice) : Type 0 where
  pub least : (u : ℕ) → elem u (keys counts) ≡ true → r.min_count ≤ℤ get_or u active (pos 0)
  pub no_more : r.min_count ≤ℤ c.min_count
  pub from :
      (r ≡ c)
      ⊎ ((r.success ≡ true)
          × (elem r.user (keys counts) ≡ true)
          × (r.min_count ≡ get_or r.user active (pos 0))
          × (r.min_count <ℤ c.min_count))

module _ (active counts : List (ℕ × ℤ)) (u : ℕ) (n : ℤ) (c r : Choice) where
  taken :
      ltb_ℤ (get_or u active (pos 0)) c.min_count ≡ true
      → IsLeast active counts
          (record { min_count = get_or u active (pos 0); user = u; success = true })
          r
      → IsLeast active ((u, n) ∷ counts) c r
  taken e l = record {
    least = λ v h. ground (arith, l.least v, l.no_more);
    no_more = ground (arith, l.no_more);
    from = elim l.from [
      | inl same ↦ inr (ground (arith, same))
      | inr other ↦ inr (ground (arith, other))
    ];
  }

  kept :
      ltb_ℤ (get_or u active (pos 0)) c.min_count ≡ false
      → IsLeast active counts c r
      → IsLeast active ((u, n) ∷ counts) c r
  kept e l = record {
    least = λ v h. ground (arith, l.least v, l.no_more);
    no_more = l.no_more;
    from = elim l.from [ inl same ↦ inl same | inr other ↦ inr (ground (arith, other)) ];
  }

-- The loop over the users that have something queued, from any choice: the result is that choice, or a
-- user of the list with fewer pins in progress than the choice has; and no user of the list has fewer
-- than the result.
pub choose_user-IsLeast :
    (active counts : List (ℕ × ℤ)) (c : Choice)
    → IsLeast active counts c (choose_user active counts c)
unfolding choose_user
choose_user-IsLeast active [] c = record {
  least = λ u e. cc;
  no_more = omega arith;
  from = inl refl;
}
choose_user-IsLeast active ((u, n) ∷ counts) c =
    elim (Bool-cases (ltb_ℤ (get_or u active (pos 0)) c.min_count)) [
      | inl e ↦
          rw (e, choose_user) (taken active counts u n c _ e (choose_user-IsLeast active counts _))
      | inr e ↦
          rw (e, choose_user) (kept active counts u n c _ e (choose_user-IsLeast active counts c))
    ]
