-- ===== src/Contents/Offloading/Choice.antt =====
-- The contents that are chosen to free space.
use estuary.Prelude.{ℕ, ◌≡◌, ◌⊎◌, refl, inl, inr, Bool-cases, List, [], ◌∷◌, ◌++◌, map, arith, ap}
use estuary.Prelude.Int.{ℤ, pos, negsuc, ◌+ℤ◌, ◌-ℤ◌, ◌≤ℤ◌, ◌<ℤ◌, leb_ℤ}
use estuary.Model.{Content}
use estuary.Contents.Offloading.{grab}

-- The sizes of contents, added to a number.
abbrev pub plus_sizes : ℤ → List Content → ℤ
plus_sizes n [] = n
plus_sizes n (c ∷ cs) = plus_sizes n cs +ℤ c.size

-- The requested space is covered by the choice, and not without its last content.
pub record Covers (request : ℤ) (chosen : List Content) (remaining : ℤ) : Type 0 where
  enough : remaining ≤ℤ pos 0
  before_last : List Content
  last : Content
  ends : chosen ≡ before_last ++ last ∷ []
  needed : pos 0 <ℤ remaining +ℤ last.size

-- A choice from the candidates: it is a first part of them, what remains is what the sizes of the
-- chosen leave of the request, and either the request is covered, or everything is chosen.
pub record Grabs (request : ℤ) (offs : List (Content × ℕ)) (g : List Content × ℤ) : Type 0 where
  others : List Content
  first_part : map (λ o. o.0) offs ≡ g.0 ++ others
  account : plus_sizes g.1 g.0 ≡ request
  enough : Covers request g.0 g.1 ⊎ (others ≡ [])

back : (n k : ℤ) → (n -ℤ k) +ℤ k ≡ n
back (pos n) (pos k) = ground arith
back (pos n) (negsuc k) = ground arith
back (negsuc n) (pos k) = ground arith
back (negsuc n) (negsuc k) = ground arith

-- The last one covers what was left before it.
module _ (request : ℤ) (c : Content) where
  head_covers :
      (request -ℤ c.size) ≤ℤ pos 0 → pos 0 <ℤ request → Covers request (c ∷ []) (request -ℤ c.size)
  head_covers h k = record {
    enough = h;
    before_last = [];
    last = c;
    ends = refl;
    needed = rw (back request c.size) k;
  }

-- The loop of `ClearUnused` takes candidates in their order until the request is covered, and no
-- content more than is needed for it, or takes all of them. What it reports as freed is the sum of the
-- sizes of those. Something must have been requested.
pub grab-Grabs :
    (request : ℤ) (offs : List (Content × ℕ))
    → pos 0 <ℤ request
    → Grabs request offs (grab request offs)
grab-Grabs request [] h = record {
  others = [];
  first_part = refl;
  account = refl;
  enough = inr refl;
}
grab-Grabs request ((c, t) ∷ offs) h = elim (Bool-cases (leb_ℤ (request -ℤ c.size) (pos 0))) [
  | inl e ↦ rw e (record {
    others = map (λ o. o.0) offs;
    first_part = refl;
    account = back request c.size;
    enough = inl (head_covers request c (ground (arith, e)) h);
  })
  | inr e ↦ rw e (
      let g = grab-Grabs (request -ℤ c.size) offs (ground (arith, e)) in
      record {
        others = g.others;
        first_part = ap (λ l. c ∷ l) g.first_part;
        account = rw g.account (back request c.size);
        enough = elim g.enough [
          | inr none ↦ inr none
          | inl k ↦ inl (record {
            enough = k.enough;
            before_last = c ∷ k.before_last;
            last = k.last;
            ends = ap (λ l. c ∷ l) k.ends;
            needed = k.needed;
          })
        ];
      })
]
