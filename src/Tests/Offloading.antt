-- ===== src/Tests/Offloading.antt =====
-- Offloading: of three candidates, two cover the request.
use estuary.Prelude.{ℕ, ◌≡◌, refl, [], ◌∷◌, List, inl, inr, arith}
use estuary.Prelude.Int.{pos}
use estuary.Model.{Content}
use estuary.Contents.Offloading.{grab, offload_contents}
use estuary.Contents.Offloading.Choice.{Grabs, grab-Grabs}
use estuary.Contents.Offloading.Blocks.{offload_contents-blocks}
use estuary.Tests.Tables.{content, today}

abbrev candidates : List (Content × ℕ)
candidates = (content 1 (pos 20), 3) ∷ (content 2 (pos 90), 4) ∷ (content 3 (pos 4), 5) ∷ []

takes_two : (grab (pos 50) candidates).0 ≡ content 1 (pos 20) ∷ content 2 (pos 90) ∷ []
takes_two = refl

grab-Grabs_example : Grabs (pos 50) candidates (grab (pos 50) candidates)
grab-Grabs_example = grab-Grabs (pos 50) candidates (omega arith)

offload_contents-blocks_example :
    (offload_contents (1 ∷ []) today).1.store.blocks ≡ today.store.blocks
offload_contents-blocks_example =
    offload_contents-blocks (1 ∷ []) today (inl refl, (inr (inl refl), (inr (inr (inl refl)), tt)))
