-- ===== src/Malloc/Tree/Balance.antt =====
-- The red-black invariant: equal black heights, and no red node under a red one.
pub mod Insert
pub mod Delete
use splab.Prelude.{ℕ, ◌+◌, ◌≡◌, false, ◌&&◌, ◌||◌}
use splab.Malloc.Tree.{Tree, null, node, Color, black, red, is_red, color}

abbrev pub weight : Color → ℕ
weight black = 1
weight red = 0

abbrev pub height : Tree → ℕ
height null = 0
height (node c x l r) = weight c + height l

abbrev pub IsRedBlack : Tree → Type 0
IsRedBlack null = Unit
IsRedBlack (node c x l r) =
    (height l ≡ height r)
    × ((is_red c && (is_red (color l) || is_red (color r))) ≡ false)
    × IsRedBlack l
    × IsRedBlack r
