-- ===== src/Packs/Selection.antt =====
-- What the calculator is for: the choices of packs that an order can be filled with, and when a
-- result is the best of them.
use pack_service.Base.{ℕ, ◌+◌, ◌*◌, ◌≤◌, ◌<◌, ◌≡◌, List, [], ◌∷◌, Option, none, some}
use pack_service.Base.{length, ◌∈◌, All}
use pack_service.Base.Int.{ℤ, pos, negsuc, pos_part}
use pack_service.Packs.{Pack, PackResult}

abbrev pub IsPositive : ℤ → Type 0
IsPositive (pos n) = 0 < n
IsPositive (negsuc _) = ⊥

-- A choice of packs: a list of sizes that are on offer, each as often as it stands there.
abbrev pub IsSelection : List ℤ → List ℕ → Type 0
IsSelection sizes chosen = All (λ (n : ℕ). pos n ∈ sizes) chosen

unfoldable pub sum : List ℕ → ℕ
sum [] = 0
sum (x ∷ xs) = x + sum xs

-- `Pack.TotalItems`, for a size that is not negative
abbrev pub total_items_of : Pack → ℕ
total_items_of p = pos_part p.size * p.quantity

unfoldable pub item_count : List Pack → ℕ
item_count [] = 0
item_count (p ∷ ps) = total_items_of p + item_count ps

unfoldable pub pack_count : List Pack → ℕ
pack_count [] = 0
pack_count (p ∷ ps) = p.quantity + pack_count ps

-- A line of a result: some packs of a size that is on offer.
abbrev pub IsLine : List ℤ → Pack → Type 0
IsLine sizes p = (p.size ∈ sizes) × (0 < p.quantity)

-- The result ships the ordered items or more, in packs on offer; no choice of packs ships fewer
-- items and yet enough, and none ships as many items in fewer packs.
pub record IsBest (sizes : List ℤ) (target : ℕ) (r : PackResult) : Type 0 where
  pub ordered : r.ordered_items ≡ pos target
  pub total : r.total_items ≡ pos (item_count r.packs)
  pub enough : target ≤ item_count r.packs
  pub lines : All (IsLine sizes) r.packs
  pub fewest_items :
      (chosen : List ℕ)
      → IsSelection sizes chosen
      → target ≤ sum chosen
      → item_count r.packs ≤ sum chosen
  pub fewest_packs :
      (chosen : List ℕ)
      → IsSelection sizes chosen
      → sum chosen ≡ item_count r.packs
      → pack_count r.packs ≤ length chosen

-- `AtMost c k`: the cell holds a number of packs that is at most `k`.
abbrev pub AtMost : Option ℕ → ℕ → Type 0
AtMost none k = ⊥
AtMost (some n) k = n ≤ k
