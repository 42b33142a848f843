-- ===== src/Calls/Affinity/Order.antt =====
-- The list of processors that `get_affinity` gives for a set that `set_affinity` made.
use lwt_old.Base.{ℕ, suc, ◌≤◌, List, [], ◌∷◌}

-- Every number is above the bound, and below the numbers after it.
abbrev pub Ascends : ℕ → List ℕ → Type 0
Ascends low [] = Unit {0}
Ascends low (x ∷ xs) = (low ≤ x) × Ascends (suc x) xs
