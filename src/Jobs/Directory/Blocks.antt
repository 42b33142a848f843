-- ===== src/Jobs/Directory/Blocks.antt =====
-- Freeing the blocks of a listing, oldest first, off a heap where they were allocated last.
use Prim.Native.String.{String}
use lwt_old.Base.{ℕ, suc, ◌≤◌, ◌<◌, ◌≡◌, refl, ap, true, List, [], ◌∷◌, ◌++◌, arith}
use lwt_old.Base.Outcome.{ok, bind_ok}
use lwt_old.Jobs.{Mem, mem, remove, free}
use lwt_old.Jobs.Directory.{free_all}

-- The blocks of `entries`, the newest on top, above `rest`.
abbrev pub stack : List (ℕ × String) → List ℕ → List ℕ
stack [] rest = rest
stack ((a, n) ∷ entries) rest = stack entries (a ∷ rest)

-- Their addresses rise from `lo` on and stay below `hi`.
abbrev pub Rising : ℕ → List (ℕ × String) → ℕ → Type 0
Rising lo [] hi = lo ≤ hi
Rising lo ((a, n) ∷ entries) hi = (lo ≤ a) × Rising (suc a) entries hi

pub stack-append :
    (entries : List (ℕ × String)) (a : ℕ) (n : String) (rest : List ℕ)
    → stack (entries ++ (a, n) ∷ []) rest ≡ a ∷ stack entries rest
stack-append [] a n rest = refl
stack-append ((b, _) ∷ entries) a n rest = stack-append entries a n (b ∷ rest)

pub Rising-append :
    (entries : List (ℕ × String)) (lo hi : ℕ) (n : String)
    → Rising lo entries hi
    → Rising lo (entries ++ (hi, n) ∷ []) (suc hi)
Rising-append [] lo hi n h = (h, omega arith)
Rising-append ((a, _) ∷ entries) lo hi n h = (h.0, Rising-append entries (suc a) hi n h.1)

pub Rising-suc :
    (entries : List (ℕ × String)) (lo hi : ℕ) → Rising lo entries hi → Rising lo entries (suc hi)
Rising-suc [] lo hi h = omega arith
Rising-suc ((a, _) ∷ entries) lo hi h = (h.0, Rising-suc entries (suc a) hi h.1)

abbrev Above : ℕ → List ℕ → Type 0
Above a [] = Unit {0}
Above a (x ∷ xs) = (a < x) × Above a xs

remove_under :
    (a : ℕ) (xs rest : List ℕ)
    → Above a xs
    → (mem a (xs ++ a ∷ rest) ≡ true) × (remove a (xs ++ a ∷ rest) ≡ xs ++ rest)
unfolding mem remove
remove_under a [] rest h = (ground arith, ground arith)
remove_under a (x ∷ xs) rest h =
    let (found, gone) = remove_under a xs rest h.1 in (ground arith, ground (arith, gone))

remove-stack :
    (a : ℕ) (entries : List (ℕ × String)) (hi : ℕ) (xs rest : List ℕ)
    → Above a xs
    → Rising (suc a) entries hi
    → (mem a (stack entries (xs ++ a ∷ rest)) ≡ true)
      × (remove a (stack entries (xs ++ a ∷ rest)) ≡ stack entries (xs ++ rest))
remove-stack a [] hi xs rest above h = remove_under a xs rest above
remove-stack a ((b, n) ∷ entries) hi xs rest above h =
    remove-stack a entries hi (b ∷ xs) rest (omega arith, above) (weaken entries h)
  where
    weaken : (es : List (ℕ × String)) → Rising (suc a) ((b, n) ∷ es) hi → Rising (suc a) es hi
    weaken [] k = omega arith
    weaken (e ∷ es) k = (omega arith, k.1.1)

free-oldest :
    (a : ℕ) (entries : List (ℕ × String)) (hi : ℕ) (rest : List ℕ) (m : Mem)
    → m.live ≡ stack entries (a ∷ rest)
    → Rising (suc a) entries hi
    → free a m ≡ ok tt (record m { live = stack entries rest })
unfolding free
free-oldest a entries hi rest m e h =
    let (found, gone) = remove-stack a entries hi [] rest tt h in ground (arith, e, found, gone)

pub free_all_lem :
    (entries : List (ℕ × String)) (lo hi : ℕ) (rest : List ℕ) (m : Mem)
    → m.live ≡ stack entries rest
    → Rising lo entries hi
    → free_all entries m ≡ ok tt (record m { live = rest })
unfolding free_all
free_all_lem [] lo hi rest m e h = ap (λ xs. ok tt (record m { live = xs })) e
free_all_lem ((a, n) ∷ entries) lo hi rest m e h =
    bind_ok (free a) _ m (free-oldest a entries hi rest m e h.1)
      (free_all_lem entries (suc a) hi rest (record m { live = stack entries rest }) refl h.1)
