-- ===== src/JobQueue/Links.antt =====
-- Chains that run through a field of the jobs, and what a write to one cell does to them.
use lwt_old.Base.{ℕ, ◌≡◌, refl, sym, ◌∙◌, ◌≢◌, List, [], ◌∷◌, ◌++◌, update, update_ne}

-- From `p` the field leads through `xs`, and the last cell reached is `q`.
abbrev pub Links : (ℕ → ℕ) → ℕ → List ℕ → ℕ → Type 0
Links next p [] q = p ≡ q
Links next p (x ∷ xs) q = (next p ≡ x) × Links next x xs q

abbrev pub Fresh : ℕ → List ℕ → Type 0
Fresh a [] = Unit {0}
Fresh a (x ∷ xs) = (a ≢ x) × Fresh a xs

abbrev pub Distinct : List ℕ → Type 0
Distinct [] = Unit {0}
Distinct (x ∷ xs) = Fresh x xs × Distinct xs

Fresh-append : (a b : ℕ) (xs : List ℕ) → Fresh a xs → a ≢ b → Fresh a (xs ++ b ∷ [])
Fresh-append a b [] f h = (h, tt)
Fresh-append a b (x ∷ xs) f h = (f.0, Fresh-append a b xs f.1 h)

pub Distinct-append : (a : ℕ) (xs : List ℕ) → Fresh a xs → Distinct xs → Distinct (xs ++ a ∷ [])
Distinct-append a [] f d = (tt, tt)
Distinct-append a (x ∷ xs) f d =
    (Fresh-append x a xs d.0 (λ e. f.0 (sym e)), Distinct-append a xs f.1 d.1)

pub Links-append :
    (next : ℕ → ℕ) (p : ℕ) (xs : List ℕ) (q r : ℕ)
    → Links next p xs q
    → next q ≡ r
    → Links next p (xs ++ r ∷ []) r
Links-append next p [] q r l e = (rw l e, refl)
Links-append next p (x ∷ xs) q r l e = (l.0, Links-append next x xs q r l.1 e)

-- The chain ends in a cell of its list, so a fresh cell is another.
pub Links-ne_last :
    (next : ℕ → ℕ) (a p : ℕ) (xs : List ℕ) (q : ℕ) → Links next p xs q → a ≢ p → Fresh a xs → a ≢ q
Links-ne_last next a p [] q l h f = λ e. h (e ∙ sym l)
Links-ne_last next a p (x ∷ xs) q l h f = Links-ne_last next a x xs q l.1 f.0 f.1

pub Links-update-Fresh :
    (next : ℕ → ℕ) (a v p : ℕ) (xs : List ℕ) (q : ℕ)
    → a ≢ p
    → Fresh a xs
    → Links next p xs q
    → Links (update next a v) p xs q
Links-update-Fresh next a v p [] q h f l = l
Links-update-Fresh next a v p (x ∷ xs) q h f l =
    (update_ne next a v p h ∙ l.0, Links-update-Fresh next a v x xs q f.0 f.1 l.1)

-- The chain reads no cell at its end.
pub Links-update_last :
    (next : ℕ → ℕ) (v p : ℕ) (xs : List ℕ) (q : ℕ)
    → Distinct (p ∷ xs)
    → Links next p xs q
    → Links (update next q v) p xs q
Links-update_last next v p [] q d l = l
Links-update_last next v p (x ∷ xs) q d l = (
  update_ne next q v p (λ e. Links-ne_last next p x xs q l.1 d.0.0 d.0.1 (sym e)) ∙ l.0,
  Links-update_last next v x xs q d.1 l.1,
)
