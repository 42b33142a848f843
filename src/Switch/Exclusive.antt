-- ===== src/Switch/Exclusive.antt =====
-- Things that are each in the hands of at most one thread, or in a list of free ones.
use lwt_old.Base.{
  ℕ, suc, ◌<◌, ◌≡◌, ◌≢◌, refl, ap, subst, ◌∙◌, ◌⊎◌, inl, inr, List, [], ◌∷◌, Option, none, some,
  update, Bool-cases, ==_iff, ◌==◌, arith,
}

abbrev pub In : ℕ → List ℕ → Type 0
In k [] = ⊥
In k (x ∷ xs) = (x ≡ k) ⊎ In k xs

abbrev pub NoDup : List ℕ → Type 0
NoDup [] = Unit {0}
NoDup (x ∷ xs) = (¬ In x xs) × NoDup xs

-- `held i` is what the thread `i` has, of the things below `fresh`.
pub record Exclusive (held : ℕ → Option ℕ) (free : List ℕ) (fresh : ℕ) : Type 0 where
  pub apart : (i j k : ℕ) → held i ≡ some k → held j ≡ some k → i ≡ j
  pub below : (i k : ℕ) → held i ≡ some k → k < fresh
  pub not_held : (i k : ℕ) → In k free → held i ≢ some k
  pub free_below : (k : ℕ) → In k free → k < fresh
  pub once : NoDup free

-- What an updated function gives.
update-cases {ℓ} :
    {A : Type ℓ} (f : ℕ → A) (i : ℕ) (v : A) (a : ℕ) {r : A}
    → update f i v a ≡ r
    → ((i ≡ a) × (v ≡ r)) ⊎ ((i ≢ a) × (f a ≡ r))
update-cases f i v a h = elim (Bool-cases (i == a)) [
  | inl e ↦ inl ((==_iff i a).0 e, ground (arith, h, e))
  | inr e ↦ inr (ground (arith, e), ground (arith, h, e))
]

module _ {held : ℕ → Option ℕ} where
  -- The first of the free ones is taken.
  pub taken :
      {k fresh : ℕ} {free : List ℕ} (i : ℕ)
      → Exclusive held (k ∷ free) fresh
      → held i ≡ none
      → Exclusive (update held i (some k)) free fresh
  taken {k} {fresh} {free} i v e = record {
    apart = λ a b x p q.
        ground (arith, v.apart a b x, v.not_held a k (inl refl), v.not_held b k (inl refl));
    below = λ a x p. ground (arith, v.below a x, v.free_below k (inl refl));
    not_held = λ a x n p. elim (update-cases held i (some k) a p) [
      | inl (same, eq) ↦ let kx : x ≡ k = cc eq in v.once.0 (subst (λ y. In y free) kx n)
      | inr (other, h) ↦ v.not_held a x (inr n) h
    ];
    free_below = λ x n. v.free_below x (inr n);
    once = v.once.1;
  }

  -- A thread gives back what it has.
  pub given :
      {k fresh : ℕ} {free : List ℕ} (i : ℕ)
      → Exclusive held free fresh
      → held i ≡ some k
      → Exclusive (update held i none) (k ∷ free) fresh
  given {k} {fresh} i v e = record {
    apart = λ a b x p q. ground (arith, v.apart a b x);
    below = λ a x p. ground (arith, v.below a x);
    not_held = λ a x n p. elim (update-cases held i none a p) [
      | inl (same, eq) ↦ cc
      | inr (other, h) ↦ elim n [
        | inl kx ↦ other (v.apart i a x (e ∙ ap some kx) h)
        | inr m ↦ v.not_held a x m h
      ]
    ];
    free_below = λ x n. elim n [
      | inl kx ↦ subst (λ y. y < fresh) kx (v.below i k e)
      | inr m ↦ v.free_below x m
    ];
    once = (λ n. v.not_held i k n e, v.once);
  }

  -- A thread gets a new one.
  pub made :
      {fresh : ℕ} {free : List ℕ} (i : ℕ)
      → Exclusive held free fresh
      → held i ≡ none
      → Exclusive (update held i (some fresh)) free (suc fresh)
  made {fresh} i v e = record {
    apart = λ a b x p q. ground (arith, v.apart a b x, v.below a fresh, v.below b fresh);
    below = λ a x p. ground (arith, v.below a x);
    not_held = λ a x n p. elim (update-cases held i (some fresh) a p) [
      | inl (same, eq) ↦ ground (arith, eq, v.free_below x n)
      | inr (other, h) ↦ v.not_held a x n h
    ];
    free_below = λ x n. omega (arith, v.free_below x n);
    once = v.once;
  }

  -- A new one is free.
  pub added :
      {fresh : ℕ} {free : List ℕ}
      → Exclusive held free fresh
      → Exclusive held (fresh ∷ free) (suc fresh)
  added {fresh} v = record {
    apart = v.apart;
    below = λ a x p. omega (arith, v.below a x p);
    not_held = λ a x n p. elim n [
      | inl e ↦ absurd (omega (arith, v.below a x p, e))
      | inr m ↦ v.not_held a x m p
    ];
    free_below =
        λ x n. elim n [ inl e ↦ omega (arith, e) | inr m ↦ omega (arith, v.free_below x m) ];
    once = (λ n. omega (arith, v.free_below fresh n), v.once);
  }
