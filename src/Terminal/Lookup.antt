-- ===== src/Terminal/Lookup.antt =====
-- What the look-ups in the tables of terminal settings find.
use lwt_old.Base.{
  ℕ, suc, ◌+◌, ◌<◌, ◌≡◌, refl, sym, ap, inl, inr, Bool, true, false, Bool-cases, ◌==◌, List, [],
  ◌∷◌, some, length, get_elem?, arith,
}
use lwt_old.Base.Int.{pos}
use lwt_old.Terminal.{speedtable, same_bits, find_value, baud_of, speed_of, place}

same_bits-eq : (xs ys : List Bool) → same_bits xs ys ≡ true → xs ≡ ys
unfolding same_bits
same_bits-eq [] [] h = refl
same_bits-eq [] (y ∷ ys) h = cc
same_bits-eq (true ∷ xs) [] h = cc
same_bits-eq (false ∷ xs) [] h = cc
same_bits-eq (true ∷ xs) (true ∷ ys) h = ap (λ r. true ∷ r) (same_bits-eq xs ys h)
same_bits-eq (true ∷ xs) (false ∷ ys) h = cc
same_bits-eq (false ∷ xs) (true ∷ ys) h = cc
same_bits-eq (false ∷ xs) (false ∷ ys) h = ap (λ r. false ∷ r) (same_bits-eq xs ys h)

-- The value that was found stands at the place that was given.
pub find_value-get_elem? :
    (bits : List Bool) (values : List (List Bool)) (i j : ℕ)
    → find_value bits values i ≡ some j
    → (k : ℕ) × (j ≡ i + k) × (k < length values) × (get_elem? values k ≡ some bits)
unfolding find_value
find_value-get_elem? bits [] i j h = cc
find_value-get_elem? bits (v ∷ values) i j h = elim (Bool-cases (same_bits bits v)) [
  | inl same ↦ (0, ground arith, omega arith, ap some (sym (same_bits-eq bits v same)))
  | inr other ↦
      let (k, e, l, g) = find_value-get_elem? bits values (suc i) j (rw other at h) in
      (suc k, omega (arith, e), omega (arith, l), g)
]

pub place-add : (i ofs num : ℕ) → i < num → place (pos (i + ofs)) ofs num ≡ some i
unfolding place
place-add i ofs num h = ground arith

-- A baud rate stands once in the table, so it gives the speed that it came from.
module _ (baud : ℕ) where
  abbrev pub Absent : List (ℕ × ℕ) → Type 0
  Absent [] = Unit {0}
  Absent ((s, b) ∷ table) = ((baud == b) ≡ false) × Absent table

abbrev pub OnceEach : List (ℕ × ℕ) → Type 0
OnceEach [] = Unit {0}
OnceEach ((s, b) ∷ table) = Absent b table × OnceEach table

pub speedtable-OnceEach : OnceEach speedtable
speedtable-OnceEach = ground arith

Absent-baud :
    (s b baud : ℕ) (table : List (ℕ × ℕ))
    → Absent b table
    → baud_of s table ≡ some baud
    → (baud == b) ≡ false
unfolding baud_of
Absent-baud s b baud [] a h = cc
Absent-baud s b baud ((x, c) ∷ table) a h = elim (Bool-cases (s == x)) [
  | inl q ↦ ground (arith, a.0)
  | inr q ↦ Absent-baud s b baud table a.1 (rw q at h)
]

pub speed_of-baud_of :
    (s baud : ℕ) (table : List (ℕ × ℕ))
    → OnceEach table
    → baud_of s table ≡ some baud
    → speed_of baud table ≡ some s
unfolding baud_of speed_of
speed_of-baud_of s baud [] o h = cc
speed_of-baud_of s baud ((x, b) ∷ table) o h = elim (Bool-cases (s == x)) [
  | inl q ↦ ground (arith, o.0)
  | inr q ↦
      let h' : baud_of s table ≡ some baud = rw q at h in
      ground (arith, Absent-baud s b baud table o.0 h', speed_of-baud_of s baud table o.1 h')
]
