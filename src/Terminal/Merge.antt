-- ===== src/Terminal/Merge.antt =====
-- Which settings the entries of a table stand for, and what it is to take them from one
-- `struct termios` and the others from another.
use lwt_old.Base.{
  ℕ, ◌≡◌, refl, ap, subst, ◌∙◌, inl, inr, ◌⊎◌, Bool, true, false, Bool-cases, ◌==◌, ==_iff, ◌&&◌,
  ◌||◌, if◌then◌else◌, List, [], ◌∷◌, update, map,
}
use lwt_old.Jobs.{mem}
use lwt_old.Terminal.{
  Word, Termios, Field, iflags, oflags, cflags, lflags, Item, bool, enum, speed, char, choose_field,
  store_field, write_bits,
}

abbrev pub same_field : Field → Field → Bool
same_field iflags iflags = true
same_field oflags oflags = true
same_field cflags cflags = true
same_field lflags lflags = true
same_field _ _ = false

-- The bits of an entry, and the place of its control character.
abbrev pub names_bit : Item → Field → ℕ → Bool
names_bit (bool f k) g j = same_field f g && (k == j)
names_bit (enum f ofs bits values) g j = same_field f g && mem j bits
names_bit (speed d) g j = false
names_bit (char which) g j = false

abbrev pub names_char : Item → ℕ → Bool
names_char (bool f k) j = false
names_char (enum f ofs bits values) j = false
names_char (speed d) j = false
names_char (char which) j = which == j

-- The bits and the control characters of a table.
abbrev pub has_bit : List Item → Field → ℕ → Bool
has_bit [] f k = false
has_bit (item ∷ items) f k = names_bit item f k || has_bit items f k

abbrev pub has_char : List Item → ℕ → Bool
has_char [] j = false
has_char (item ∷ items) j = names_char item j || has_char items j

-- The bits of `bit` and the characters of `char` are those of `t`, the others are those of `u`.
pub record Merges (bit : Field → ℕ → Bool) (at_char : ℕ → Bool) (t u u' : Termios) : Type 0 where
  pub flags :
      (f : Field) (k : ℕ)
      → choose_field f u' k ≡ (if bit f k then choose_field f t k else choose_field f u k)
  pub chars : (j : ℕ) → u'.c_cc j ≡ (if at_char j then t.c_cc j else u.c_cc j)

pub same_field_self : (f : Field) → same_field f f ≡ true
same_field_self iflags = refl
same_field_self oflags = refl
same_field_self cflags = refl
same_field_self lflags = refl

choose-store : (f : Field) (w : Word) (t : Termios) → choose_field f (store_field f w t) ≡ w
unfolding choose_field store_field
choose-store iflags w t = refl
choose-store oflags w t = refl
choose-store cflags w t = refl
choose-store lflags w t = refl

pub chars-store : (f : Field) (w : Word) (t : Termios) → (store_field f w t).c_cc ≡ t.c_cc
unfolding store_field
chars-store iflags w t = refl
chars-store oflags w t = refl
chars-store cflags w t = refl
chars-store lflags w t = refl

-- A write to one field leaves the others.
Field-cases :
    (f g : Field)
    → ((f ≡ g) × (same_field f g ≡ true))
      ⊎ ((same_field f g ≡ false)
          × ((w : Word) (t : Termios) → choose_field g (store_field f w t) ≡ choose_field g t))
unfolding choose_field store_field
Field-cases iflags iflags = inl (refl, refl)
Field-cases iflags oflags = inr (refl, λ w t. refl)
Field-cases iflags cflags = inr (refl, λ w t. refl)
Field-cases iflags lflags = inr (refl, λ w t. refl)
Field-cases oflags iflags = inr (refl, λ w t. refl)
Field-cases oflags oflags = inl (refl, refl)
Field-cases oflags cflags = inr (refl, λ w t. refl)
Field-cases oflags lflags = inr (refl, λ w t. refl)
Field-cases cflags iflags = inr (refl, λ w t. refl)
Field-cases cflags oflags = inr (refl, λ w t. refl)
Field-cases cflags cflags = inl (refl, refl)
Field-cases cflags lflags = inr (refl, λ w t. refl)
Field-cases lflags iflags = inr (refl, λ w t. refl)
Field-cases lflags oflags = inr (refl, λ w t. refl)
Field-cases lflags cflags = inr (refl, λ w t. refl)
Field-cases lflags lflags = inl (refl, refl)

-- A word in which the bits of `n` are those of `t` makes such a `struct termios`.
pub store_word :
    (f : Field) (w : Word) (n : ℕ → Bool) (t u : Termios)
    → ((j : ℕ) → w j ≡ (if n j then choose_field f t j else choose_field f u j))
    → Merges (λ g j. same_field f g && n j) (λ j. false) t u (store_field f w u)
store_word f w n t u h = record {
  flags = λ g j. elim (Field-cases f g) [
    | inl (e, s) ↦ rw s (
        subst
          (λ g.
            choose_field g (store_field f w u) j
            ≡ (if n j then choose_field g t j else choose_field g u j))
          e (ap (λ v. v j) (choose-store f w u) ∙ h j))
    | inr (s, k) ↦ rw s (ap (λ v. v j) (k w u))
  ];
  chars = λ j. ap (λ c. c j) (chars-store f w u);
}

pub update-if {ℓ} :
    {A : Type ℓ} (a b : ℕ → A) (k j : ℕ) → update b k (a k) j ≡ (if k == j then a j else b j)
update-if a b k j = elim (Bool-cases (k == j)) [
  | inl q ↦ rw q (ap a ((==_iff k j).0 q))
  | inr q ↦ rw q refl
]

pub write_bits-if :
    (ks : List ℕ) (a b : Word) (j : ℕ)
    → write_bits ks (map a ks) b j ≡ (if mem j ks then a j else b j)
unfolding write_bits mem
write_bits-if [] a b j = refl
write_bits-if (k ∷ ks) a b j =
    write_bits-if ks a (update b k (a k)) j ∙ elim (Bool-cases (k == j)) [
      | inl q ↦
          let e : a k ≡ a j = ap a ((==_iff k j).0 q) in
          elim (Bool-cases (mem j ks)) [ inl r ↦ rw (q, r) refl | inr r ↦ rw (q, r) e ]
      | inr q ↦ rw q refl
    ]

pub choose-chars :
    (f : Field) (c : ℕ → ℕ) (t : Termios) (k : ℕ)
    → choose_field f (record t { c_cc = c }) k ≡ choose_field f t k
unfolding choose_field
choose-chars iflags c t k = refl
choose-chars oflags c t k = refl
choose-chars cflags c t k = refl
choose-chars lflags c t k = refl

pub merge_more :
    (a b : Field → ℕ → Bool) (c e : ℕ → Bool) (t u u1 u2 : Termios)
    → Merges a c t u u1
    → Merges b e t u1 u2
    → Merges (λ f k. a f k || b f k) (λ j. c j || e j) t u u2
merge_more a b c e t u u1 u2 m1 m2 = record {
  flags = λ f k. m2.flags f k ∙ elim (Bool-cases (b f k)) [
    | inl q ↦ elim (Bool-cases (a f k)) [ inl r ↦ rw (q, r) refl | inr r ↦ rw (q, r) refl ]
    | inr q ↦ elim (Bool-cases (a f k)) [
      | inl r ↦ rw (q, r) (m1.flags f k ∙ rw r refl)
      | inr r ↦ rw (q, r) (m1.flags f k ∙ rw r refl)
    ]
  ];
  chars = λ j. m2.chars j ∙ elim (Bool-cases (e j)) [
    | inl q ↦ elim (Bool-cases (c j)) [ inl r ↦ rw (q, r) refl | inr r ↦ rw (q, r) refl ]
    | inr q ↦ elim (Bool-cases (c j)) [
      | inl r ↦ rw (q, r) (m1.chars j ∙ rw r refl)
      | inr r ↦ rw (q, r) (m1.chars j ∙ rw r refl)
    ]
  ];
}
