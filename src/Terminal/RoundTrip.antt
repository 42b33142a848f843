-- ===== src/Terminal/RoundTrip.antt =====
-- Decoding what was encoded from a `struct termios` into another one.
use lwt_old.Base.{
  ℕ, suc, ◌+◌, ◌<◌, ◌≡◌, refl, sym, ap, subst, ◌∙◌, Bool, true, false, ◌==◌, ◌&&◌, if◌then◌else◌,
  List, [], ◌∷◌, Option, none, some, update, update_self, update_ne, map, length, get_elem?, arith,
}
use lwt_old.Base.Int.{ℤ, pos}
use lwt_old.Base.Outcome.{done}
use lwt_old.Jobs.{mem}
use lwt_old.Terminal.{
  Word, Termios, Speeds, Field, Direction, Item, bool, enum, speed, char, choose_field, store_field,
  speedtable, write_bits, find_value, baud_of, low_byte, store_value, get_speed, set_speed,
  encode_item, encode_terminal_status, decode_speed, decode_item, decode_terminal_status,
}
use lwt_old.Terminal.Lookup.{find_value-get_elem?, place-add, speedtable-OnceEach, speed_of-baud_of}
use lwt_old.Terminal.Merge.{
  same_field, same_field_self, names_bit, names_char, has_bit, has_char, Merges, store_word,
  update-if, write_bits-if, choose-chars, merge_more,
}

-- The functions of the C library accept the speed that they gave, and change nothing then. The
-- speeds do not hang on the flags of the table and on the control characters.
pub record SteadySpeeds (speeds : Speeds) (table : List Item) : Type 0 where
  pub same_output : (t : Termios) → speeds.cfsetospeed t (speeds.cfgetospeed t) ≡ done t
  pub same_input : (t : Termios) → speeds.cfsetispeed t (speeds.cfgetispeed t) ≡ done t
  pub flags_apart :
      (d : Direction) (t : Termios) (f : Field) (w : Word)
      → ((j : ℕ) → has_bit table f j ≡ false → w j ≡ choose_field f t j)
      → get_speed speeds d (store_field f w t) ≡ get_speed speeds d t
  pub chars_apart :
      (d : Direction) (t : Termios) (c : ℕ → ℕ)
      → get_speed speeds d (record t { c_cc = c }) ≡ get_speed speeds d t

module _ (speeds : Speeds) where
  -- The setting that an entry stands for is one of those that the table has.
  abbrev pub IsKnown : Termios → Item → Type 0
  IsKnown t (bool f k) = Unit {0}
  IsKnown t (enum f ofs bits values) =
      (i : ℕ) × (find_value (map (choose_field f t) bits) values 0 ≡ some i)
  IsKnown t (speed d) = (baud : ℕ) × (baud_of (get_speed speeds d t) speedtable ≡ some baud)
  IsKnown t (char which) = t.c_cc which < 256

  abbrev pub AllKnown : Termios → List Item → Type 0
  AllKnown t [] = Unit {0}
  AllKnown t (item ∷ items) = IsKnown t item × AllKnown t items

  abbrev pub SameSpeeds : Termios → Termios → Type 0
  SameSpeeds t u = (d : Direction) → get_speed speeds d u ≡ get_speed speeds d t

  -- What is stored of `t` for an entry is taken over into `u`, with the result `u'`.
  record Sets (item : Item) (t u : Termios) : Type 0 where
    v : ℤ
    stored : encode_item speeds item t ≡ some v
    u' : Termios
    set : decode_item speeds item v u ≡ done u'
    merged : Merges (names_bit item) (names_char item) t u u'
    kept : SameSpeeds u u'

  abbrev Within : Item → List Item → Type 0
  Within item table = (f : Field) (j : ℕ) → has_bit table f j ≡ false → names_bit item f j ≡ false

  low_byte_small : (n : ℕ) → n < 256 → low_byte (pos n) ≡ n
  unfolding low_byte
  low_byte_small n h = omega (arith, h)

  set_speed_same :
      (table : List Item)
      → SteadySpeeds speeds table
      → (d : Direction) (t : Termios) → set_speed speeds d t (get_speed speeds d t) ≡ done t
  unfolding set_speed get_speed
  set_speed_same table laws Direction.output t = laws.same_output t
  set_speed_same table laws Direction.input t = laws.same_input t

  module _ (table : List Item) (laws : SteadySpeeds speeds table) where
    store_kept :
        (f : Field) (w : Word) (n : ℕ → Bool) (t u : Termios)
        → ((j : ℕ) → w j ≡ (if n j then choose_field f t j else choose_field f u j))
        → ((g : Field) (j : ℕ) → has_bit table g j ≡ false → (same_field f g && n j) ≡ false)
        → SameSpeeds u (store_field f w u)
    store_kept f w n t u h sub d =
        laws.flags_apart d u f w (λ j e.
          let off : n j ≡ false = rw (same_field_self f) at (sub f j e) in h j ∙ rw off refl)

    bit_taken :
        (f : Field) (k : ℕ) (t u : Termios) (b : Bool)
        → choose_field f t k ≡ b
        → (j : ℕ)
        → update (choose_field f u) k b j
          ≡ (if k == j then choose_field f t j else choose_field f u j)
    bit_taken f k t u b e j =
        ap (λ b. update (choose_field f u) k b j) (sym e)
        ∙ update-if (choose_field f t) (choose_field f u) k j

    bool-Sets :
        (f : Field) (k : ℕ) (t u : Termios) (b : Bool)
        → choose_field f t k ≡ b
        → Within (bool f k) table
        → Sets (bool f k) t u
    unfolding encode_item decode_item
    bool-Sets f k t u true e sub =
        let w : Word = update (choose_field f u) k true in
        record {
          v = pos 1;
          stored = ap (λ b. some (pos (if b then 1 else 0))) e;
          u' = store_field f w u;
          set = refl;
          merged = store_word f w (λ j. k == j) t u (bit_taken f k t u true e);
          kept = store_kept f w (λ j. k == j) t u (bit_taken f k t u true e) sub;
        }
    bool-Sets f k t u false e sub =
        let w : Word = update (choose_field f u) k false in
        record {
          v = pos 0;
          stored = ap (λ b. some (pos (if b then 1 else 0))) e;
          u' = store_field f w u;
          set = refl;
          merged = store_word f w (λ j. k == j) t u (bit_taken f k t u false e);
          kept = store_kept f w (λ j. k == j) t u (bit_taken f k t u false e) sub;
        }

    enum-Sets :
        (f : Field) (ofs : ℕ) (bits : List ℕ) (values : List (List Bool)) (t u : Termios) (i : ℕ)
        → find_value (map (choose_field f t) bits) values 0 ≡ some i
        → Within (enum f ofs bits values) table
        → Sets (enum f ofs bits values) t u
    unfolding encode_item decode_item store_value
    enum-Sets f ofs bits values t u i e sub =
        let (k, e', l, g) = find_value-get_elem? (map (choose_field f t) bits) values 0 i e in
        let same : k ≡ i = omega (arith, e') in
        let w : Word = write_bits bits (map (choose_field f t) bits) (choose_field f u) in
        record {
          v = pos (i + ofs);
          stored = rw (e, encode_item) refl;
          u' = store_field f w u;
          set =
              ap (λ o. store_value f bits values o u)
                (place-add i ofs (length values) (omega (arith, e', l)))
              ∙ rw
                  (
                    subst (λ j. get_elem? values j ≡ some (map (choose_field f t) bits)) same g,
                    store_value,
                  )
                  refl;
          merged =
              store_word f w (λ j. mem j bits) t u
                (write_bits-if bits (choose_field f t) (choose_field f u));
          kept =
              store_kept f w (λ j. mem j bits) t u
                (write_bits-if bits (choose_field f t) (choose_field f u)) sub;
        }

    item-Sets :
        (item : Item) (t u : Termios)
        → IsKnown t item
        → SameSpeeds t u
        → Within item table
        → Sets item t u
    unfolding encode_item decode_item
    item-Sets (bool f k) t u known same sub = bool-Sets f k t u (choose_field f t k) refl sub
    item-Sets (enum f ofs bits values) t u (i, e) same sub = enum-Sets f ofs bits values t u i e sub
    item-Sets (speed d) t u (baud, e) same sub = record {
      v = pos baud;
      stored = rw (e, encode_item) refl;
      u' = u;
      set =
          rw
            (
              speed_of-baud_of (get_speed speeds d t) baud speedtable speedtable-OnceEach e,
              decode_speed,
            )
            (subst (λ s. set_speed speeds d u s ≡ done u) (same d) (set_speed_same table laws d u));
      merged = record { flags = λ f k. refl; chars = λ j. refl };
      kept = λ d. refl;
    }
    item-Sets (char which) t u known same sub = record {
      v = pos (t.c_cc which);
      stored = refl;
      u' = record u { c_cc = update u.c_cc which (low_byte (pos (t.c_cc which))) };
      set = refl;
      merged = record {
        flags = λ f k. choose-chars f (update u.c_cc which (low_byte (pos (t.c_cc which)))) u k;
        chars = λ j.
            ap (λ n. update u.c_cc which n j) (low_byte_small (t.c_cc which) known)
            ∙ update-if t.c_cc u.c_cc which j;
      };
      kept = λ d. laws.chars_apart d u (update u.c_cc which (low_byte (pos (t.c_cc which))));
    }

  -- Encoding from `i` on leaves what stands before.
  encode-before :
      (items : List Item) (i j : ℕ) (t : Termios) (dst : ℕ → ℤ)
      → j < i
      → encode_terminal_status speeds items i t dst j ≡ dst j
  unfolding encode_terminal_status
  encode-before [] i j t dst h = refl
  encode-before (item ∷ items) i j t dst h =
      encode-before items (suc i) j t _ (omega (arith, h)) ∙ kept (encode_item speeds item t)
    where
      kept :
          (o : Option ℤ)
          → (elim o as (λ _. ℕ → ℤ) [ none ↦ dst | some v ↦ update dst i v ]) j ≡ dst j
      kept none = refl
      kept (some v) = update_ne dst i v j (λ e. omega (arith, e, h))

  encode-cons :
      (item : Item) (items : List Item) (i : ℕ) (t : Termios) (dst : ℕ → ℤ) (v : ℤ)
      → encode_item speeds item t ≡ some v
      → encode_terminal_status speeds (item ∷ items) i t dst
        ≡ encode_terminal_status speeds items (suc i) t (update dst i v)
  unfolding encode_terminal_status
  encode-cons item items i t dst v e = rw (e, encode_terminal_status) refl

  decode-cons :
      (item : Item) (items : List Item) (i : ℕ) (src : ℕ → ℤ) (t t' : Termios)
      → decode_item speeds item (src i) t ≡ done t'
      → decode_terminal_status speeds (item ∷ items) i src t
        ≡ decode_terminal_status speeds items (suc i) src t'
  unfolding decode_terminal_status
  decode-cons item items i src t t' e = rw (e, decode_terminal_status) refl

  -- What was stored of a terminal all of whose settings the table has is accepted for one with the
  -- same speeds; the result has the first one's settings in the entries and else the second one's.
  pub decode-encode_terminal_status :
      (table : List Item)
      → SteadySpeeds speeds table
      → (items : List Item) (i : ℕ) (t u : Termios) (dst : ℕ → ℤ)
      → ((f : Field) (j : ℕ) → has_bit table f j ≡ false → has_bit items f j ≡ false)
      → AllKnown t items
      → SameSpeeds t u
      → (u' : Termios) × (decode_terminal_status speeds items i
            (encode_terminal_status speeds items i t dst)
            u
          ≡ done u')
        × Merges (has_bit items) (has_char items) t u u'
        × SameSpeeds t u'
  unfolding encode_terminal_status decode_terminal_status
  decode-encode_terminal_status table laws [] i t u dst sub known same =
      (u, refl, record { flags = λ f k. refl; chars = λ j. refl }, same)
  decode-encode_terminal_status table laws (item ∷ items) i t u dst sub known same =
      let s = item-Sets table laws item t u known.0 same (λ f j e. ground (arith, sub f j e)) in
      let src = encode_terminal_status speeds items (suc i) t (update dst i s.v) in
      let here : src i ≡ s.v =
        encode-before items (suc i) i t (update dst i s.v) (omega arith) ∙ update_self dst i s.v in
      let whole : encode_terminal_status speeds (item ∷ items) i t dst ≡ src =
        encode-cons item items i t dst s.v s.stored in
      let (u', d, m, k) =
        decode-encode_terminal_status table laws items (suc i) t s.u' (update dst i s.v)
          (λ f j e. ground (arith, sub f j e)) known.1 (λ d. s.kept d ∙ same d) in
      (
        u',
        subst (λ f. decode_terminal_status speeds (item ∷ items) i f u ≡ done u') (sym whole)
            (decode-cons item items i src u s.u'
                (ap (λ x. decode_item speeds item x u) here ∙ s.set)
              ∙ d),
        merge_more (names_bit item) (has_bit items) (names_char item) (has_char items) t u s.u' u'
            s.merged m,
        k,
      )
