-- ===== src/Condition/Waiters.antt =====
-- No wakeup is lost: the list of waiters holds just the threads that wait for a signal.
use lwt_old.Base.{
  ℕ, ◌≡◌, ◌≢◌, refl, sym, ap, ap₂, subst, ◌∙◌, inl, inr, Bool, true, false, ◌&&◌, not, List, [],
  ◌∷◌, Option, none, some, update, update_ne, update_self, Bool-cases, ◌==◌, ==_iff, arith,
}
use lwt_old.Jobs.{mem}
use lwt_old.Condition.{
  Thread, outside, waiting, broadcasting, advancing, Condition, Step, wait, wake, signal,
  signal_none, Calm, start, later,
}

-- The list from a pointer on, through `next`.
abbrev Chain : (ℕ → Option ℕ) → Option ℕ → List ℕ → Type 0
Chain next w [] = w ≡ none
Chain next w (x ∷ xs) = (w ≡ some x) × Chain next (next x) xs

abbrev NoDup : List ℕ → Type 0
NoDup [] = Unit {0}
NoDup (x ∷ xs) = (mem x xs ≡ false) × NoDup xs

abbrev is_waiting : Thread → Bool
is_waiting waiting = true
is_waiting _ = false

Chain-update :
    (next : ℕ → Option ℕ) (i : ℕ) (v w : Option ℕ) (xs : List ℕ)
    → mem i xs ≡ false
    → Chain next w xs
    → Chain (update next i v) w xs
unfolding mem
Chain-update next i v w [] n h = h
Chain-update next i v w (x ∷ xs) n (e, h) =
    let other : i ≢ x = ground (arith, n) in
    (
      e,
      subst (λ y. Chain (update next i v) y xs) (sym (update_ne next i v x other))
          (Chain-update next i v (next x) xs (ground (arith, n)) h),
    )

record Inv (s : Condition) : Type 0 where
  xs : List ℕ
  chain : Chain s.next s.waiters xs
  once : NoDup xs
  listed : (j : ℕ) → mem j xs ≡ (is_waiting (s.threads j) && not (s.event j))
  free : s.busy ≡ false

and_false : (b : Bool) → (b && false) ≡ false
and_false true = refl
and_false false = refl

shut-update :
    (t : Thread) (event : ℕ → Bool) (node x : ℕ)
    → node ≡ x
    → (is_waiting t && not (update event node true x)) ≡ false
shut-update t event node x e =
    ap (λ y. is_waiting t && not (update event node true y)) (sym e)
    ∙ ap (λ y. is_waiting t && not y) (update_self event node true)
    ∙ and_false (is_waiting t)

Step-Inv : {s : Condition} (i : ℕ) {t : Condition} → Inv s → Step i s t → Inv t
unfolding mem
Step-Inv {s} i v (wait e b) =
    let absent : mem i v.xs ≡ false = v.listed i ∙ ap (λ x. is_waiting x && not (s.event i)) e in
    record {
      xs = i ∷ v.xs;
      chain = (
        refl,
        subst (λ y. Chain (update s.next i s.waiters) y v.xs) (sym (update_self s.next i s.waiters))
            (Chain-update s.next i s.waiters s.waiters v.xs absent v.chain),
      );
      once = (absent, v.once);
      listed = λ j. ground (arith, v.listed j);
      free = v.free;
    }
Step-Inv {s} i v (wake e b) = record {
  xs = v.xs;
  chain = v.chain;
  once = v.once;
  listed = λ j. ground (arith, v.listed j, e, b);
  free = v.free;
}
Step-Inv {s} i v (signal node e b w) = popped v.xs v.chain v.once v.listed
  where
    popped :
        (xs : List ℕ)
        → Chain s.next s.waiters xs
        → NoDup xs
        → ((j : ℕ) → mem j xs ≡ (is_waiting (s.threads j) && not (s.event j)))
        → Inv (record s { waiters = s.next node; event = update s.event node true })
    popped [] c once listed = cc (sym c ∙ w)
    popped (x ∷ xs) (c, rest) once listed =
        let same : x ≡ node = cc (sym c ∙ w) in
        record {
          xs = xs;
          chain = subst (λ y. Chain s.next (s.next y) xs) same rest;
          once = once.1;
          listed = λ j. elim (Bool-cases (x == j)) [
            | inl e ↦
                let here : x ≡ j = (==_iff x j).0 e in
                subst
                  (λ a. mem a xs ≡ (is_waiting (s.threads a) && not (update s.event node true a)))
                  here (once.0 ∙ sym (shut-update (s.threads x) s.event node x (sym same)))
            | inr e ↦ ground (arith, listed j, e, same)
          ];
          free = v.free;
        }
Step-Inv i v (signal_none e b w) = v

Calm-Inv : {s : Condition} → Calm s → Inv s
unfolding mem
Calm-Inv start = record { xs = []; chain = refl; once = tt; listed = λ j. refl; free = refl }
Calm-Inv (later i r st) = Step-Inv i (Calm-Inv r) st

-- The first of the list waits for a signal.
first :
    {s : Condition} (v : Inv s) (xs : List ℕ) (j : ℕ)
    → v.xs ≡ xs
    → mem j xs ≡ true
    → (node : ℕ) × (s.waiters ≡ some node)
      × ((is_waiting (s.threads node) && not (s.event node)) ≡ true)
unfolding mem
first v [] j e h = cc
first {s} v (x ∷ xs) j e h =
    let c : Chain s.next s.waiters (x ∷ xs) = subst (Chain s.next s.waiters) e v.chain in
    (x, c.0, sym (v.listed x) ∙ ap (mem x) e ∙ ground arith)

waits : (x : Thread) (b : Bool) → (is_waiting x && not b) ≡ true → (x ≡ waiting) × (b ≡ false)
waits waiting true h = cc
waits waiting false h = (refl, refl)
waits outside b h = cc
waits (broadcasting w) b h = cc
waits (advancing n) b h = cc

module _ {s : Condition} (r : Calm s) where
  -- In every state that is reached by waiting and by signals, the list of the waiters holds just the
  -- threads that wait and whose event is not set.
  Calm-Chain :
      (xs : List ℕ) × Chain s.next s.waiters xs
      × ((j : ℕ) → mem j xs ≡ (is_waiting (s.threads j) && not (s.event j)))
  Calm-Chain = let v = Calm-Inv r in (v.xs, v.chain, v.listed)

  -- In such a state, if some thread waits and its event is not set, then a signal, by any thread
  -- that does not wait, reads the node of a thread that waits and whose event is not set, and sets
  -- that event.
  pub Calm-signal :
      {i j : ℕ}
      → s.threads j ≡ waiting
      → s.event j ≡ false
      → s.threads i ≡ outside
      → (node : ℕ) × (t : Condition) × (s.threads node ≡ waiting)
        × (s.event node ≡ false)
        × Step i s t
        × (t.event node ≡ true)
  Calm-signal {i} {j} a b o =
      let v = Calm-Inv r in
      let (node, w, h) =
        first v v.xs j refl (v.listed j ∙ ap₂ (λ x y. is_waiting x && not y) a b) in
      let (n, m) = waits (s.threads node) (s.event node) h in
      (node, _, n, m, signal node o v.free w, update_self s.event node true)
