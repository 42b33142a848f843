-- ===== src/Switch/Invariant.antt =====
-- The threads and the shared state fit, after any step.
use lwt_old.Base.{
  ℕ, suc, ◌≡◌, refl, sym, ap, subst, ◌∙◌, true, false, none, some, update, length, arith,
}
use lwt_old.Switch.{state_blocked, Thread, absent, woken, Signal, reach, vain}
use lwt_old.Switch.Exclusive.{Exclusive, made}
use lwt_old.Switch.Views.{
  frame_of, stack_of, in_call, is_calling, is_asleep, is_woken, View, Good, Good-map, all-update,
  held, update-held, held-same,
}

pub record Core (threads : ℕ → Thread) (v : View) : Type 0 where
  pub good : (i : ℕ) → Good v i (threads i)
  pub main_in : v.main_state ≡ state_blocked → in_call (threads v.main_thread) ≡ true
  pub counted : length v.away ≡ length v.become
  pub frames : Exclusive (held frame_of threads) v.enter v.fresh_frame
  pub stacks : Exclusive (held stack_of threads) v.become v.fresh_stack

-- Where the main thread executes its call and a thread waits, another has been woken.
abbrev pub Wakes : (ℕ → Thread) → ℕ → Type 0
Wakes threads m =
    is_calling (threads m) ≡ true
    → (j : ℕ) → is_asleep (threads j) ≡ true
    → (w : ℕ) × (is_woken (threads w) ≡ true)

module _ {threads : ℕ → Thread} {v : View} (c : Core threads v) where
  pub well_placed : (i : ℕ) {x : Thread} → threads i ≡ x → Good v i x
  well_placed i e = subst (Good v i) e (c.good i)

  module _ (i : ℕ) (x : Thread) where
    -- The main state and the main thread stay, and the thread with them.
    in_call-update :
        in_call (threads i) ≡ in_call x
        → v.main_state ≡ state_blocked
        → in_call (update threads i x v.main_thread) ≡ true
    in_call-update e h = ground (arith, c.main_in h, e)

    -- A move that changes nothing of the shared state.
    pub Core-move :
        frame_of (threads i) ≡ frame_of x
        → stack_of (threads i) ≡ stack_of x
        → in_call (threads i) ≡ in_call x
        → Good v i x
        → Core (update threads i x) v
    Core-move f s e g = record {
      good = all-update threads i x (Good v) (λ j n. c.good j) g;
      main_in = in_call-update e;
      counted = c.counted;
      frames =
          subst (λ h. Exclusive h v.enter v.fresh_frame) (held-same threads i x frame_of f)
            c.frames;
      stacks =
          subst (λ h. Exclusive h v.become v.fresh_stack) (held-same threads i x stack_of s)
            c.stacks;
    }

    -- A new thread, on a new stack.
    pub Core-launch :
        threads i ≡ absent
        → stack_of x ≡ some v.fresh_stack
        → frame_of x ≡ none
        → in_call x ≡ false
        → Good v i x
        → Core (update threads i x) (record v { fresh_stack = suc v.fresh_stack })
    Core-launch e s f b g =
        let v' : View = record v { fresh_stack = suc v.fresh_stack } in
        record {
          good =
              all-update threads i x (Good v')
                (λ j n.
                  Good-map v v' j (threads j) (λ m. (m, (λ h. h), refl, refl, refl)) (λ f h. h)
                    (c.good j))
                (Good-map v v' i x (λ m. (m, (λ h. h), refl, refl, refl)) (λ f h. h) g);
          main_in = in_call-update (ap in_call e ∙ sym b);
          counted = c.counted;
          frames =
              subst (λ h. Exclusive h v.enter v.fresh_frame)
                (held-same threads i x frame_of (ap frame_of e ∙ sym f)) c.frames;
          stacks =
              subst (λ h. Exclusive h v.become (suc v.fresh_stack))
                (ap (update (held stack_of threads) i) (sym s) ∙ update-held threads i x stack_of)
                (made i c.stacks (ap stack_of e));
        }

  pub Core-wake : {threads' : ℕ → Thread} → Signal threads threads' → Core threads' v
  Core-wake (reach j k e) = Core-move j (woken k) (ap frame_of e) (ap stack_of e) (ap in_call e) tt
  Core-wake (vain none_waits) = c
