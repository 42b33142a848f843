-- ===== src/Switch/Steps.antt =====
-- Every step keeps the invariant.
use lwt_old.Base.{
  ℕ, zero, suc, ◌≡◌, ◌≢◌, refl, sym, ap, ◌∙◌, inl, inr, Bool, true, false, List, [], ◌∷◌, Option,
  none, update, arith, update_self, update_ne, Bool-cases, ◌==◌,
}
use lwt_old.Switch.{
  state_running, Thread, absent, running, inside, passed, ready, allocating, taking, called,
  blocked, calling, resuming, leaving, executing, entering, asleep, woken, Process, Signal, reach,
  vain, MainStep, fall_back, come_back, pass, launch, fail, queue_up, ensure, ensured, no_frame,
  some_frame, alloc_new_stack, take_frame, re_add, CallStep, mark_blocked, signal, succeed, leave,
  jump, WorkerStep, finish, take_over, take_over_woken, take_now, take_woken, sleep, wait_again,
  wake, Step, main_step, call_step, worker_step, only_main, init, Reach, start, later,
}
use lwt_old.Switch.Exclusive.{Exclusive}
use lwt_old.Switch.Views.{
  frame_of, stack_of, in_call, is_calling, is_asleep, is_woken, View, view, Main, Good, held,
  all-update,
}
use lwt_old.Switch.Invariant.{Core, Wakes, well_placed, Core-move, Core-launch, Core-wake}
use lwt_old.Switch.Moves.{
  remove, Core-alloc, Core-take, Core-give, Core-mark, Core-succeed, Core-leave, Core-take_over,
}

pub record Inv (s : Process) : Type 0 where
  pub away : List ℕ
  pub core : Core s.threads (view s away)
  pub wakes : Wakes s.threads s.main_thread

not_calling :
    (v : View) (i : ℕ) (x : Thread)
    → Good v i x
    → i ≡ v.main_thread
    → v.main_state ≡ state_running
    → is_calling x ≡ true
    → ⊥
not_calling v i (calling job f) g m r h = cc (sym (g.0 m) ∙ r)
not_calling v i absent g m r h = cc
not_calling v i running g m r h = cc
not_calling v i (inside job) g m r h = cc
not_calling v i (passed job) g m r h = cc
not_calling v i (ready job) g m r h = cc
not_calling v i (allocating job) g m r h = cc
not_calling v i (taking job) g m r h = cc
not_calling v i (called job f) g m r h = cc
not_calling v i (blocked job f) g m r h = cc
not_calling v i (resuming f) g m r h = cc
not_calling v i (leaving f k) g m r h = cc
not_calling v i (executing job k) g m r h = cc
not_calling v i (entering k) g m r h = cc
not_calling v i (asleep k) g m r h = cc
not_calling v i (woken k) g m r h = cc

-- While the main thread runs, it executes no call.
while_running :
    {s : Process} (away : List ℕ)
    → Core s.threads (view s away)
    → s.main_state ≡ state_running
    → Inv s
while_running {s} away c r = record {
  away = away;
  core = c;
  wakes = λ h. absurd (not_calling (view s away) s.main_thread _ (c.good s.main_thread) refl r h);
}

asleep_at : (x : Thread) → is_asleep x ≡ true → (k : ℕ) × (x ≡ asleep k)
asleep_at (asleep k) h = (k, refl)
asleep_at absent h = cc
asleep_at running h = cc
asleep_at (inside job) h = cc
asleep_at (passed job) h = cc
asleep_at (ready job) h = cc
asleep_at (allocating job) h = cc
asleep_at (taking job) h = cc
asleep_at (called job f) h = cc
asleep_at (blocked job f) h = cc
asleep_at (calling job f) h = cc
asleep_at (resuming f) h = cc
asleep_at (leaving f k) h = cc
asleep_at (executing job k) h = cc
asleep_at (entering k) h = cc
asleep_at (woken k) h = cc

Wakes-signal : {threads threads' : ℕ → Thread} (m : ℕ) → Signal threads threads' → Wakes threads' m
Wakes-signal {threads} m (reach j k e) h a b = (j, ap is_woken (update_self threads j (woken k)))
Wakes-signal {threads} m (vain n) h a b = let (k, e) = asleep_at (threads a) b in absurd (n a k e)

-- A test that a thread has not after its move, and one that it had not before.
test_before :
    (p : Thread → Bool) (threads : ℕ → Thread) (i j : ℕ) (x : Thread)
    → p x ≡ false
    → p (update threads i x j) ≡ true
    → p (threads j) ≡ true
test_before p threads i j x n h = elim (Bool-cases (i == j)) [
  | inl e ↦ ground (arith, e, h, n)
  | inr e ↦ ground (arith, e, h)
]

test_after :
    (p : Thread → Bool) (threads : ℕ → Thread) (i j : ℕ) (x : Thread)
    → p (threads i) ≡ false
    → p (threads j) ≡ true
    → p (update threads i x j) ≡ true
test_after p threads i j x n h =
    all-update threads i x (λ a y. p (threads a) ≡ true → p y ≡ true) (λ a other b. b) (λ b. cc) j h

Wakes-update :
    (threads : ℕ → Thread) (m i : ℕ) (x : Thread)
    → Wakes threads m
    → is_woken (threads i) ≡ false
    → is_asleep x ≡ false
    → is_calling x ≡ false
    → Wakes (update threads i x) m
Wakes-update threads m i x wakes n a c h j b =
    let (w, p) =
      wakes (test_before is_calling threads i m x c h) j
        (test_before is_asleep threads i j x a b) in
    (w, test_after is_woken threads i w x n p)

module _ {s : Process} (v : Inv s) (i : ℕ) where
  -- The thread moves, and the shared state stays.
  Core-go :
      {old : Thread} (x : Thread)
      → s.threads i ≡ old
      → frame_of old ≡ frame_of x
      → stack_of old ≡ stack_of x
      → in_call old ≡ in_call x
      → Good (view s v.away) i x
      → Core (update s.threads i x) (view s v.away)
  Core-go x e f k b g =
      Core-move v.core i x (ap frame_of e ∙ f) (ap stack_of e ∙ k) (ap in_call e ∙ b) g

  MainStep-Inv : {t : Process} → MainStep i s t → Inv t
  MainStep-Inv (fall_back e r) =
      let m : Main (view s v.away) i = well_placed v.core i e in
      while_running v.away (Core-go (inside _) e refl refl refl m) m.1
  MainStep-Inv (come_back e) =
      let m : Main (view s v.away) i = well_placed v.core i e in
      while_running v.away (Core-go running e refl refl refl m) m.1
  MainStep-Inv (pass e r) =
      let m : Main (view s v.away) i = well_placed v.core i e in
      while_running v.away (Core-go (passed _) e refl refl refl m) m.1
  MainStep-Inv (launch {job} j e n a) =
      let m : Main (view s v.away) i = well_placed v.core i e in
      let other : i ≢ j = λ same. cc (sym e ∙ ap s.threads same ∙ a) in
      while_running v.away
        (Core-launch (Core-go running e refl refl refl m) j (executing job s.fresh_stack)
          (update_ne s.threads i running j other ∙ a) refl refl refl tt)
        m.1
  MainStep-Inv (fail e n) =
      let m : Main (view s v.away) i = well_placed v.core i e in
      while_running v.away (Core-go running e refl refl refl m) m.1
  MainStep-Inv (queue_up e n sig) =
      let m : Main (view s v.away) i = well_placed v.core i e in
      while_running v.away (Core-wake (Core-go running e refl refl refl m) sig) m.1
  MainStep-Inv (ensure {job} j e n a) =
      let m : Main (view s v.away) i = well_placed v.core i e in
      let other : i ≢ j = λ same. cc (sym e ∙ ap s.threads same ∙ a) in
      while_running v.away
        (Core-launch (Core-go (ready job) e refl refl refl m) j (entering s.fresh_stack)
          (update_ne s.threads i (ready job) j other ∙ a) refl refl refl tt)
        m.1
  MainStep-Inv (ensured e n) =
      let m : Main (view s v.away) i = well_placed v.core i e in
      while_running v.away (Core-go (ready _) e refl refl refl m) m.1
  MainStep-Inv (no_frame e l) =
      let m : Main (view s v.away) i = well_placed v.core i e in
      while_running v.away (Core-go (allocating _) e refl refl refl m) m.1
  MainStep-Inv (some_frame e l) =
      let m : Main (view s v.away) i = well_placed v.core i e in
      while_running v.away (Core-go (taking _) e refl refl refl (m, l)) m.1
  MainStep-Inv (alloc_new_stack e) =
      let m : Main (view s v.away) i = well_placed v.core i e in
      while_running v.away (Core-alloc v.core i e) m.1
  MainStep-Inv (take_frame e l) =
      let m : Main (view s v.away) i × (s.blocking_call_enter ≢ []) = well_placed v.core i e in
      while_running v.away (Core-take v.core i e l) m.0.1
  MainStep-Inv (re_add e) =
      let m : Main (view s v.away) i = well_placed v.core i e in
      while_running v.away
        (Core-give v.core i running (ap frame_of e) refl (ap stack_of e) (ap in_call e) m) m.1

  CallStep-Inv : {t : Process} → CallStep i s t → Inv t
  CallStep-Inv (mark_blocked e) = record {
    away = v.away;
    core = Core-mark v.core i e;
    wakes = Wakes-update s.threads s.main_thread i _ v.wakes (ap is_woken e) refl refl;
  }
  CallStep-Inv (signal {job} {frame} e sig) = record {
    away = v.away;
    core = Core-wake (Core-go (calling job frame) e refl refl refl (well_placed v.core i e)) sig;
    wakes = Wakes-signal s.main_thread sig;
  }
  CallStep-Inv (succeed e m) = while_running v.away (Core-succeed v.core i e m) refl
  CallStep-Inv (leave {job} {frame} {node} e m l) = record {
    away = remove i v.away;
    core = Core-leave v.core i e m l;
    wakes =
        Wakes-update s.threads s.main_thread i (leaving frame node) v.wakes (ap is_woken e) refl
          refl;
  }
  CallStep-Inv (jump {frame} {node} e) = record {
    away = v.away;
    core =
        Core-give v.core i (entering node) (ap frame_of e) refl (ap stack_of e) (ap in_call e) tt;
    wakes =
        Wakes-update s.threads s.main_thread i (entering node) v.wakes (ap is_woken e) refl refl;
  }

  WorkerStep-Inv : {t : Process} → WorkerStep i s t → Inv t
  WorkerStep-Inv (finish {job} {k} e) = record {
    away = v.away;
    core = Core-go (entering k) e refl refl refl tt;
    wakes = Wakes-update s.threads s.main_thread i (entering k) v.wakes (ap is_woken e) refl refl;
  }
  WorkerStep-Inv (take_over e b) =
      while_running (s.main_thread ∷ v.away)
        (Core-take_over v.core i (ap stack_of e) (ap frame_of e) (ap in_call e) b) refl
  WorkerStep-Inv (take_over_woken e b) =
      while_running (s.main_thread ∷ v.away)
        (Core-take_over v.core i (ap stack_of e) (ap frame_of e) (ap in_call e) b) refl
  WorkerStep-Inv (take_now {k} {job} e r d) =
      while_running v.away (Core-go (executing job k) e refl refl refl tt) r
  WorkerStep-Inv (take_woken {k} {job} e r d) =
      while_running v.away (Core-go (executing job k) e refl refl refl tt) r
  WorkerStep-Inv (sleep {k} e r d) = while_running v.away (Core-go (asleep k) e refl refl refl tt) r
  WorkerStep-Inv (wait_again {k} e r d) =
      while_running v.away (Core-go (asleep k) e refl refl refl tt) r
  WorkerStep-Inv (wake {k} e) = record {
    away = v.away;
    core = Core-go (woken k) e refl refl refl tt;
    wakes = λ h j b. (i, ap is_woken (update_self s.threads i (woken k)));
  }

Step-Inv : {s t : Process} → Inv s → Step s t → Inv t
Step-Inv v (main_step i st) = MainStep-Inv v i st
Step-Inv v (call_step i st) = CallStep-Inv v i st
Step-Inv v (worker_step i st) = WorkerStep-Inv v i st

no_thing :
    (f : Thread → Option ℕ) → f running ≡ none → f absent ≡ none → (i : ℕ) → f (only_main i) ≡ none
unfolding only_main
no_thing f r a zero = r
no_thing f r a (suc i) = a

nothing_held :
    (f : Thread → Option ℕ) → f running ≡ none → f absent ≡ none → Exclusive (held f only_main) [] 0
nothing_held f r a = record {
  apart = λ i j k p q. cc (sym (no_thing f r a i) ∙ p);
  below = λ i k p. cc (sym (no_thing f r a i) ∙ p);
  not_held = λ i k n p. elim n [ ];
  free_below = λ k n. elim n [ ];
  once = tt;
}

init-Inv : (size : ℕ) (links : ℕ → ℕ) → Inv (init size links)
unfolding only_main
init-Inv size links =
    while_running []
      (record {
        good = good_init;
        main_in = λ h. cc;
        counted = refl;
        frames = nothing_held frame_of refl refl;
        stacks = nothing_held stack_of refl refl;
      })
      refl
  where
    good_init : (i : ℕ) → Good (view (init size links) []) i (only_main i)
    good_init zero = (refl, refl)
    good_init (suc i) = tt

pub Reach-Inv : {size : ℕ} {links : ℕ → ℕ} {s : Process} → Reach size links s → Inv s
Reach-Inv {size} {links} start = init-Inv size links
Reach-Inv (later r st) = Step-Inv (Reach-Inv r) st
