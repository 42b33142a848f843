-- ===== src/Events/Examples.antt =====
-- A loop that holds the watchers that were started, and the theorems at a run of it.
use lwt_old.Base.{
  ℕ, ◌≡◌, ◌≢◌, refl, subst, ◌⊎◌, inl, inr, Bool, true, false, not, ◌&&◌, ◌==◌, ==_iff,
  if◌then◌else◌, Bool-cases, List, [], ◌∷◌, Option, none, some, arith,
}
use lwt_old.Base.Outcome.{ok}
use lwt_old.Jobs.{mem}
use lwt_old.Events.{
  ev_read, Libev, Loop, Watcher, on_timer, io_init, timer_init, new_watcher, store_callback,
  loop_once, unloop, invoke, init_loop, Reach, start, io, timer, looped, unlooped,
}
use lwt_old.Events.Documented.{IsDocumented, callback_of, is_some, stop_of}
use lwt_old.Events.Safety.{Reach-called, Reach-stopped}

-- The watchers that are active, and those of them that are pending.
abbrev Watched : Type 0
Watched = (ℕ → Bool) × List ℕ

abbrev active : (ℕ → Bool) → ℕ → Bool → ℕ → Bool
active f w b v = if w == v then b else f v

-- The pending watchers up to the first that is not active.
abbrev first_active : (ℕ → Bool) → List ℕ → Option (ℕ × Watched)
first_active f [] = none
first_active f (w ∷ ws) = if f w then some (w, (f, ws)) else none

-- Waiting makes the watcher 0 pending.
abbrev libev : Libev
libev = record {
  Watched = Watched;
  empty = (λ w. false, []);
  ev_io_start = λ fd event w l. (active l.0 w true, l.1);
  ev_timer_start = λ delay repeat w l. (active l.0 w true, l.1);
  ev_io_stop = λ w l. (active l.0 w false, l.1);
  ev_timer_stop = λ w l. (active l.0 w false, l.1);
  ev_loop = λ b l. (l.0, 0 ∷ []);
  ev_unloop = λ l. l;
  ev_loop_destroy = λ l. l;
  pending = λ l. first_active l.0 l.1;
  holds = λ l. l.0;
}

started : (f : ℕ → Bool) (w v : ℕ) → active f w true v ≡ true → (w ≡ v) ⊎ (f v ≡ true)
started f w v h = elim (Bool-cases (w == v)) [
  | inl e ↦ inl ((==_iff w v).0 e)
  | inr e ↦ inr (ground (arith, e, h))
]

stopped : (f : ℕ → Bool) (w v : ℕ) → active f w false v ≡ true → (w ≢ v) × (f v ≡ true)
stopped f w v h = elim (Bool-cases (w == v)) [
  | inl e ↦ ground (arith, e, h)
  | inr e ↦ (ground (arith, e), ground (arith, e, h))
]

abbrev Known : (ℕ → Bool) → Option (ℕ × Watched) → Type 0
Known f none = Unit {0}
Known f (some (w, l)) = (f w ≡ true) × ((v : ℕ) → l.0 v ≡ true → f v ≡ true)

first_active-Known : (f : ℕ → Bool) (us : List ℕ) → Known f (first_active f us)
first_active-Known f [] = tt
first_active-Known f (u ∷ us) = elim (Bool-cases (f u)) [
  | inl h ↦ rw h (h, λ v a. a)
  | inr h ↦ rw h tt
]

taken :
    (w : ℕ) (l l' : Watched)
    → first_active l.0 l.1 ≡ some (w, l')
    → (l.0 w ≡ true) × ((v : ℕ) → l'.0 v ≡ true → l.0 v ≡ true)
taken w l l' e = subst (Known l.0) e (first_active-Known l.0 l.1)

libev-IsDocumented : IsDocumented libev
libev-IsDocumented = record {
  at_first = λ v. refl;
  io_started = λ fd event w l v. started l.0 w v;
  timer_started = λ delay repeat w l v. started l.0 w v;
  io_stopped = λ w l v. stopped l.0 w v;
  timer_stopped = λ w l v. stopped l.0 w v;
  waited = λ b l v h. h;
  broken = λ l v h. h;
  taken = taken;
}

-- The watcher 0 reads, the watcher 1 is a timer, and the loop has waited.
waiting :
    (s : Loop Watched) × (has : ℕ → Option Watcher) × (l : Watched) × Reach libev s has
    × (first_active s.watched.0 s.watched.1 ≡ some (0, l))
    × (has 1 ≡ some (on_timer 6))
unfolding io_init timer_init new_watcher store_callback loop_once unloop init_loop
waiting = (
  _,
  _,
  _,
  looped true (unlooped (timer 100 false 6 (io 3 ev_read 5 (start refl) refl) refl) refl) refl,
  refl,
  refl,
)

Reach-called_example :
    (x : Watcher) × (waiting.1 0 ≡ some x)
    × (invoke libev waiting.0
        ≡ ok tt
            (record waiting.0 { watched = waiting.2; called = callback_of x ∷ waiting.0.called }))
Reach-called_example = Reach-called libev libev-IsDocumented waiting.3 waiting.4

Reach-stopped_example :
    (t : Loop Watched) × (stop_of libev (on_timer 6) 1 waiting.0 ≡ ok tt t)
    × (t.roots ≡ t.live)
    × ((v : ℕ) → mem v t.live ≡ (not (1 == v) && is_some (waiting.1 v)))
Reach-stopped_example = Reach-stopped libev libev-IsDocumented waiting.3 waiting.5
