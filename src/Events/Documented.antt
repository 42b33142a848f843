-- ===== src/Events/Documented.antt =====
-- What libev documents, and lists of addresses without repetition.
use lwt_old.Base.{
  ℕ, ◌≡◌, ◌≢◌, refl, ◌∙◌, ◌⊎◌, inl, inr, Bool, true, false, ◌==◌, Bool-cases, List, [], ◌∷◌, Option,
  none, some, arith,
}
use lwt_old.Jobs.{mem, remove}
use lwt_old.Events.{Event, Libev, Ev, Watcher, on_io, on_timer, io_stop, timer_stop}

module _ (libev : Libev) where
  open libev use {
    Watched, empty, ev_io_start, ev_timer_start, ev_io_stop, ev_timer_stop, ev_loop, ev_unloop,
    pending, holds,
  }

  -- What libev documents of the watchers that it holds: those that were started and not stopped
  -- since, at most. A watcher that is stopped is neither active nor pending.
  pub record IsDocumented : Type 0 where
    pub at_first : (v : ℕ) → holds empty v ≡ false
    pub io_started :
        (fd : ℕ) (event : Event) (w : ℕ) (l : Watched) (v : ℕ)
        → holds (ev_io_start fd event w l) v ≡ true
        → (w ≡ v) ⊎ (holds l v ≡ true)
    pub timer_started :
        (delay : ℕ) (repeat : Bool) (w : ℕ) (l : Watched) (v : ℕ)
        → holds (ev_timer_start delay repeat w l) v ≡ true
        → (w ≡ v) ⊎ (holds l v ≡ true)
    pub io_stopped :
        (w : ℕ) (l : Watched) (v : ℕ)
        → holds (ev_io_stop w l) v ≡ true
        → (w ≢ v) × (holds l v ≡ true)
    pub timer_stopped :
        (w : ℕ) (l : Watched) (v : ℕ)
        → holds (ev_timer_stop w l) v ≡ true
        → (w ≢ v) × (holds l v ≡ true)
    pub waited : (b : Bool) (l : Watched) (v : ℕ) → holds (ev_loop b l) v ≡ true → holds l v ≡ true
    pub broken : (l : Watched) (v : ℕ) → holds (ev_unloop l) v ≡ true → holds l v ≡ true
    pub taken :
        (w : ℕ) (l l' : Watched)
        → pending l ≡ some (w, l')
        → (holds l w ≡ true) × ((v : ℕ) → holds l' v ≡ true → holds l v ≡ true)

abbrev pub callback_of : Watcher → ℕ
callback_of (on_io c) = c
callback_of (on_timer c) = c

abbrev pub stop_of : (libev : Libev) → Watcher → ℕ → Ev libev (Unit {0})
stop_of libev (on_io c) = io_stop libev
stop_of libev (on_timer c) = timer_stop libev

abbrev pub is_some : Option Watcher → Bool
is_some (some x) = true
is_some none = false

abbrev pub Once : List ℕ → Type 0
Once [] = Unit {0}
Once (x ∷ xs) = (mem x xs ≡ false) × Once xs

pub mem-remove_ne : (v w : ℕ) (l : List ℕ) → w ≢ v → mem v (remove w l) ≡ mem v l
unfolding mem remove
mem-remove_ne v w [] n = refl
mem-remove_ne v w (x ∷ l) n = ground (arith, mem-remove_ne v w l, n)

pub mem-remove_self : (w : ℕ) (l : List ℕ) → Once l → mem w (remove w l) ≡ false
unfolding mem remove
mem-remove_self w [] o = refl
mem-remove_self w (x ∷ l) o = ground (arith, mem-remove_self w l o.1, o.0)

pub Once-remove : (w : ℕ) (l : List ℕ) → Once l → Once (remove w l)
unfolding mem remove
Once-remove w [] o = tt
Once-remove w (x ∷ l) o = elim (Bool-cases (x == w)) [
  | inl e ↦ rw e o.1
  | inr e ↦ rw e (mem-remove_ne x w l (ground (arith, e)) ∙ o.0, Once-remove w l o.1)
]
