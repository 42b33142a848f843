-- ===== src/Events.antt =====
-- src/unix/lwt_libev_stubs.c: loops and watchers of libev.
pub mod Documented
pub mod Invariant
pub mod Safety
mod Examples
use lwt_old.Base.{
  ℕ, suc, ◌≡◌, Bool, true, false, if◌then◌else◌, ◌||◌, ◌==◌, List, [], ◌∷◌, Option, none, some,
  update,
}
use lwt_old.Base.Outcome.{M, ok, fault, ◌>>=◌, ◌>>◌, pure, modify, gets, undefined}
use lwt_old.Jobs.{mem, remove}

-- EV_READ and EV_WRITE.
pub data Event : Type 0 where
  ev_read ev_write : Event

-- libev. `Watched` is what the loop has of its watchers. `holds` tells whether libev still holds
-- the address of a watcher, since it is active or pending. `ev_loop` waits for events, at most once,
-- and `pending` is the round of `ev_invoke_pending` that takes the next pending watcher off. A
-- delay is known by the bits of its number.
pub record Libev : Type 1 where
  pub Watched : Type 0
  pub empty : Watched
  pub ev_io_start : ℕ → Event → ℕ → Watched → Watched
  pub ev_timer_start : ℕ → Bool → ℕ → Watched → Watched
  pub ev_io_stop : ℕ → Watched → Watched
  pub ev_timer_stop : ℕ → Watched → Watched
  pub ev_loop : Bool → Watched → Watched
  pub ev_unloop : Watched → Watched
  pub ev_loop_destroy : Watched → Watched
  pub pending : Watched → Option (ℕ × Watched)
  pub holds : Watched → ℕ → Bool

-- Memory: the blocks of the watchers, the watchers whose field `data` is a root, and that field.
-- `called` are the callbacks that were called, the last in front. `blocking` tells whether the
-- thread is in a blocking section.
pub record Loop (Watched : Type 0) : Type 0 where
  pub live : List ℕ
  pub fresh : ℕ
  pub roots : List ℕ
  pub callback : ℕ → Option ℕ
  pub watched : Watched
  pub called : List ℕ
  pub blocking : Bool

-- A watcher that OCaml code has, with its callback.
pub data Watcher : Type 0 where
  on_io : ℕ → Watcher
  on_timer : ℕ → Watcher

module _ (libev : Libev) where
  open libev use {
    Watched, empty, ev_io_start, ev_timer_start, ev_io_stop, ev_timer_stop, ev_loop, ev_unloop,
    ev_loop_destroy, pending,
  }

  abbrev pub Ev : Type 0 → Type 0
  Ev A = M (Loop Watched) A

  -- `lwt_unix_new`; the fields of the block are not set.
  pub new_watcher : Ev ℕ
  new_watcher s = ok s.fresh (record s {
    live = s.fresh ∷ s.live;
    fresh = suc s.fresh;
    callback = update s.callback s.fresh none;
  })

  -- The callback is stored in the watcher, whose field is registered as a root.
  pub store_callback : ℕ → ℕ → Ev (Unit {0})
  store_callback watcher callback = do
    modify (λ s. record s { callback = update s.callback watcher (some callback) })
    modify (λ s. record s { roots = watcher ∷ s.roots })

  pub io_init : ℕ → Event → ℕ → Ev ℕ
  unfolding new_watcher store_callback
  io_init fd event callback = do
    watcher ← new_watcher
    store_callback watcher callback
    modify (λ s. record s { watched = ev_io_start fd event watcher s.watched })
    pure watcher

  pub readable_init : ℕ → ℕ → Ev ℕ
  unfolding io_init
  readable_init fd callback = io_init fd ev_read callback

  pub writable_init : ℕ → ℕ → Ev ℕ
  unfolding io_init
  writable_init fd callback = io_init fd ev_write callback

  pub timer_init : ℕ → Bool → ℕ → Ev ℕ
  unfolding new_watcher store_callback
  timer_init delay repeat callback = do
    watcher ← new_watcher
    store_callback watcher callback
    modify (λ s. record s { watched = ev_timer_start delay repeat watcher s.watched })
    pure watcher

  -- To remove what is no root is undefined, and so is a second `free`.
  pub remove_root : ℕ → Ev (Unit {0})
  unfolding mem remove
  remove_root watcher s =
      if mem watcher s.roots then ok tt (record s { roots = remove watcher s.roots }) else fault

  pub free_watcher : ℕ → Ev (Unit {0})
  unfolding mem remove
  free_watcher watcher s =
      if mem watcher s.live then ok tt (record s { live = remove watcher s.live }) else fault

  pub io_stop : ℕ → Ev (Unit {0})
  unfolding remove_root free_watcher
  io_stop watcher = do
    remove_root watcher
    modify (λ s. record s { watched = ev_io_stop watcher s.watched })
    free_watcher watcher

  pub timer_stop : ℕ → Ev (Unit {0})
  unfolding remove_root free_watcher
  timer_stop watcher = do
    remove_root watcher
    modify (λ s. record s { watched = ev_timer_stop watcher s.watched })
    free_watcher watcher

  -- `handle_io` and `handle_timer`. A block that was freed must not be read, a callback that is not
  -- a root may have been moved, and OCaml code must not run in a blocking section.
  pub handle : ℕ → Ev (Unit {0})
  unfolding mem
  handle watcher s = elim (s.callback watcher) [
    | none ↦ fault
    | some c ↦
        if s.blocking
        then fault
        else if mem watcher s.live
        then (if mem watcher s.roots then ok tt (record s { called = c ∷ s.called }) else fault)
        else fault
  ]

  -- `lwt_libev_loop` up to `ev_invoke_pending`; `nop` is what libev calls in the blocking section.
  pub loop_once : Bool → Ev (Unit {0})
  loop_once block = do
    modify (λ s. record s { blocking = true })
    modify (λ s. record s { watched = ev_loop block s.watched })
    modify (λ s. record s { blocking = false })

  -- A round of `ev_invoke_pending`.
  pub invoke : Ev (Unit {0})
  unfolding handle
  invoke s = elim (pending s.watched) [
    | none ↦ ok tt s
    | some (watcher, watched) ↦ handle watcher (record s { watched = watched })
  ]

  pub unloop : Ev (Unit {0})
  unloop = modify (λ s. record s { watched = ev_unloop s.watched })

  -- `lwt_libev_stop`; the loop is not used afterwards.
  pub destroy : Ev (Unit {0})
  destroy = modify (λ s. record s { watched = ev_loop_destroy s.watched })

  -- A new loop.
  abbrev pub init : Loop Watched
  init = record {
    live = [];
    fresh = 0;
    roots = [];
    callback = λ watcher. none;
    watched = empty;
    called = [];
    blocking = false;
  }

  -- `lwt_libev_init`, by whether `ev_loop_new` gives a loop; `none` is the exception Failure.
  pub init_loop : Bool → Option (Loop Watched)
  init_loop made = if made then some init else none

  -- The states that OCaml code reaches, before it stops the loop, which stops only watchers that it has, by the stub of their
  -- kind, together with the watchers that it has and their callbacks. A callback runs within
  -- `invoke`, and what it does are steps behind it.
  pub data Reach : Loop Watched → (ℕ → Option Watcher) → Type 0 where
    start : {s : Loop Watched} → init_loop true ≡ some s → Reach s (λ w. none)
    io :
        {s t : Loop Watched} {has : ℕ → Option Watcher} {w : ℕ} (fd : ℕ) (event : Event) (c : ℕ)
        → Reach s has
        → io_init fd event c s ≡ ok w t
        → Reach t (update has w (some (on_io c)))
    timer :
        {s t : Loop Watched} {has : ℕ → Option Watcher} {w : ℕ} (delay : ℕ) (repeat : Bool) (c : ℕ)
        → Reach s has
        → timer_init delay repeat c s ≡ ok w t
        → Reach t (update has w (some (on_timer c)))
    stop_io :
        {s t : Loop Watched} {has : ℕ → Option Watcher} {c : ℕ} (w : ℕ)
        → Reach s has
        → has w ≡ some (on_io c)
        → io_stop w s ≡ ok tt t
        → Reach t (update has w none)
    stop_timer :
        {s t : Loop Watched} {has : ℕ → Option Watcher} {c : ℕ} (w : ℕ)
        → Reach s has
        → has w ≡ some (on_timer c)
        → timer_stop w s ≡ ok tt t
        → Reach t (update has w none)
    looped :
        {s t : Loop Watched} {has : ℕ → Option Watcher} (block : Bool)
        → Reach s has
        → loop_once block s ≡ ok tt t
        → Reach t has
    unlooped :
        {s t : Loop Watched} {has : ℕ → Option Watcher}
        → Reach s has
        → unloop s ≡ ok tt t
        → Reach t has
    invoked :
        {s t : Loop Watched} {has : ℕ → Option Watcher}
        → Reach s has
        → invoke s ≡ ok tt t
        → Reach t has
