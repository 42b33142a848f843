-- ===== src/Glib/Sources.antt =====
-- src/glib/lwt_glib_stubs.c: the stubs with which Lwt polls in the place of GLib, and a turn of the
-- main loop of GLib.
pub mod Marks
pub mod Turn
use lwt_old.Base.{
  ℕ, zero, suc, ◌+◌, Bool, true, false, if◌then◌else◌, List, [], ◌∷◌, map, Option, none, some, take,
  length,
}
use lwt_old.Base.Int.{ℤ, pos, negsuc}
use lwt_old.Base.Outcome.{M, ◌>>=◌, ◌>>◌, pure, gets, modify, raise, undefined, failure}
use lwt_old.Glib.{
  PollFd, dispatch, prepare, poll, check, acquire, release, ref, unref, wakeup, Glib, Context,
  has_in, has_out, cons_to, clear_revents, store_revents, or_undefined, calls_to, query_loop,
}

-- What is to be watched for a descriptor, as a number: reading 1, writing 2. A descriptor below 0
-- is not watched.
pub watch_of : PollFd → ℕ
unfolding has_in has_out
watch_of cell = elim cell.fd [
  | negsuc n ↦ 0
  | pos n ↦ (if has_in cell.events then 1 else 0) + (if has_out cell.events then 2 else 0)
]

-- `gpollfds[i].revents |= G_IO_IN` and `gpollfds[i].revents |= G_IO_OUT`
pub add_in : ℕ → ℕ
unfolding has_in
add_in revents = if has_in revents then revents else revents + 1

pub add_out : ℕ → ℕ
unfolding has_out
add_out revents = if has_out revents then revents else revents + 4

pub mark_at : (ℕ → ℕ) → ℕ → List PollFd → Option (List PollFd)
unfolding cons_to
mark_at f i [] = none
mark_at f zero (cell ∷ cells) = some (record cell { revents = f cell.revents } ∷ cells)
mark_at f (suc i) (cell ∷ cells) = cons_to cell (mark_at f i cells)

pub mark_readable : ℕ → M Glib (Unit {0})
unfolding mark_at add_in or_undefined
mark_readable i = do
  cells ← gets (λ s. s.gpollfds)
  or_undefined (mark_at add_in i cells) (λ cells. modify (λ s. record s { gpollfds = cells }))

pub mark_writable : ℕ → M Glib (Unit {0})
unfolding mark_at add_out or_undefined
mark_writable i = do
  cells ← gets (λ s. s.gpollfds)
  or_undefined (mark_at add_out i cells) (λ cells. modify (λ s. record s { gpollfds = cells }))

pub lwt_glib_check : M Glib (Unit {0})
unfolding calls_to
lwt_glib_check = do
  cells ← gets (λ s. s.gpollfds)
  n_fds ← gets (λ s. s.n_fds)
  max_priority ← gets (λ s. s.max_priority)
  calls_to (check max_priority (take n_fds cells))

pub lwt_glib_init : M Glib (Unit {0})
unfolding calls_to
lwt_glib_init = calls_to ref

pub lwt_glib_stop : M Glib (Unit {0})
unfolding calls_to
lwt_glib_stop = calls_to unref

pub lwt_glib_wakeup : M Glib (Unit {0})
unfolding calls_to
lwt_glib_wakeup = calls_to wakeup

-- The variables of `lwt_glib_iter`, of which only the calls stay.
abbrev pub local : Glib → Glib
local s = record s { gpollfds = []; fds_count = 0; n_fds = 0 }

module _ (context : Context) where
  open context use {priority, poll_func}

  -- The descriptors, what is to be watched for each of them, and the timeout. `seconds` is the product
  -- with 1e-3, which is a double.
  pub lwt_glib_get_sources :
      {Double : Type 0} → (ℤ → Double) → ℕ → M Glib (List ℤ × List ℕ × Double)
  unfolding query_loop clear_revents watch_of calls_to or_undefined
  lwt_glib_get_sources seconds fuel = do
    calls_to dispatch
    calls_to prepare
    modify (λ s. record s { max_priority = priority })
    timeout ← query_loop context fuel 0 0
    n_fds ← gets (λ s. s.n_fds)
    cells ← gets (λ s. s.gpollfds)
    or_undefined (clear_revents n_fds cells) (λ cells. modify (λ s. record s { gpollfds = cells }))
    cells ← gets (λ s. s.gpollfds)
    pure
        (map (λ cell. cell.fd) (take n_fds cells), map watch_of (take n_fds cells), seconds timeout)

  -- `acquired` is the answer of `g_main_context_acquire`.
  pub lwt_glib_iter : ℕ → Bool → Bool → M Glib (Unit {0})
  unfolding query_loop clear_revents store_revents calls_to or_undefined
  lwt_glib_iter fuel false may_block = do calls_to acquire; raise (failure "Lwt_glib.iter")
  lwt_glib_iter fuel true may_block = do
    outer ← gets (λ s. s)
    calls_to acquire
    calls_to dispatch
    calls_to prepare
    modify local
    timeout ← query_loop context fuel 0 0
    n_fds ← gets (λ s. s.n_fds)
    cells ← gets (λ s. s.gpollfds)
    or_undefined (clear_revents n_fds cells) (λ cells. modify (λ s. record s { gpollfds = cells }))
    cells ← gets (λ s. s.gpollfds)
    let wait = if may_block then timeout else pos 0
    calls_to (poll (take n_fds cells) wait)
    modify
        (λ s. record s { gpollfds = store_revents (poll_func (take n_fds cells) wait) s.gpollfds })
    cells ← gets (λ s. s.gpollfds)
    calls_to (check priority (take n_fds cells))
    calls_to release
    modify (λ s. record outer { calls = s.calls })
