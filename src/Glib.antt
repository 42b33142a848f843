-- ===== src/Glib.antt =====
-- src/glib/lwt_glib_stubs.c: polling on behalf of GLib, for systems other than Windows.
pub mod Query
pub mod Loops
pub mod Poll
pub mod Sources
mod Examples
use lwt_old.Base.{
  ℕ, zero, suc, ◌+◌, ◌/◌, ◌%◌, Bool, true, false, not, ◌&&◌, ◌||◌, List, [], ◌∷◌, ◌++◌, Option,
  none, some, length, take, replicate, ltb, ◌==◌, ◌-◌, ◌^◌, if◌then◌else◌,
}
use lwt_old.Base.Int.{ℤ, pos, negsuc, ltb_ℤ}
use lwt_old.Jobs.Stat.{wrap}
use lwt_old.Base.Outcome.{M, ◌>>=◌, ◌>>◌, pure, gets, modify, undefined}

-- `GPollFD`, with sets of bits as numbers.
pub record PollFd : Type 0 where
  pub fd : ℤ
  pub events : ℕ
  pub revents : ℕ

-- What is called in GLib, with the descriptors that it gets.
pub data Call : Type 0 where
  dispatch : Call
  prepare : Call
  poll : List PollFd → ℤ → Call
  check : ℕ → List PollFd → Call
  acquire : Call
  release : Call
  ref : Call
  unref : Call
  wakeup : Call

-- `gpollfds` has `fds_count` cells. `calls` are the calls so far, in their order.
pub record Glib : Type 0 where
  pub gpollfds : List PollFd
  pub fds_count : ℕ
  pub n_fds : ℕ
  pub max_priority : ℕ
  pub calls : List Call

-- The main context. The k-th call of `g_main_context_query` in a stub, counted from 0, wants a
-- timeout and descriptors, of which it stores as many as fit; the poll function gives the field
-- `revents` of each entry. `junk` is what the cells of a new block hold.
pub record Context : Type 0 where
  pub priority : ℕ
  pub query : ℕ → ℤ × List PollFd
  pub poll_func : List PollFd → ℤ → List ℕ
  pub junk : PollFd

-- A descriptor of Lwt, and whether it is watched for reading and for writing.
pub record Source : Type 0 where
  pub source_fd : ℤ
  pub readable : Bool
  pub writable : Bool

-- G_IO_IN and G_IO_OUT are 1 and 4.
pub has_in : ℕ → Bool
has_in events = events % 2 == 1

pub has_out : ℕ → Bool
has_out events = (events / 4) % 2 == 1

pub events_of : Source → ℕ
events_of src = (if src.readable then 1 else 0) + (if src.writable then 4 else 0)

-- `Int_val`, kept in a `gint`: the integer of 32 bits in two's complement.
pub gint : ℤ → ℤ
gint (pos n) = wrap 32 n
gint (negsuc n) = wrap 32 (2 ^ 32 - 1 - n % 2 ^ 32)

pub overlay : List PollFd → List PollFd → List PollFd
overlay [] cells = cells
overlay (x ∷ xs) [] = []
overlay (x ∷ xs) (cell ∷ cells) = x ∷ overlay xs cells

pub cons_to : {A : Type 0} → A → Option (List A) → Option (List A)
cons_to x none = none
cons_to x (some xs) = some (x ∷ xs)

-- The loops over `gpollfds`; an access out of bounds gives `none`, and so does a list that is too
-- short.
pub clear_revents : ℕ → List PollFd → Option (List PollFd)
unfolding cons_to
clear_revents zero cells = some cells
clear_revents (suc i) [] = none
clear_revents (suc i) (cell ∷ cells) = cons_to (record cell { revents = 0 }) (clear_revents i cells)

pub add_fds : ℕ → ℕ → List Source → List PollFd → Option (List PollFd)
unfolding cons_to events_of gint
add_fds n_fds count fds [] = elim n_fds [
  | zero ↦ elim count [ zero ↦ some [] | suc c ↦ none ]
  | suc n ↦ none
]
add_fds (suc n) count fds (cell ∷ cells) = cons_to cell (add_fds n count fds cells)
add_fds zero zero fds (cell ∷ cells) = some (cell ∷ cells)
add_fds zero (suc count) [] (cell ∷ cells) = none
add_fds zero (suc count) (src ∷ fds) (cell ∷ cells) =
    cons_to (record cell { fd = gint src.source_fd; events = events_of src })
      (add_fds zero count fds cells)

pub store_revents : List ℕ → List PollFd → List PollFd
store_revents (r ∷ rs) (cell ∷ cells) = record cell { revents = r } ∷ store_revents rs cells
store_revents _ cells = cells

-- The results are put in front of each other.
pub collect : ℕ → ℕ → List Source → List PollFd → List Source → Option (List Source)
unfolding has_in has_out
collect n_fds count fds [] result = elim n_fds [
  | zero ↦ elim count [ zero ↦ some result | suc c ↦ none ]
  | suc n ↦ none
]
collect (suc n) count fds (cell ∷ cells) result = collect n count fds cells result
collect zero zero fds (cell ∷ cells) result = some result
collect zero (suc count) [] (cell ∷ cells) result = none
collect zero (suc count) (src ∷ fds) (cell ∷ cells) result = collect zero count fds cells (
    record {
      source_fd = src.source_fd;
      readable = has_in cell.revents;
      writable = has_out cell.revents;
    }
    ∷ result)

-- `if (timeout < 0 || (lwt_timeout >= 0 && lwt_timeout < timeout)) timeout = lwt_timeout`
pub min_timeout : ℤ → ℤ → ℤ
min_timeout timeout lwt_timeout =
    if ltb_ℤ timeout (pos 0) || (not (ltb_ℤ lwt_timeout (pos 0)) && ltb_ℤ lwt_timeout timeout)
    then lwt_timeout
    else timeout

pub or_undefined : {A : Type 0} → Option A → (A → M Glib (Unit {0})) → M Glib (Unit {0})
or_undefined none k = undefined
or_undefined (some a) k = k a

pub calls_to : Call → M Glib (Unit {0})
calls_to c = modify (λ s. record s { calls = s.calls ++ c ∷ [] })

module _ (context : Context) where
  open context use {priority, query, poll_func, junk}

  -- A new block, in place of the old one.
  pub grow : ℕ → M Glib (Unit {0})
  grow n = modify (λ s. record s { fds_count = n; gpollfds = replicate n junk })

  -- `while (fds_count < extra + (n_fds = g_main_context_query (...)))`, on fuel.
  pub query_loop : ℕ → ℕ → ℕ → M Glib ℤ
  unfolding overlay grow
  query_loop zero k extra = undefined
  query_loop (suc fuel) k extra =
      let fds = (query k).1 in
      let rest = query_loop fuel (suc k) extra in
      do
        modify (λ s. record s { gpollfds = overlay fds s.gpollfds; n_fds = length fds })
        fds_count ← gets (λ s. s.fds_count)
        if ltb fds_count (extra + length fds)
            then (grow (length fds + extra) >> rest)
            else pure (query k).0

  pub lwt_glib_poll : ℕ → List Source → ℕ → ℤ → M Glib (List Source)
  unfolding query_loop clear_revents add_fds store_revents collect min_timeout gint calls_to
      or_undefined
  lwt_glib_poll fuel val_fds count val_timeout = do
    calls_to dispatch
    calls_to prepare
    modify (λ s. record s { max_priority = priority })
    timeout ← query_loop fuel 0 count
    n_fds ← gets (λ s. s.n_fds)
    cells ← gets (λ s. s.gpollfds)
    or_undefined (clear_revents (n_fds + count) cells) (λ cells.
        or_undefined (add_fds n_fds count val_fds cells)
          (λ cells. modify (λ s. record s { gpollfds = cells })))
    cells ← gets (λ s. s.gpollfds)
    let wait = min_timeout timeout (gint val_timeout)
    calls_to (poll (take (n_fds + count) cells) wait)
    modify (λ s. record s {
      gpollfds = store_revents (poll_func (take (n_fds + count) cells) wait) s.gpollfds;
    })
    cells ← gets (λ s. s.gpollfds)
    calls_to (check priority (take n_fds cells))
    elim (collect n_fds count val_fds cells []) [ none ↦ undefined | some result ↦ pure result ]
