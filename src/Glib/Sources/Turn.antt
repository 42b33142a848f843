-- ===== src/Glib/Sources/Turn.antt =====
-- What a turn of the main loop of GLib calls, and that it leaves the block of Lwt alone.
use lwt_old.Base.{
  take_exact, ℕ, suc, ◌≤◌, ◌≡◌, refl, sym, Bool, true, if◌then◌else◌, List, [], ◌∷◌, ◌++◌, map,
  length, length-map, arith,
}
use lwt_old.Base.Int.{ℤ, pos}
use lwt_old.Base.Outcome.{Run, ok, bind_ok}
use lwt_old.Glib.{
  PollFd, dispatch, prepare, poll, check, acquire, release, Glib, Context, store_revents,
  or_undefined, calls_to, query_loop,
}
use lwt_old.Glib.Query.{Last, query_loop-Settles}
use lwt_old.Glib.Loops.{cleared, clear_all, take_stored}
use lwt_old.Glib.Sources.{local, lwt_glib_iter}

-- The descriptors of the `k`-th answer of the query are polled, and GLib gets what the poll
-- function said of them; all the calls stand between the acquisition and the release.
record Turns (context : Context) (may_block : Bool) (s : Glib) (r : Run Glib (Unit {0}))
    : Type 0 where
  pub k : ℕ
  pub last : Last context 0 0 0 k
  pub wait : ℤ
  pub waits : wait ≡ (if may_block then (context.query k).0 else pos 0)
  pub ends :
      r
      ≡ ok tt (record s {
        calls =
            s.calls
            ++ acquire ∷ []
            ++ dispatch ∷ []
            ++ prepare ∷ []
            ++ poll (map cleared (context.query k).1) wait ∷ []
            ++ check context.priority (
                store_revents
                  (context.poll_func (map cleared (context.query k).1) wait)
                  (map cleared (context.query k).1))
              ∷ []
            ++ release ∷ [];
      })

module _ (context : Context) (may_block : Bool) where
  open context use {priority, query, poll_func}

  -- Where GLib wants no more than `fuel` descriptors and the context could be acquired:
  -- `lwt_glib_iter` ends its loop and returns. It polls the descriptors of the last query, the first
  -- after which the block has room, with the
  -- timeout of that query if it may block and else with 0, tells GLib the answers, and releases the
  -- context. Nothing of the state of the other stubs has changed.
  lwt_glib_iter-Turns :
      (fuel : ℕ) (s : Glib)
      → ((k : ℕ) → length (query k).1 ≤ fuel)
      → Turns context may_block s (lwt_glib_iter context (suc fuel) true may_block s)
  unfolding lwt_glib_iter calls_to or_undefined
  lwt_glib_iter-Turns fuel s bound =
      let s1 : Glib =
        local (record s { calls = s.calls ++ acquire ∷ [] ++ dispatch ∷ [] ++ prepare ∷ [] }) in
      let v = query_loop-Settles context 0 fuel fuel 0 s1 bound refl (omega arith) in
      let fds : List PollFd = (query v.k).1 in
      let wait : ℤ = if may_block then (query v.k).0 else pos 0 in
      let rs : List ℕ = poll_func (map cleared fds) wait in
      record {
        k = v.k;
        last = v.last;
        wait = wait;
        waits = refl;
        ends = bind_ok (query_loop context (suc fuel) 0 0) _ s1 v.ends (
            rw
              (
                clear_all fds v.cells (length fds) 0 (omega arith) (omega arith),
                take_exact (map cleared fds) v.cells (length fds) (sym (length-map fds cleared)),
                take_stored rs (map cleared fds) v.cells (length fds)
                    (sym (length-map fds cleared)),
              )
              refl);
      }
