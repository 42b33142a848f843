-- ===== src/Glib/Poll.antt =====
-- What `lwt_glib_poll` asks GLib's poll function, and what it answers.
use lwt_old.Base.{
  take_exact, ℕ, suc, ◌+◌, ◌≤◌, ◌≡◌, refl, sym, ap, ◌∙◌, List, [], ◌∷◌, ◌++◌, map, Option, none,
  some, length, length-append, length-take, length-drop, take, drop, arith, ltb, if◌then◌else◌,
  append_assoc, length-map,
}
use lwt_old.Base.Int.{ℤ, pos, negsuc}
use lwt_old.Base.Outcome.{Run, ok, bind_ok}
use lwt_old.Glib.{
  PollFd, dispatch, prepare, poll, check, Glib, Context, Source, gint, store_revents, collect,
  min_timeout, or_undefined, calls_to, query_loop, lwt_glib_poll,
}
use lwt_old.Glib.Query.{Last, query_loop-Settles}
use lwt_old.Glib.Loops.{
  cleared, entry, answers, clear_all, add_all, take_stored, collect_skip, collect_here,
}

-- How long a timeout lets the call wait; a negative one lets it wait for ever.
abbrev pub wait_of : ℤ → Option ℕ
wait_of (pos n) = some n
wait_of (negsuc n) = none

abbrev pub shorter : Option ℕ → Option ℕ → Option ℕ
shorter none b = b
shorter (some a) none = some a
shorter (some a) (some b) = some (if ltb b a then b else a)

min_timeout-wait_of : (a b : ℤ) → wait_of (min_timeout a b) ≡ shorter (wait_of a) (wait_of b)
unfolding min_timeout
min_timeout-wait_of (pos a) (pos b) = ground arith
min_timeout-wait_of (pos a) (negsuc b) = ground arith
min_timeout-wait_of (negsuc a) (pos b) = ground arith
min_timeout-wait_of (negsuc a) (negsuc b) = ground arith

-- The descriptors that the poll function gets: those of GLib, with no field `revents` set, and then
-- those of Lwt.
abbrev pub asked : List PollFd → List Source → List PollFd
asked fds sources = map cleared fds ++ map entry sources

-- The `k`-th answer of the query is the last; the poll function is called once, with the shorter of
-- GLib's timeout and of what a `gint` keeps of Lwt's; GLib then gets its own descriptors with what the poll function said of them.
pub record Polls (context : Context) (sources : List Source) (timeout : ℤ) (s : Glib)
    (r : Run Glib (List Source)) : Type 0 where
  pub k : ℕ
  pub last : Last context (length sources) 0 s.fds_count k
  pub wait : ℤ
  pub shortest : wait_of wait ≡ shorter (wait_of (context.query k).0) (wait_of (gint timeout))
  pub state : Glib
  pub calls :
      state.calls
      ≡ s.calls
        ++ dispatch ∷ []
        ++ prepare ∷ []
        ++ poll (asked (context.query k).1 sources) wait ∷ []
        ++ check context.priority (
            store_revents
              (context.poll_func (asked (context.query k).1 sources) wait)
              (map cleared (context.query k).1))
          ∷ []
  pub ends :
      r
      ≡ ok
          (answers sources
            (drop
              (length (context.query k).1)
              (context.poll_func (asked (context.query k).1 sources) wait))
            [])
          state

module _ (context : Context) (sources : List Source) (timeout : ℤ) where
  open context use {priority, query, poll_func, junk}

  -- The poll function gets all of the block but the rest.
  first_two :
      (fds cells : List PollFd)
      → take
          (length fds + length sources)
          (map cleared fds ++ (map entry sources ++ drop (length sources) cells))
        ≡ asked fds sources
  first_two fds cells =
      ap (take (length fds + length sources))
        (sym (append_assoc (map cleared fds) (map entry sources) (drop (length sources) cells)))
      ∙ take_exact (asked fds sources) (drop (length sources) cells) (length fds + length sources) (
          omega (
            arith,
            length-append (map cleared fds) (map entry sources),
            length-map fds cleared,
            length-map sources entry,
          ))

  collected :
      (fds rest : List PollFd) (rs : List ℕ)
      → length rs ≡ length (map cleared fds) + length (map entry sources)
      → collect
          (length fds)
          (length sources)
          sources
          (store_revents rs (map cleared fds ++ (map entry sources ++ rest)))
          []
        ≡ some (answers sources (drop (length fds) rs) [])
  collected fds rest rs e =
      collect_skip (map cleared fds) (map entry sources ++ rest) rs (length fds) (length sources)
        sources [] (sym (length-map fds cleared)) (omega (arith, e, length-map fds cleared))
      ∙ collect_here sources [] (map entry sources ++ rest) (drop (length fds) rs)
          (omega (arith, length-append (map entry sources) rest, length-map sources entry))
          (omega (
            arith,
            e,
            length-drop (length fds) rs,
            length-map fds cleared,
            length-map sources entry,
          ))

  -- Where GLib wants no more than `need` descriptors, its poll function gives one answer for each
  -- descriptor, and `gpollfds` has `fds_count` cells: `lwt_glib_poll` ends its loop and returns. The
  -- last query is the first after which the block has room for its answer and the descriptors of
  -- Lwt. The poll function is called once, with the descriptors of this answer and then those of
  -- Lwt, and with the shorter of two timeouts, that of the answer and what 32 bits keep of that of
  -- Lwt, where a negative one does not end. GLib gets the answers for its own descriptors, and the
  -- result has those for the descriptors of Lwt.
  pub lwt_glib_poll-Polls :
      (need fuel : ℕ) (s : Glib)
      → ((k : ℕ) → length (query k).1 ≤ need)
      → ((fds : List PollFd) (wait : ℤ) → length (poll_func fds wait) ≡ length fds)
      → length s.gpollfds ≡ s.fds_count
      → length sources + need ≤ s.fds_count + fuel
      → Polls context sources timeout s
          (lwt_glib_poll context (suc fuel) sources (length sources) timeout s)
  unfolding lwt_glib_poll calls_to or_undefined
  lwt_glib_poll-Polls need fuel s bound answered size h =
      let s1 : Glib = record s {
        calls = s.calls ++ dispatch ∷ [] ++ prepare ∷ [];
        max_priority = priority;
      } in
      let v = query_loop-Settles context (length sources) need fuel 0 s1 bound size h in
      let fds : List PollFd = (query v.k).1 in
      let wait : ℤ = min_timeout (query v.k).0 (gint timeout) in
      let rs : List ℕ = poll_func (asked fds sources) wait in
      record {
        k = v.k;
        last = v.last;
        wait = wait;
        shortest = min_timeout-wait_of (query v.k).0 (gint timeout);
        state = record s1 {
          gpollfds =
              store_revents rs
                (map cleared fds ++ (map entry sources ++ drop (length sources) v.cells));
          fds_count = v.count;
          n_fds = length fds;
          calls =
              s1.calls
              ++ poll (asked fds sources) wait ∷ []
              ++ check priority (store_revents rs (map cleared fds)) ∷ [];
        };
        calls = refl;
        ends = bind_ok (query_loop context (suc fuel) 0 (length sources)) _ s1 v.ends (
            rw
              (
                clear_all fds v.cells (length fds + length sources) (length sources) refl v.room,
                add_all fds (take (length sources) v.cells) (drop (length sources) v.cells) sources
                    (omega (arith, v.room, length-take (length sources) v.cells)),
                first_two fds v.cells,
                take_stored rs (map cleared fds)
                    (map entry sources ++ drop (length sources) v.cells) (length fds)
                    (sym (length-map fds cleared)),
                collected fds (drop (length sources) v.cells) rs (
                    answered (asked fds sources) wait
                    ∙ length-append (map cleared fds) (map entry sources)),
              )
              refl);
      }
