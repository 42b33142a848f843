-- ===== src/Glib/Sources/Marks.antt =====
-- What GLib is told of the descriptors that it gave to Lwt.
use lwt_old.Base.{
  take_exact, ℕ, zero, suc, ◌+◌, ◌<◌, ◌≤◌, ◌≡◌, refl, sym, ap, ◌∙◌, Bool, true, false,
  if◌then◌else◌, List, [], ◌∷◌, ◌++◌, map, some, length, length-map, arith,
}
use lwt_old.Base.Int.{ℤ}
use lwt_old.Base.Outcome.{Run, ok, M, ◌>>=◌, ◌>>◌, pure, modify, bind_ok}
use lwt_old.Glib.{
  PollFd, dispatch, prepare, check, Glib, Context, has_in, has_out, cons_to, or_undefined, calls_to,
  query_loop,
}
use lwt_old.Glib.Query.{Last, query_loop-Settles}
use lwt_old.Glib.Loops.{cleared, clear_all}
use lwt_old.Glib.Sources.{
  watch_of, add_in, add_out, mark_at, mark_readable, mark_writable, lwt_glib_check,
  lwt_glib_get_sources,
}

-- The calls of `lwt_glib_mark_readable` and `lwt_glib_mark_writable`, with an index.
pub data Mark : Type 0 where
  as_readable : ℕ → Mark
  as_writable : ℕ → Mark

abbrev pub mark_all : List Mark → M Glib (Unit {0})
mark_all [] = pure tt
mark_all (as_readable i ∷ ms) = mark_readable i >> mark_all ms
mark_all (as_writable i ∷ ms) = mark_writable i >> mark_all ms

-- The indices are below `n`.
abbrev pub Below : ℕ → List Mark → Type 0
Below n [] = Unit {0}
Below n (as_readable i ∷ ms) = (i < n) × Below n ms
Below n (as_writable i ∷ ms) = (i < n) × Below n ms

-- The index `i`, and those of `r`.
abbrev pub with_index : ℕ → (ℕ → Bool) → ℕ → Bool
with_index zero r zero = true
with_index zero r (suc k) = r (suc k)
with_index (suc i) r zero = r zero
with_index (suc i) r (suc k) = with_index i (λ j. r (suc j)) k

-- The indices that are marked as readable, or as writable, and those of `r`.
abbrev pub readable_in : List Mark → (ℕ → Bool) → ℕ → Bool
readable_in [] r = r
readable_in (as_readable i ∷ ms) r = readable_in ms (with_index i r)
readable_in (as_writable i ∷ ms) r = readable_in ms r

abbrev pub writable_in : List Mark → (ℕ → Bool) → ℕ → Bool
writable_in [] w = w
writable_in (as_readable i ∷ ms) w = writable_in ms w
writable_in (as_writable i ∷ ms) w = writable_in ms (with_index i w)

-- G_IO_IN and G_IO_OUT are 1 and 4.
abbrev pub bits : Bool → Bool → ℕ
bits a b = (if a then 1 else 0) + (if b then 4 else 0)

-- The descriptors with the events that are told of them, by their index.
abbrev pub told : (ℕ → Bool) → (ℕ → Bool) → List PollFd → List PollFd
told r w [] = []
told r w (cell ∷ cells) =
    record cell { revents = bits (r 0) (w 0) } ∷ told (λ k. r (suc k)) (λ k. w (suc k)) cells

abbrev pub nothing : ℕ → Bool
nothing k = false

add_in-bits : (a b : Bool) → add_in (bits a b) ≡ bits true b
unfolding add_in has_in
add_in-bits true true = refl
add_in-bits true false = refl
add_in-bits false true = refl
add_in-bits false false = refl

add_out-bits : (a b : Bool) → add_out (bits a b) ≡ bits a true
unfolding add_out has_out
add_out-bits true true = refl
add_out-bits true false = refl
add_out-bits false true = refl
add_out-bits false false = refl

mark_at-in :
    (i : ℕ) (fds rest : List PollFd) (r w : ℕ → Bool)
    → i < length fds
    → mark_at add_in i (told r w fds ++ rest) ≡ some (told (with_index i r) w fds ++ rest)
unfolding mark_at cons_to
mark_at-in i [] rest r w h = absurd (omega (arith, h))
mark_at-in zero (cell ∷ fds) rest r w h =
    ap
      (λ n.
        some (record cell { revents = n } ∷ (told (λ k. r (suc k)) (λ k. w (suc k)) fds ++ rest)))
      (add_in-bits (r 0) (w 0))
mark_at-in (suc i) (cell ∷ fds) rest r w h =
    ap (cons_to (record cell { revents = bits (r 0) (w 0) }))
      (mark_at-in i fds rest (λ k. r (suc k)) (λ k. w (suc k)) (omega (arith, h)))

mark_at-out :
    (i : ℕ) (fds rest : List PollFd) (r w : ℕ → Bool)
    → i < length fds
    → mark_at add_out i (told r w fds ++ rest) ≡ some (told r (with_index i w) fds ++ rest)
unfolding mark_at cons_to
mark_at-out i [] rest r w h = absurd (omega (arith, h))
mark_at-out zero (cell ∷ fds) rest r w h =
    ap
      (λ n.
        some (record cell { revents = n } ∷ (told (λ k. r (suc k)) (λ k. w (suc k)) fds ++ rest)))
      (add_out-bits (r 0) (w 0))
mark_at-out (suc i) (cell ∷ fds) rest r w h =
    ap (cons_to (record cell { revents = bits (r 0) (w 0) }))
      (mark_at-out i fds rest (λ k. r (suc k)) (λ k. w (suc k)) (omega (arith, h)))

abbrev put_cells : List PollFd → M Glib (Unit {0})
put_cells cells = modify (λ s. record s { gpollfds = cells })

mark_all_lem :
    (ms : List Mark) (fds rest : List PollFd) (r w : ℕ → Bool) (s : Glib)
    → Below (length fds) ms
    → s.gpollfds ≡ told r w fds ++ rest
    → mark_all ms s
      ≡ ok tt (record s { gpollfds = told (readable_in ms r) (writable_in ms w) fds ++ rest })
unfolding mark_readable mark_writable or_undefined
mark_all_lem [] fds rest r w s b e = ap (λ c. ok tt (record s { gpollfds = c })) e
mark_all_lem (as_readable i ∷ ms) fds rest r w s b e =
    bind_ok (mark_readable i) _ s {s' = record s { gpollfds = told (with_index i r) w fds ++ rest }}
      (ap (λ c. or_undefined (mark_at add_in i c) put_cells s) e
        ∙ ap (λ o. or_undefined o put_cells s) (mark_at-in i fds rest r w b.0))
      (mark_all_lem ms fds rest (with_index i r) w _ b.1 refl)
mark_all_lem (as_writable i ∷ ms) fds rest r w s b e =
    bind_ok (mark_writable i) _ s {s' = record s { gpollfds = told r (with_index i w) fds ++ rest }}
      (ap (λ c. or_undefined (mark_at add_out i c) put_cells s) e
        ∙ ap (λ o. or_undefined o put_cells s) (mark_at-out i fds rest r w b.0))
      (mark_all_lem ms fds rest r (with_index i w) _ b.1 refl)

told-nothing : (fds : List PollFd) → map cleared fds ≡ told nothing nothing fds
told-nothing [] = refl
told-nothing (cell ∷ fds) = ap (λ r. cleared cell ∷ r) (told-nothing fds)

length-told : (r w : ℕ → Bool) (fds : List PollFd) → length (told r w fds) ≡ length fds
length-told r w [] = refl
length-told r w (cell ∷ fds) = ap suc (length-told (λ k. r (suc k)) (λ k. w (suc k)) fds)

fds_of_cleared :
    (fds : List PollFd)
    → map (λ (c : PollFd). c.fd) (map cleared fds) ≡ map (λ (c : PollFd). c.fd) fds
fds_of_cleared [] = refl
fds_of_cleared (cell ∷ fds) = ap (λ r. cell.fd ∷ r) (fds_of_cleared fds)

watch_of-cleared : (fds : List PollFd) → map watch_of (map cleared fds) ≡ map watch_of fds
unfolding watch_of
watch_of-cleared [] = refl
watch_of-cleared (cell ∷ fds) = ap (λ r. watch_of cell ∷ r) (watch_of-cleared fds)

-- `lwt_glib_get_sources` gives the descriptors of the `k`-th answer of the query, what is to be
-- watched for them and the timeout in seconds, and `lwt_glib_check` tells GLib what was marked.
pub record Tells {Double : Type 0} (context : Context) (seconds : ℤ → Double) (ms : List Mark)
    (s : Glib) (r : Run Glib (List ℤ × List ℕ × Double)) : Type 0 where
  pub k : ℕ
  pub last : Last context 0 0 s.fds_count k
  pub state : Glib
  pub ends :
      r
      ≡ ok
          (
            map (λ (cell : PollFd). cell.fd) (context.query k).1,
            map watch_of (context.query k).1,
            seconds (context.query k).0,
          )
          state
  pub calls :
      state.calls
      ≡ s.calls
        ++ dispatch ∷ []
        ++ prepare ∷ []
        ++ check context.priority
            (told (readable_in ms nothing) (writable_in ms nothing) (context.query k).1)
          ∷ []

module _ (context : Context) where
  open context use {priority, query}

  -- Where GLib wants no more than `need` descriptors, `gpollfds` has `fds_count` cells, and the
  -- indices of the marks are below the number of descriptors in every answer of the query:
  -- `lwt_glib_get_sources`, the marks and then `lwt_glib_check` return. The last query is the first
  -- after which the block has room for its answer. `lwt_glib_get_sources` gives the descriptors of
  -- this answer in their order, what is to be watched for each of them, and its timeout, as a number
  -- of seconds. GLib is then told, of each of these descriptors, that it is readable if its index was
  -- marked so, and writable if its index was marked so, and nothing else.
  pub lwt_glib_check-Tells :
      {Double : Type 0} (seconds : ℤ → Double) (need fuel : ℕ) (ms : List Mark) (s : Glib)
      → ((k : ℕ) → length (query k).1 ≤ need)
      → ((k : ℕ) → Below (length (query k).1) ms)
      → length s.gpollfds ≡ s.fds_count
      → need ≤ s.fds_count + fuel
      → Tells context seconds ms s (
          (lwt_glib_get_sources context seconds (suc fuel) >>= λ sources.
          mark_all ms >> (lwt_glib_check >> pure sources))
            s)
  unfolding lwt_glib_get_sources lwt_glib_check calls_to or_undefined
  lwt_glib_check-Tells seconds need fuel ms s bound below size h =
      let s1 : Glib = record s {
        calls = s.calls ++ dispatch ∷ [] ++ prepare ∷ [];
        max_priority = priority;
      } in
      let v = query_loop-Settles context 0 need fuel 0 s1 bound size (omega (arith, h)) in
      let fds : List PollFd = (query v.k).1 in
      let r : ℕ → Bool = readable_in ms nothing in
      let w : ℕ → Bool = writable_in ms nothing in
      let s2 : Glib = record s1 {
        gpollfds = map cleared fds ++ v.cells;
        fds_count = v.count;
        n_fds = length fds;
      } in
      let s3 : Glib = record s2 { gpollfds = told r w fds ++ v.cells } in
      record {
        k = v.k;
        last = v.last;
        state = record s3 { calls = s1.calls ++ check priority (told r w fds) ∷ [] };
        calls = refl;
        ends =
            bind_ok (lwt_glib_get_sources context seconds (suc fuel)) _ s
              {a = (map (λ (cell : PollFd). cell.fd) fds, map watch_of fds, seconds (query v.k).0)}
              {s' = s2}
              (bind_ok (query_loop context (suc fuel) 0 0) _ s1 v.ends (
                rw
                  (
                    clear_all fds v.cells (length fds) 0 (omega arith) (omega arith),
                    take_exact (map cleared fds) v.cells (length fds)
                        (sym (length-map fds cleared)),
                    fds_of_cleared fds,
                    watch_of-cleared fds,
                  )
                  refl))
              (bind_ok (mark_all ms) _ s2
                (mark_all_lem ms fds v.cells nothing nothing s2 (below v.k)
                  (ap (λ c. c ++ v.cells) (told-nothing fds)))
                (rw (take_exact (told r w fds) v.cells (length fds) (sym (length-told r w fds)))
                  refl));
      }
