-- ===== src/Glib/Query.antt =====
-- Where the need of GLib is bounded, the loop around `g_main_context_query` ends.
use lwt_old.Base.{
  ℕ, zero, suc, ◌+◌, ◌≤◌, ◌<◌, ◌≡◌, refl, ap, inl, inr, true, false, List, [], ◌∷◌, ◌++◌, length,
  length-append, drop, length-drop, replicate, length-replicate, ltb, Bool-cases, ltb→lt, arith,
}
use lwt_old.Base.Int.{ℤ}
use lwt_old.Base.Outcome.{Run, ok}
use lwt_old.Glib.{PollFd, Glib, Context, overlay, grow, query_loop}

overlay_fits :
    (fds cells : List PollFd)
    → length fds ≤ length cells
    → overlay fds cells ≡ fds ++ drop (length fds) cells
unfolding overlay
overlay_fits [] cells h = refl
overlay_fits (x ∷ fds) [] h = absurd (omega (arith, h))
overlay_fits (x ∷ fds) (cell ∷ cells) h =
    ap (λ r. x ∷ r) (overlay_fits fds cells (omega (arith, h)))

-- With a block of `count` cells, the queries from the number `k` on end with the number `last`: it
-- is the first after which the block has room for its answer and for `extra` more, where after each
-- other query the block is made as large as that.
pub data Last (context : Context) (extra : ℕ) : ℕ → ℕ → ℕ → Type 0 where
  enough : {k count : ℕ} → extra + length (context.query k).1 ≤ count → Last context extra k count k
  again :
      {k count last : ℕ}
      → count < extra + length (context.query k).1
      → Last context extra (suc k) (length (context.query k).1 + extra) last
      → Last context extra k count last

-- The loop has ended with the `k`-th answer, and there are enough cells for `extra` more.
pub record Settles (context : Context) (extra first : ℕ) (s : Glib) (r : Run Glib ℤ) : Type 0 where
  pub k : ℕ
  pub last : Last context extra first s.fds_count k
  pub cells : List PollFd
  pub room : extra ≤ length cells
  pub count : ℕ
  pub size : length ((context.query k).1 ++ cells) ≡ count
  pub ends :
      r
      ≡ ok (context.query k).0 (record s {
        gpollfds = (context.query k).1 ++ cells;
        fds_count = count;
        n_fds = length (context.query k).1;
      })

module _ (context : Context) (extra need : ℕ) where
  open context use {query, junk}

  -- The last call finds enough cells.
  settled :
      (fuel k : ℕ) (s : Glib)
      → length s.gpollfds ≡ s.fds_count
      → ltb s.fds_count (extra + length (query k).1) ≡ false
      → Settles context extra k s (query_loop context (suc fuel) k extra s)
  unfolding query_loop
  settled fuel k s size none_few =
      let fits : extra + length (query k).1 ≤ length s.gpollfds = ground (arith, none_few, size) in
      record {
        k = k;
        last = enough (omega (arith, size, fits));
        cells = drop (length (query k).1) s.gpollfds;
        room = omega (arith, length-drop (length (query k).1) s.gpollfds, fits);
        count = s.fds_count;
        size = omega (
          arith,
          size,
          fits,
          length-append (query k).1 (drop (length (query k).1) s.gpollfds),
          length-drop (length (query k).1) s.gpollfds,
        );
        ends = rw (none_few, overlay_fits (query k).1 s.gpollfds (omega (arith, fits))) refl;
      }

  -- A call that finds too few is followed by another, with more of them.
  grown :
      (fuel k : ℕ) (s : Glib)
      → ltb s.fds_count (extra + length (query k).1) ≡ true
      → Settles context extra
          (suc k)
          (record s {
            fds_count = length (query k).1 + extra;
            gpollfds = replicate (length (query k).1 + extra) junk;
            n_fds = length (query k).1;
          })
          (query_loop context fuel (suc k) extra (record s {
            fds_count = length (query k).1 + extra;
            gpollfds = replicate (length (query k).1 + extra) junk;
            n_fds = length (query k).1;
          }))
      → Settles context extra k s (query_loop context (suc fuel) k extra s)
  unfolding query_loop grow
  grown fuel k s few v = record {
    k = v.k;
    last = again (ltb→lt _ _ few) v.last;
    cells = v.cells;
    room = v.room;
    count = v.count;
    size = v.size;
    ends = rw few v.ends;
  }

  -- With so much fuel that the cells that are there or are added are enough.
  pub query_loop-Settles :
      (fuel k : ℕ) (s : Glib)
      → ((k : ℕ) → length (query k).1 ≤ need)
      → length s.gpollfds ≡ s.fds_count
      → extra + need ≤ s.fds_count + fuel
      → Settles context extra k s (query_loop context (suc fuel) k extra s)
  query_loop-Settles zero k s bound size h = settled zero k s size (ground (arith, bound k, h))
  query_loop-Settles (suc fuel) k s bound size h =
      elim (Bool-cases (ltb s.fds_count (extra + length (query k).1))) [
        | inr none_few ↦ settled (suc fuel) k s size none_few
        | inl few ↦
            let lt : s.fds_count < extra + length (query k).1 = ltb→lt _ _ few in
            grown (suc fuel) k s few (
              query_loop-Settles fuel (suc k)
                (record s {
                  fds_count = length (query k).1 + extra;
                  gpollfds = replicate (length (query k).1 + extra) junk;
                  n_fds = length (query k).1;
                })
                bound (length-replicate (length (query k).1 + extra) junk) (omega (arith, h, lt)))
      ]
