-- ===== src/Glib/Examples.antt =====
-- The theorems on polling for GLib at a concrete context.
use lwt_old.Base.{ℕ, ◌≤◌, ◌≡◌, refl, true, false, List, [], ◌∷◌, map, length, length-map, arith}
use lwt_old.Base.Int.{ℤ, pos, negsuc}
use lwt_old.Glib.{PollFd, Glib, Context, Source, lwt_glib_poll}
use lwt_old.Base.Outcome.{◌>>=◌, ◌>>◌, pure}
use lwt_old.Glib.Sources.{lwt_glib_get_sources, lwt_glib_check}
use lwt_old.Glib.Sources.Marks.{
  Below, as_readable, as_writable, mark_all, Tells, lwt_glib_check-Tells,
}
use lwt_old.Glib.Poll.{Polls, lwt_glib_poll-Polls}

abbrev cell : ℕ → ℕ → PollFd
cell fd events = record { fd = pos fd; events = events; revents = 0 }

-- GLib watches two descriptors; each descriptor is ready for what it is watched for.
abbrev context : Context
context = record {
  priority = 3;
  query = λ k. (pos 500, cell 9 1 ∷ cell 10 4 ∷ []);
  poll_func = λ fds wait. map (λ c. c.events) fds;
  junk = cell 77 7;
}

abbrev sources : List Source
sources = record { source_fd = pos 4; readable = true; writable = false } ∷ []

abbrev one_cell : Glib
one_cell = record {
  gpollfds = cell 1 1 ∷ [];
  fds_count = 1;
  n_fds = 0;
  max_priority = 0;
  calls = [];
}

answered : (fds : List PollFd) (wait : ℤ) → length (context.poll_func fds wait) ≡ length fds
answered fds wait = length-map fds (λ c. c.events)

two : (k : ℕ) → length (context.query k).1 ≤ 2
two k = omega arith

lwt_glib_poll-Polls_example :
    Polls context sources
      (negsuc 0)
      one_cell
      (lwt_glib_poll context 3 sources 1 (negsuc 0) one_cell)
lwt_glib_poll-Polls_example =
    lwt_glib_poll-Polls context sources (negsuc 0) 2 2 one_cell two answered refl (omega arith)

-- Seconds as a decimal number, with its exponent.
abbrev decimal : ℤ → ℤ × ℤ
decimal timeout = (timeout, negsuc 2)

Below-two : (k : ℕ) → Below (length (context.query k).1) (as_readable 0 ∷ as_writable 1 ∷ [])
Below-two k = omega arith

lwt_glib_check-Tells_example : Tells context decimal (as_readable 0 ∷ as_writable 1 ∷ []) one_cell (
    (lwt_glib_get_sources context decimal 3 >>= λ sources.
    mark_all (as_readable 0 ∷ as_writable 1 ∷ []) >> (lwt_glib_check >> pure sources))
      one_cell)
lwt_glib_check-Tells_example =
    lwt_glib_check-Tells context decimal 2 2 (as_readable 0 ∷ as_writable 1 ∷ []) one_cell two
      Below-two refl (omega arith)
