-- ===== src/Glib/Loops.antt =====
-- The loops of `lwt_glib_poll` over the block.
use lwt_old.Base.{
  take_exact, ℕ, zero, suc, ◌+◌, ◌≤◌, ◌≡◌, refl, sym, ap, ◌∙◌, List, [], ◌∷◌, ◌++◌, map, some,
  length, take, drop, arith,
}
use lwt_old.Glib.{
  PollFd, Source, has_in, has_out, events_of, gint, clear_revents, add_fds, store_revents, collect,
  cons_to,
}

abbrev pub cleared : PollFd → PollFd
cleared cell = record cell { revents = 0 }

abbrev pub entry : Source → PollFd
entry src = record { fd = gint src.source_fd; events = events_of src; revents = 0 }

-- The answers for the descriptors of Lwt, the last in front.
abbrev pub answers : List Source → List ℕ → List Source → List Source
answers (src ∷ fds) (r ∷ rs) result =
    answers fds rs
      (record { source_fd = src.source_fd; readable = has_in r; writable = has_out r } ∷ result)
answers _ _ result = result

clear_first :
    (n : ℕ) (cells : List PollFd)
    → n ≤ length cells
    → clear_revents n cells ≡ some (map cleared (take n cells) ++ drop n cells)
unfolding clear_revents cons_to
clear_first zero cells h = refl
clear_first (suc n) [] h = absurd (omega (arith, h))
clear_first (suc n) (cell ∷ cells) h =
    ap (cons_to (cleared cell)) (clear_first n cells (omega (arith, h)))

pub clear_all :
    (fds cells : List PollFd) (t n : ℕ)
    → t ≡ length fds + n
    → n ≤ length cells
    → clear_revents t (fds ++ cells)
      ≡ some (map cleared fds ++ (map cleared (take n cells) ++ drop n cells))
unfolding clear_revents cons_to
clear_all [] cells t n e h =
    ap (λ k. clear_revents k cells) (omega (arith, e)) ∙ clear_first n cells h
clear_all (x ∷ fds) cells zero n e h = absurd (omega (arith, e))
clear_all (x ∷ fds) cells (suc t) n e h =
    ap (cons_to (cleared x)) (clear_all fds cells t n (omega (arith, e)) h)

add_here :
    (cells rest : List PollFd) (sources : List Source)
    → length cells ≡ length sources
    → add_fds zero (length sources) sources (map cleared cells ++ rest)
      ≡ some (map entry sources ++ rest)
unfolding add_fds cons_to
add_here [] [] [] h = refl
add_here [] (cell ∷ rest) [] h = refl
add_here [] rest (src ∷ sources) h = absurd (omega (arith, h))
add_here (cell ∷ cells) rest [] h = absurd (omega (arith, h))
add_here (cell ∷ cells) rest (src ∷ sources) h =
    ap (cons_to (entry src)) (add_here cells rest sources (omega (arith, h)))

pub add_all :
    (fds cells rest : List PollFd) (sources : List Source)
    → length cells ≡ length sources
    → add_fds (length fds) (length sources) sources (map cleared fds ++ (map cleared cells ++ rest))
      ≡ some (map cleared fds ++ (map entry sources ++ rest))
unfolding add_fds cons_to
add_all [] cells rest sources h = add_here cells rest sources h
add_all (x ∷ fds) cells rest sources h = ap (cons_to (cleared x)) (add_all fds cells rest sources h)

pub take_stored :
    (rs : List ℕ) (xs rest : List PollFd) (t : ℕ)
    → t ≡ length xs
    → take t (store_revents rs (xs ++ rest)) ≡ store_revents rs xs
unfolding store_revents
take_stored [] xs rest t e = take_exact xs rest t e
take_stored (r ∷ rs) [] rest t e = ap (λ k. take k (store_revents (r ∷ rs) rest)) e
take_stored (r ∷ rs) (x ∷ xs) rest zero e = absurd (omega (arith, e))
take_stored (r ∷ rs) (x ∷ xs) rest (suc t) e =
    ap (λ l. record x { revents = r } ∷ l) (take_stored rs xs rest t (omega (arith, e)))

pub collect_skip :
    (xs rest : List PollFd) (rs : List ℕ) (t count : ℕ) (sources result : List Source)
    → t ≡ length xs
    → t ≤ length rs
    → collect t count sources (store_revents rs (xs ++ rest)) result
      ≡ collect zero count sources (store_revents (drop t rs) rest) result
unfolding collect store_revents
collect_skip [] rest rs t count sources result e h =
    ap (λ k. collect k count sources (store_revents rs rest) result) e
    ∙ ap (λ k. collect zero count sources (store_revents (drop k rs) rest) result) (sym e)
collect_skip (x ∷ xs) rest rs zero count sources result e h = absurd (omega (arith, e))
collect_skip (x ∷ xs) rest [] (suc t) count sources result e h = absurd (omega (arith, h))
collect_skip (x ∷ xs) rest (r ∷ rs) (suc t) count sources result e h =
    collect_skip xs rest rs t count sources result (omega (arith, e)) (omega (arith, h))

pub collect_here :
    (sources result : List Source) (cells : List PollFd) (rs : List ℕ)
    → length sources ≤ length cells
    → length sources ≤ length rs
    → collect zero (length sources) sources (store_revents rs cells) result
      ≡ some (answers sources rs result)
unfolding collect store_revents
collect_here [] result [] [] h l = refl
collect_here [] result [] (r ∷ rs) h l = refl
collect_here [] result (cell ∷ cells) [] h l = refl
collect_here [] result (cell ∷ cells) (r ∷ rs) h l = refl
collect_here (src ∷ sources) result [] rs h l = absurd (omega (arith, h))
collect_here (src ∷ sources) result (cell ∷ cells) [] h l = absurd (omega (arith, l))
collect_here (src ∷ sources) result (cell ∷ cells) (r ∷ rs) h l =
    collect_here sources _ cells rs (omega (arith, h)) (omega (arith, l))
