-- ===== src/Events/Safety.antt =====
-- What becomes of the watchers that OCaml code has.
use lwt_old.Base.{ℕ, ◌≡◌, ap, not, ◌&&◌, ◌==◌, ◌∷◌, Option, some, arith}
use lwt_old.Base.Outcome.{ok}
use lwt_old.Jobs.{mem, remove}
use lwt_old.Events.{Libev, Loop, Watcher, on_io, on_timer, invoke, Reach}
use lwt_old.Events.Documented.{
  IsDocumented, callback_of, stop_of, is_some, mem-remove_ne, mem-remove_self,
}
use lwt_old.Events.Invariant.{io_stop_lem, timer_stop_lem, invoke_lem, Reach-Inv}

module _ (libev : Libev) (d : IsDocumented libev) {s : Loop libev.Watched}
    {has : ℕ → Option Watcher} (r : Reach libev s has) where
  open libev use {Watched, pending}

  -- For a libev that holds no watcher but those that were started and not stopped since, and
  -- OCaml code that stops only watchers that it has: in every reachable state, if a watcher is
  -- pending, OCaml code has it, and a round of `ev_invoke_pending` calls the callback that it was
  -- created with, and nothing else.
  pub Reach-called :
      {w : ℕ} {l : Watched}
      → pending s.watched ≡ some (w, l)
      → (x : Watcher) × (has w ≡ some x)
        × (invoke libev s ≡ ok tt (record s { watched = l; called = callback_of x ∷ s.called }))
  Reach-called {w} {l} e = invoke_lem libev d w l (Reach-Inv libev d r) e

  -- For such a libev and such code, in every reachable state, a watcher that OCaml code has can be
  -- stopped by the stub of its kind; then the blocks in memory are just those of the other
  -- watchers that it has, and the roots are just the fields of these blocks.
  pub Reach-stopped :
      {w : ℕ} {x : Watcher}
      → has w ≡ some x
      → (t : Loop Watched) × (stop_of libev x w s ≡ ok tt t)
        × (t.roots ≡ t.live)
        × ((v : ℕ) → mem v t.live ≡ (not (w == v) && is_some (has v)))
  Reach-stopped {w} {x = on_io c} e =
      let i = Reach-Inv libev d r in
      (
        _,
        io_stop_lem libev d w i e,
        ap (remove w) i.rooted,
        λ v. ground (arith, i.kept v, mem-remove_ne v w s.live, mem-remove_self w s.live i.once),
      )
  Reach-stopped {w} {x = on_timer c} e =
      let i = Reach-Inv libev d r in
      (
        _,
        timer_stop_lem libev d w i e,
        ap (remove w) i.rooted,
        λ v. ground (arith, i.kept v, mem-remove_ne v w s.live, mem-remove_self w s.live i.once),
      )
