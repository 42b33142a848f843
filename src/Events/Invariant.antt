-- ===== src/Events/Invariant.antt =====
-- Watchers that libev holds are in memory, with a callback that is a root.
use lwt_old.Base.{
  ℕ, suc, ◌<◌, ◌≡◌, ◌≢◌, refl, sym, ap, subst, ◌∙◌, ◌⊎◌, inl, inr, Bool, true, false, Option-cases,
  List, ◌∷◌, Option, none, some, update, arith,
}
use lwt_old.Base.Outcome.{Run, ok, raised, fault, bind_ok}
use lwt_old.Jobs.{mem, remove}
use lwt_old.Events.{
  Libev, Loop, Watcher, on_io, on_timer, new_watcher, store_callback, io_init, timer_init,
  remove_root, free_watcher, io_stop, timer_stop, handle, loop_once, unloop, invoke, init,
  init_loop, Reach, start, io, timer, stop_io, stop_timer, looped, unlooped, invoked,
}
use lwt_old.Events.Documented.{
  IsDocumented, callback_of, is_some, Once, mem-remove_ne, mem-remove_self, Once-remove,
}

module _ (libev : Libev) (d : IsDocumented libev) where
  open libev use {Watched, holds, pending}

  pub record Inv (s : Loop Watched) (has : ℕ → Option Watcher) : Type 0 where
    pub rooted : s.roots ≡ s.live
    pub calm : s.blocking ≡ false
    pub once : Once s.live
    pub below : (v : ℕ) → mem v s.live ≡ true → v < s.fresh
    pub kept : (v : ℕ) → mem v s.live ≡ is_some (has v)
    pub stored : (v : ℕ) (x : Watcher) → has v ≡ some x → s.callback v ≡ some (callback_of x)
    pub known : (v : ℕ) → holds s.watched v ≡ true → is_some (has v) ≡ true

  abbrev added : Loop Watched → ℕ → Watched → Loop Watched
  added s c l = record s {
    live = s.fresh ∷ s.live;
    fresh = suc s.fresh;
    callback = update (update s.callback s.fresh none) s.fresh (some c);
    roots = s.fresh ∷ s.roots;
    watched = l;
  }

  added-Inv :
      {s : Loop Watched} {has : ℕ → Option Watcher} (x : Watcher) (l : Watched)
      → Inv s has
      → ((v : ℕ) → holds l v ≡ true → (s.fresh ≡ v) ⊎ (holds s.watched v ≡ true))
      → Inv (added s (callback_of x) l) (update has s.fresh (some x))
  unfolding mem
  added-Inv {s} {has} x l i h = record {
    rooted = ap (λ (r : List ℕ). s.fresh ∷ r) i.rooted;
    calm = i.calm;
    once = (ground (arith, i.below s.fresh), i.once);
    below = λ v. ground (arith, i.below v);
    kept = λ v. ground (arith, i.kept v);
    stored = λ v y e. ground (arith, i.stored v y);
    known = λ v e. ground (arith, h v e, i.known v);
  }

  abbrev dropped : Loop Watched → ℕ → Watched → Loop Watched
  dropped s w l = record s { live = remove w s.live; roots = remove w s.roots; watched = l }

  dropped-Inv :
      {s : Loop Watched} {has : ℕ → Option Watcher} (w : ℕ) (l : Watched)
      → Inv s has
      → ((v : ℕ) → holds l v ≡ true → (w ≢ v) × (holds s.watched v ≡ true))
      → Inv (dropped s w l) (update has w none)
  dropped-Inv {s} {has} w l i h = record {
    rooted = ap (remove w) i.rooted;
    calm = i.calm;
    once = Once-remove w s.live i.once;
    below = λ v e.
        i.below v (ground (arith, e, mem-remove_ne v w s.live, mem-remove_self w s.live i.once));
    kept = λ v. ground (arith, i.kept v, mem-remove_ne v w s.live, mem-remove_self w s.live i.once);
    stored = λ v y e. ground (arith, i.stored v y);
    known = λ v e. ground (arith, h v e, i.known v);
  }

  pub io_stop_lem :
      {s : Loop Watched} {has : ℕ → Option Watcher} {x : Watcher} (w : ℕ)
      → Inv s has
      → has w ≡ some x
      → io_stop libev w s ≡ ok tt (dropped s w (libev.ev_io_stop w s.watched))
  unfolding io_stop remove_root free_watcher
  io_stop_lem {s} w i e =
      let live : mem w s.live ≡ true = i.kept w ∙ ap is_some e in
      let root : mem w s.roots ≡ true = ap (mem w) i.rooted ∙ live in
      bind_ok (remove_root libev w) _ s {s' = record s { roots = remove w s.roots }} (rw root refl)
        (rw live refl)

  pub timer_stop_lem :
      {s : Loop Watched} {has : ℕ → Option Watcher} {x : Watcher} (w : ℕ)
      → Inv s has
      → has w ≡ some x
      → timer_stop libev w s ≡ ok tt (dropped s w (libev.ev_timer_stop w s.watched))
  unfolding timer_stop remove_root free_watcher
  timer_stop_lem {s} w i e =
      let live : mem w s.live ≡ true = i.kept w ∙ ap is_some e in
      let root : mem w s.roots ≡ true = ap (mem w) i.rooted ∙ live in
      bind_ok (remove_root libev w) _ s {s' = record s { roots = remove w s.roots }} (rw root refl)
        (rw live refl)

  -- What holds of the state in which a stub returns.
  abbrev At : {A : Type 0} → (A → Loop Watched → Type 0) → Run (Loop Watched) A → Type 0
  At P (ok a t) = P a t
  At P (raised e t) = Unit {0}
  At P fault = Unit {0}

  pub invoke_lem :
      {s : Loop Watched} {has : ℕ → Option Watcher} (w : ℕ) (l : Watched)
      → Inv s has
      → pending s.watched ≡ some (w, l)
      → (x : Watcher) × (has w ≡ some x)
        × (invoke libev s ≡ ok tt (record s { watched = l; called = callback_of x ∷ s.called }))
  unfolding invoke handle
  invoke_lem {s} {has} w l i e =
      let held : is_some (has w) ≡ true = i.known w ((d.taken w s.watched l e).0) in
      let (x, h) = some_of (has w) held in
      let live : mem w s.live ≡ true = i.kept w ∙ held in
      let root : mem w s.roots ≡ true = ap (mem w) i.rooted ∙ live in
      (x, h, rw (e, invoke) (rw (i.stored w x h, handle) (rw (i.calm, live, root) refl)))
    where
      some_of : (o : Option Watcher) → is_some o ≡ true → (x : Watcher) × (o ≡ some x)
      some_of (some x) h = (x, refl)
      some_of none h = cc

  taken-Inv :
      {s : Loop Watched} {has : ℕ → Option Watcher} (w : ℕ) (l : Watched) (called : List ℕ)
      → Inv s has
      → pending s.watched ≡ some (w, l)
      → Inv (record s { watched = l; called = called }) has
  taken-Inv {s} w l called i e = record {
    rooted = i.rooted;
    calm = i.calm;
    once = i.once;
    below = i.below;
    kept = i.kept;
    stored = i.stored;
    known = λ v h. i.known v ((d.taken w s.watched l e).1 v h);
  }

  invoke-Inv :
      {s : Loop Watched} {has : ℕ → Option Watcher}
      → Inv s has
      → At (λ _ t. Inv t has) (invoke libev s)
  unfolding invoke
  invoke-Inv {s} {has} i = elim (Option-cases (pending s.watched)) [
    | inl e ↦ rw (e, invoke) i
    | inr ((w, l), e) ↦
        let (x, h, r) = invoke_lem w l i e in
        subst (At (λ _ t. Inv t has)) (sym r) (taken-Inv w l _ i e)
  ]

  abbrev Begun : (Loop Watched → Type 0) → Option (Loop Watched) → Type 0
  Begun P (some s) = P s
  Begun P none = Unit {0}

  init-Inv : Inv (init libev) (λ w. none)
  unfolding mem
  init-Inv = record {
    rooted = refl;
    calm = refl;
    once = tt;
    below = λ v h. cc;
    kept = λ v. refl;
    stored = λ v x h. cc;
    known = λ v h. cc (sym (d.at_first v) ∙ h);
  }

  -- A call that keeps the watchers, and after which libev holds no more of them.
  kept-Inv :
      {s : Loop Watched} {has : ℕ → Option Watcher} {b : Bool} (l : Watched)
      → Inv s has
      → b ≡ false
      → ((v : ℕ) → holds l v ≡ true → holds s.watched v ≡ true)
      → Inv (record s { watched = l; blocking = b }) has
  kept-Inv l i calm h = record {
    rooted = i.rooted;
    calm = calm;
    once = i.once;
    below = i.below;
    kept = i.kept;
    stored = i.stored;
    known = λ v e. i.known v (h v e);
  }

  pub Reach-Inv : {s : Loop Watched} {has : ℕ → Option Watcher} → Reach libev s has → Inv s has
  unfolding io_init timer_init new_watcher store_callback loop_once unloop init_loop mem
  Reach-Inv (start e) = subst (Begun (λ t. Inv t (λ w. none))) e init-Inv
  Reach-Inv (io {s} {has = has} fd event c r e) =
      subst (At (λ w t. Inv t (update has w (some (on_io c))))) e
        (added-Inv (on_io c) _ (Reach-Inv r) (d.io_started fd event s.fresh s.watched))
  Reach-Inv (timer {s} {has = has} delay repeat c r e) =
      subst (At (λ w t. Inv t (update has w (some (on_timer c))))) e
        (added-Inv (on_timer c) _ (Reach-Inv r) (d.timer_started delay repeat s.fresh s.watched))
  Reach-Inv (stop_io {s} {has = has} w r h e) =
      subst (At (λ _ t. Inv t (update has w none))) (sym (io_stop_lem w (Reach-Inv r) h) ∙ e)
        (dropped-Inv w _ (Reach-Inv r) (d.io_stopped w s.watched))
  Reach-Inv (stop_timer {s} {has = has} w r h e) =
      subst (At (λ _ t. Inv t (update has w none))) (sym (timer_stop_lem w (Reach-Inv r) h) ∙ e)
        (dropped-Inv w _ (Reach-Inv r) (d.timer_stopped w s.watched))
  Reach-Inv (looped {s} {has = has} block r e) =
      subst (At (λ _ t. Inv t has)) e (kept-Inv _ (Reach-Inv r) refl (d.waited block s.watched))
  Reach-Inv (unlooped {s} {has = has} r e) =
      subst (At (λ _ t. Inv t has)) e
        (kept-Inv _ (Reach-Inv r) (Reach-Inv r).calm (d.broken s.watched))
  Reach-Inv (invoked {has = has} r e) = subst (At (λ _ t. Inv t has)) e (invoke-Inv (Reach-Inv r))
