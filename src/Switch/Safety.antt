-- ===== src/Switch/Safety.antt =====
-- What holds of the threads and their stacks in every reachable state.
use lwt_old.Base.{
  ℕ, ◌≡◌, ◌≢◌, refl, sym, ap, ap₂, subst, ◌∙◌, ◌⊎◌, inl, inr, Bool-cases, ==_iff, ◌==◌, true, List,
  [], ◌∷◌, Option, none, some, update_self, length, arith,
}
use lwt_old.Switch.{
  Thread, absent, running, inside, passed, ready, allocating, taking, called, blocked, calling,
  resuming, leaving, executing, entering, asleep, woken, Process, MainStep, take_frame, CallStep,
  mark_blocked, succeed, leave, WorkerStep, take_over_woken, Reach,
}
use lwt_old.Switch.Exclusive.{In}
use lwt_old.Switch.Views.{frame_of, stack_of, is_calling, is_asleep, is_woken, View, view, Good}
use lwt_old.Switch.Invariant.{well_placed}
use lwt_old.Switch.Steps.{Reach-Inv}

pub data Stack : Type 0 where
  ocaml : Stack
  alternative : ℕ → Stack
  own : ℕ → Stack

-- The stack that a thread is on.
unfoldable pub stack : Thread → Option Stack
stack absent = none
stack running = some ocaml
stack (inside job) = some ocaml
stack (passed job) = some ocaml
stack (ready job) = some ocaml
stack (allocating job) = some ocaml
stack (taking job) = some ocaml
stack (called job f) = some (alternative f)
stack (blocked job f) = some (alternative f)
stack (calling job f) = some (alternative f)
stack (resuming f) = some ocaml
stack (leaving f k) = some (alternative f)
stack (executing job k) = some (own k)
stack (entering k) = some (own k)
stack (asleep k) = some (own k)
stack (woken k) = some (own k)

-- The stack is among those that are not in use.
pub IsFree : Process → Stack → Type 0
IsFree s ocaml = ⊥
IsFree s (alternative n) = In n s.blocking_call_enter
IsFree s (own n) = In n s.become_worker

-- What being on a stack says of a thread.
Uses : View → ℕ → Thread → Stack → Type 0
Uses v i x ocaml = i ≡ v.main_thread
Uses v i x (alternative n) = frame_of x ≡ some n
Uses v i x (own n) = stack_of x ≡ some n

the_same :
    (v : View) (i : ℕ) (x : Thread) {k' : Stack} (k : Stack)
    → Uses v i x k'
    → some k' ≡ some k
    → Uses v i x k
the_same v i x {k'} k u h = let e : k' ≡ k = cc h in subst (Uses v i x) e u

stack-Uses :
    (v : View) (i : ℕ) (x : Thread) (k : Stack) → Good v i x → stack x ≡ some k → Uses v i x k
unfolding stack Uses
stack-Uses v i absent k g h = cc
stack-Uses v i running k g h = the_same v i running k g.0 h
stack-Uses v i (inside job) k g h = the_same v i (inside job) k g.0 h
stack-Uses v i (passed job) k g h = the_same v i (passed job) k g.0 h
stack-Uses v i (ready job) k g h = the_same v i (ready job) k g.0 h
stack-Uses v i (allocating job) k g h = the_same v i (allocating job) k g.0 h
stack-Uses v i (taking job) k g h = the_same v i (taking job) k g.0.0 h
stack-Uses v i (called job f) k g h = the_same v i (called job f) k refl h
stack-Uses v i (blocked job f) k g h = the_same v i (blocked job f) k refl h
stack-Uses v i (calling job f) k g h = the_same v i (calling job f) k refl h
stack-Uses v i (resuming f) k g h = the_same v i (resuming f) k g.0 h
stack-Uses v i (leaving f n) k g h = the_same v i (leaving f n) k refl h
stack-Uses v i (executing job n) k g h = the_same v i (executing job n) k refl h
stack-Uses v i (entering n) k g h = the_same v i (entering n) k refl h
stack-Uses v i (asleep n) k g h = the_same v i (asleep n) k refl h
stack-Uses v i (woken n) k g h = the_same v i (woken n) k refl h

woken_at : (x : Thread) → is_woken x ≡ true → (k : ℕ) × (x ≡ woken k)
woken_at (woken k) h = (k, refl)
woken_at absent h = cc
woken_at running h = cc
woken_at (inside job) h = cc
woken_at (passed job) h = cc
woken_at (ready job) h = cc
woken_at (allocating job) h = cc
woken_at (taking job) h = cc
woken_at (called job f) h = cc
woken_at (blocked job f) h = cc
woken_at (calling job f) h = cc
woken_at (resuming f) h = cc
woken_at (leaving f k) h = cc
woken_at (executing job k) h = cc
woken_at (entering k) h = cc
woken_at (asleep k) h = cc

module _ {size : ℕ} {links : ℕ → ℕ} {s : Process} (r : Reach size links s) where
  alone :
      (i j : ℕ) (k : Stack)
      → Uses (view s (Reach-Inv r).away) i (s.threads i) k
      → Uses (view s (Reach-Inv r).away) j (s.threads j) k
      → (i ≡ j) × ¬ IsFree s k
  unfolding Uses IsFree
  alone i j ocaml a b = (a ∙ sym b, λ h. h)
  alone i j (alternative n) a b =
      let frames = (Reach-Inv r).core.frames in
      (frames.apart i j n a b, λ free. frames.not_held i n free a)
  alone i j (own n) a b =
      let stacks = (Reach-Inv r).core.stacks in
      (stacks.apart i j n a b, λ free. stacks.not_held i n free a)

  -- In every reachable state, two threads on the same stack, be it that of the OCaml code, an
  -- alternative one or that of a worker, are one thread, and the stack is not among those in
  -- `blocking_call_enter` and `become_worker`.
  pub Reach-stack :
      {i j : ℕ} {k : Stack}
      → stack (s.threads i) ≡ some k
      → stack (s.threads j) ≡ some k
      → (i ≡ j) × ¬ IsFree s k
  Reach-stack {i} {j} {k} a b =
      let v = Reach-Inv r in
      let w : View = view s v.away in
      alone i j k (stack-Uses w i (s.threads i) k (v.core.good i) a)
        (stack-Uses w j (s.threads j) k (v.core.good j) b)

  nonempty :
      (i : ℕ) (away nodes : List ℕ)
      → In i away
      → length away ≡ length nodes
      → (node : ℕ) × (rest : List ℕ) × (nodes ≡ node ∷ rest)
  nonempty i [] nodes m e = elim m [ ]
  nonempty i (a ∷ away) [] m e = absurd (omega (arith, e))
  nonempty i (a ∷ away) (k ∷ nodes) m e = (k, nodes, refl)

  a_frame : (frames : List ℕ) → frames ≢ [] → (node : ℕ) × (rest : List ℕ) × (frames ≡ node ∷ rest)
  a_frame [] n = absurd (n refl)
  a_frame (k ∷ frames) n = (k, frames, refl)

  -- In every reachable state, a thread that is about to take a frame, or that ends its call, can
  -- go on: there is a frame, and there is a checkpoint of a worker if the thread is not the main
  -- thread any more, so neither assertion of the code fails.
  pub Reach-goes_on :
      {i job frame : ℕ}
      → (s.threads i ≡ taking job) ⊎ (s.threads i ≡ calling job frame)
      → (t : Process) × (MainStep i s t ⊎ CallStep i s t)
  Reach-goes_on {i} (inl e) =
      let (node, rest, l) = a_frame s.blocking_call_enter (well_placed (Reach-Inv r).core i e).1 in
      (_, inl (take_frame e l))
  Reach-goes_on {i} (inr e) = elim (Bool-cases (s.main_thread == i)) [
    | inl same ↦ (_, inr (succeed e ((==_iff s.main_thread i).0 same)))
    | inr differs ↦
        let v = Reach-Inv r in
        let other : s.main_thread ≢ i = ground (arith, differs) in
        let (node, rest, l) =
          nonempty i v.away s.become_worker ((well_placed v.core i e).1 (λ m. other (sym m)))
            v.core.counted in
        (_, inr (leave e other l))
  ]

  -- In every reachable state, a thread that has jumped to a frame goes on there with the job and
  -- the frame of its jump.
  Reach-called :
      {i job frame : ℕ}
      → s.threads i ≡ called job frame
      → (t : Process) × CallStep i s t × (t.threads i ≡ blocked job frame)
  Reach-called {i} {job} {frame} e =
      let h : Good (view s (Reach-Inv r).away) i (called job frame) =
        well_placed (Reach-Inv r).core i e in
      (
        _,
        mark_blocked e,
        update_self s.threads i (blocked s.blocking_call s.blocking_call_frame)
            ∙ ap₂ blocked h.1 h.2,
      )

  -- In every reachable state, the thread that is still the main thread at the end of its call comes
  -- back to the code that took the frame of that call.
  pub Reach-resumes :
      {i job frame : ℕ}
      → s.threads i ≡ calling job frame
      → s.main_thread ≡ i
      → (t : Process) × CallStep i s t × (t.threads i ≡ resuming frame)
  Reach-resumes {i} {job} {frame} e m =
      let h : Good (view s (Reach-Inv r).away) i (calling job frame) =
        well_placed (Reach-Inv r).core i e in
      (
        _,
        succeed e m,
        update_self s.threads i (resuming s.blocking_call_leave) ∙ ap resuming (h.2 (sym m)),
      )

  -- While the main thread executes its call and another thread waits, a thread has been woken that
  -- can become the main thread at once.
  pub Reach-woken :
      {job frame j k : ℕ}
      → s.threads s.main_thread ≡ calling job frame
      → s.threads j ≡ asleep k
      → (w : ℕ) × (t : Process) × WorkerStep w s t × (t.main_thread ≡ w) × (t.threads w ≡ running)
  Reach-woken {j = j} e a =
      let v = Reach-Inv r in
      let (w, p) = v.wakes (ap is_calling e) j (ap is_asleep a) in
      let (k, q) = woken_at (s.threads w) p in
      (
        w,
        _,
        take_over_woken q ((well_placed v.core s.main_thread e).0 refl),
        refl,
        update_self s.threads w running,
      )
