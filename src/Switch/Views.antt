-- ===== src/Switch/Views.antt =====
-- What each thread has in its hands, and what holds of the shared state where it stands.
use lwt_old.Base.{
  ℕ, ◌≡◌, ◌≢◌, refl, sym, subst, ◌∙◌, inl, inr, Bool, true, false, List, [], Option, none, some,
  update, fun_ext, arith, Bool-cases, ==_iff, ◌==◌,
}
use lwt_old.Switch.{
  MainState, state_running, state_blocked, Thread, absent, running, inside, passed, ready,
  allocating, taking, called, blocked, calling, resuming, leaving, executing, entering, asleep,
  woken, Process,
}
use lwt_old.Switch.Exclusive.{In}

abbrev pub frame_of : Thread → Option ℕ
frame_of (called job f) = some f
frame_of (blocked job f) = some f
frame_of (calling job f) = some f
frame_of (resuming f) = some f
frame_of (leaving f k) = some f
frame_of _ = none

abbrev pub stack_of : Thread → Option ℕ
stack_of (leaving f k) = some k
stack_of (executing job k) = some k
stack_of (entering k) = some k
stack_of (asleep k) = some k
stack_of (woken k) = some k
stack_of _ = none

-- The thread has marked the main thread as blocked, and has not ended its call.
abbrev pub in_call : Thread → Bool
in_call (blocked job f) = true
in_call (calling job f) = true
in_call _ = false

abbrev pub is_calling : Thread → Bool
is_calling (calling job f) = true
is_calling _ = false

abbrev pub is_asleep : Thread → Bool
is_asleep (asleep k) = true
is_asleep _ = false

abbrev pub is_woken : Thread → Bool
is_woken (woken k) = true
is_woken _ = false

-- The shared state. `away` are the threads in a call that another thread has replaced.
pub record View : Type 0 where
  pub main_state : MainState
  pub main_thread : ℕ
  pub enter : List ℕ
  pub become : List ℕ
  pub job : ℕ
  pub frame : ℕ
  pub leave : ℕ
  pub fresh_frame : ℕ
  pub fresh_stack : ℕ
  pub away : List ℕ

abbrev pub view : Process → List ℕ → View
view s away = record {
  main_state = s.main_state;
  main_thread = s.main_thread;
  enter = s.blocking_call_enter;
  become = s.become_worker;
  job = s.blocking_call;
  frame = s.blocking_call_frame;
  leave = s.blocking_call_leave;
  fresh_frame = s.fresh_frame;
  fresh_stack = s.fresh_stack;
  away = away;
}

abbrev pub Main : View → ℕ → Type 0
Main v i = (i ≡ v.main_thread) × (v.main_state ≡ state_running)

abbrev pub Call : View → ℕ → ℕ → Type 0
Call v i f =
    (i ≡ v.main_thread → v.main_state ≡ state_blocked)
    × (i ≢ v.main_thread → In i v.away)
    × (i ≡ v.main_thread → v.leave ≡ f)

abbrev pub Good : View → ℕ → Thread → Type 0
Good v i running = Main v i
Good v i (inside job) = Main v i
Good v i (passed job) = Main v i
Good v i (ready job) = Main v i
Good v i (allocating job) = Main v i
Good v i (taking job) = Main v i × (v.enter ≢ [])
Good v i (called job f) = Main v i × (v.job ≡ job) × (v.frame ≡ f) × (v.leave ≡ f)
Good v i (blocked job f) = Call v i f
Good v i (calling job f) = Call v i f
Good v i (resuming f) = Main v i
Good v i _ = Unit {0}

abbrev pub held : (Thread → Option ℕ) → (ℕ → Thread) → ℕ → Option ℕ
held f threads j = f (threads j)

-- From one shared state to another, by what a thread needs of it.
pub Good-map :
    (v v' : View) (j : ℕ) (x : Thread)
    → (Main v j
        → Main v' j
          × (v.enter ≢ [] → v'.enter ≢ [])
          × (v'.job ≡ v.job)
          × (v'.frame ≡ v.frame)
          × (v'.leave ≡ v.leave))
    → ((k : ℕ) → Call v j k → Call v' j k)
    → Good v j x
    → Good v' j x
Good-map v v' j absent f g h = tt
Good-map v v' j running f g h = (f h).0
Good-map v v' j (inside job) f g h = (f h).0
Good-map v v' j (passed job) f g h = (f h).0
Good-map v v' j (ready job) f g h = (f h).0
Good-map v v' j (allocating job) f g h = (f h).0
Good-map v v' j (taking job) f g (m, n) = ((f m).0, (f m).1 n)
Good-map v v' j (called job frame) f g (m, a, b, c) =
    ((f m).0, (f m).2 ∙ a, (f m).3 ∙ b, (f m).4 ∙ c)
Good-map v v' j (blocked job frame) f g h = g frame h
Good-map v v' j (calling job frame) f g h = g frame h
Good-map v v' j (resuming frame) f g h = (f h).0
Good-map v v' j (leaving frame k) f g h = tt
Good-map v v' j (executing job k) f g h = tt
Good-map v v' j (entering k) f g h = tt
Good-map v v' j (asleep k) f g h = tt
Good-map v v' j (woken k) f g h = tt

module _ (threads : ℕ → Thread) (i : ℕ) (x : Thread) where
  -- A statement about all threads, after one has moved.
  pub all-update :
      (P : ℕ → Thread → Type 0)
      → ((j : ℕ) → i ≢ j → P j (threads j))
      → P i x
      → (j : ℕ) → P j (update threads i x j)
  all-update P others here j = elim (Bool-cases (i == j)) [
    | inl e ↦
        let same : i ≡ j = (==_iff i j).0 e in
        subst (λ y. P j y) (sym (ground (arith, e))) (subst (λ a. P a x) same here)
    | inr e ↦ subst (λ y. P j y) (sym (ground (arith, e))) (others j (ground (arith, e)))
  ]

  pub update-held :
      (f : Thread → Option ℕ) → update (held f threads) i (f x) ≡ held f (update threads i x)
  update-held f =
      fun_ext
        λ j. elim (Bool-cases (i == j)) [ inl e ↦ ground (arith, e) | inr e ↦ ground (arith, e) ]

  pub held-same :
      (f : Thread → Option ℕ) → f (threads i) ≡ f x → held f threads ≡ held f (update threads i x)
  held-same f e = fun_ext (all-update (λ j y. f (threads j) ≡ f y) (λ j n. refl) e)
