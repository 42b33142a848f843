-- ===== src/Pool/Starved.antt =====
-- The pool after launches that failed: `thread_count` is not taken back.
use lwt_old.Base.{
  ℕ, zero, suc, ◌+◌, ◌≤◌, ◌<◌, ◌≡◌, ◌≢◌, refl, sym, ap, subst, ◌∙◌, List, [], ◌∷◌, ◌++◌, arith,
}
use lwt_old.Pool.{
  Worker, idle, passed, Pool, no_room, fall_back, come_back, pass, launch, fail, hand_over,
  queue_up, resize, fork, Step, main_step, worker_step, init, Reach, start, later,
}

-- There is no thread, and there will be none: the counter of the threads says that the pool is
-- full.
pub record IsStarved (s : Pool) : Type 0 where
  no_workers : s.workers ≡ []
  pub none_waits : s.thread_waiting_count ≡ 0
  pub full : s.pool_size ≤ s.thread_count
  not_passed : (job : ℕ) → s.main_pc ≢ passed job

-- Steps of any kind but a fork and a change of the size.
pub data Calls (s : Pool) : Pool → Type 0 where
  here : Calls s s
  more :
      {t u : Pool}
      → Calls s t
      → Step t u
      → t.pool_size ≡ u.pool_size
      → t.thread_count ≤ u.thread_count
      → 0 < u.thread_count
      → Calls s u

-- A job whose thread could not be launched.
unfoldable pub one_fails : Pool → Pool
one_fails s = record s {
  main_pc = idle;
  started = suc s.started;
  thread_count = s.thread_count + 1;
  failures = suc s.failures;
  lost = s.started ∷ s.lost;
}

-- The pool after so many of them, and nothing else.
unfoldable pub starved : ℕ → (ℕ → ℕ) → ℕ → Pool
starved size links zero = init size links
starved size links (suc k) = one_fails (starved size links k)

starved_lem :
    (size k : ℕ) (links : ℕ → ℕ)
    → k ≤ size
    → (s : Pool) × (s ≡ starved size links k)
      × Reach size links s
      × (s.workers ≡ [])
      × (s.thread_waiting_count ≡ 0)
      × (s.thread_count ≡ k)
      × (s.pool_size ≡ size)
      × (s.main_pc ≡ idle)
unfolding no_room starved one_fails
starved_lem size zero links h = (_, refl, start, refl, refl, refl, refl, refl)
starved_lem size (suc k) links h =
    let (s, same, r, w, n, c, z, m) = starved_lem size k links (omega (arith, h)) in
    (
      _,
      ap one_fails same,
      later (later r (main_step (pass m (ground arith)))) (main_step (fail refl n)),
      w,
      n,
      omega (arith, c),
      z,
      refl,
    )

no_split : (before after : List Worker) (w : Worker) → [] ≢ before ++ w ∷ after
no_split [] after w e = cc
no_split (x ∷ before) after w e = cc

Step-IsStarved :
    {s t : Pool}
    → IsStarved s
    → Step s t
    → s.pool_size ≡ t.pool_size
    → s.thread_count ≤ t.thread_count
    → 0 < t.thread_count
    → IsStarved t
unfolding no_room
Step-IsStarved v (main_step (fall_back e r)) p c o = record {
  no_workers = v.no_workers;
  none_waits = v.none_waits;
  full = v.full;
  not_passed = λ job. cc;
}
Step-IsStarved v (main_step (come_back e)) p c o = record {
  no_workers = v.no_workers;
  none_waits = v.none_waits;
  full = v.full;
  not_passed = λ job. cc;
}
Step-IsStarved v (main_step (pass e r)) p c o = absurd (ground (arith, v.none_waits, v.full))
Step-IsStarved v (main_step (launch {job} e n)) p c o = absurd (v.not_passed job e)
Step-IsStarved v (main_step (fail {job} e n)) p c o = absurd (v.not_passed job e)
Step-IsStarved v (main_step (hand_over {job} before after e n w)) p c o =
    absurd (v.not_passed job e)
Step-IsStarved v (main_step (queue_up {job} e n w)) p c o = absurd (v.not_passed job e)
Step-IsStarved v (main_step (resize n e)) p c o = record {
  no_workers = v.no_workers;
  none_waits = v.none_waits;
  full = omega (arith, v.full, p);
  not_passed = v.not_passed;
}
Step-IsStarved v (main_step (fork queued e h)) p c o = absurd (omega (arith, o))
Step-IsStarved v (worker_step before after e st) p c o =
    absurd (no_split before after _ (sym v.no_workers ∙ e))

Calls-IsStarved : {s t : Pool} → IsStarved s → Calls s t → IsStarved t
Calls-IsStarved v here = v
Calls-IsStarved v (more c st p l o) = Step-IsStarved (Calls-IsStarved v c) st p l o

-- For every size of the pool that is not 0: a state is reachable, by that many launches of a
-- thread that failed, from which no thread is ever launched and no job handed to one, up to a fork
-- or a change of the size: every job is executed by the main thread.
pub Reach-IsStarved :
    (size : ℕ) (links : ℕ → ℕ) {t : Pool}
    → Calls (starved (suc size) links (suc size)) t
    → Reach (suc size) links (starved (suc size) links (suc size)) × IsStarved t
Reach-IsStarved size links calls =
    let (s, same, r, w, n, c, z, m) = starved_lem (suc size) (suc size) links (omega arith) in
    let v : IsStarved s = record {
      no_workers = w;
      none_waits = n;
      full = omega (arith, c, z);
      not_passed = λ job. cc;
    } in
    (subst (Reach (suc size) links) same r, Calls-IsStarved (subst IsStarved same v) calls)
