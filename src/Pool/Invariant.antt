-- ===== src/Pool/Invariant.antt =====
-- The steps of the main thread keep the invariant of the pool, so every reachable state has it.
use lwt_old.Base.{
  ℕ, suc, ◌≡◌, ◌≢◌, refl, sym, ap, inl, inr, List, [], ◌∷◌, ◌++◌, length, length-append, arith,
}
use lwt_old.JobQueue.{enqueue}
use lwt_old.JobQueue.Links.{Fresh}
use lwt_old.JobQueue.Refine.{enqueue-Holds}
use lwt_old.Pool.{
  Worker, executing, asleep, woken, MainPc, idle, inside, passed, Pool, jobs_of, MainStep,
  fall_back, come_back, pass, launch, fail, hand_over, queue_up, resize, fork, Step, main_step,
  worker_step, init, Reach, start, later,
}
use lwt_old.Pool.Counts.{
  total, total-snoc, total-replace, length-replace, waits, sleeps, wakes, carries, same, in_main,
  occurs, occurs-cons, occurs-snoc, occurs_nil, occurs-append, occurs-jobs_of, born-suc, born_zero,
  Fresh-occurs, total_nil, born-le-one, waits-le-length, sleeps_none, same_self,
}
use lwt_old.Pool.Workers.{Inv, Awake, Holds-unique, WorkerStep-Inv}

-- The main thread starts a job, which no place held before.
starting-Inv :
    (s : Pool) (queued : List ℕ) (pc : MainPc)
    → Inv queued s
    → s.main_pc ≡ idle
    → ((job : ℕ) → in_main job pc ≡ same s.started job)
    → Inv queued (record s { main_pc = pc; started = suc s.started })
starting-Inv s queued pc v e h = record {
  holds = v.holds;
  waiting = v.waiting;
  counted = v.counted;
  awake = v.awake;
  served = v.served;
  placed = λ job. omega (arith, v.placed job, ap (in_main job) e, h job, born-suc s.started job);
}

-- The job that the main thread is about to enqueue is not in the queue.
passed-Fresh :
    (s : Pool) (queued : List ℕ) (job : ℕ)
    → Inv queued s
    → s.main_pc ≡ passed job
    → Fresh job queued
passed-Fresh s queued job v e =
    Fresh-occurs job queued
      (omega (arith, v.placed job, ap (in_main job) e, same_self job, born-le-one s.started job))

-- The job is in the queue, and the workers that a signal can reach were signalled.
enqueued-Inv :
    (s : Pool) (queued : List ℕ) (job : ℕ) (ws : List Worker)
    → Inv queued s
    → s.main_pc ≡ passed job
    → s.thread_waiting_count ≢ 0
    → total waits ws ≡ total waits s.workers
    → length ws ≡ length s.workers
    → ((j : ℕ) → total (carries j) ws ≡ total (carries j) s.workers)
    → Awake (queued ++ job ∷ []) ws
    → Inv
        (queued ++ job ∷ [])
        (record s { main_pc = idle; pool_queue = enqueue job s.pool_queue; workers = ws })
enqueued-Inv s queued job ws v e n w l c a = record {
  holds = enqueue-Holds job s.pool_queue queued v.holds (passed-Fresh s queued job v e);
  waiting = omega (arith, v.waiting, w);
  counted = omega (arith, v.counted, l);
  awake = a;
  served = inr (
      let some_wait : s.thread_waiting_count ≢ 0 = n in
      ground (arith, v.waiting, w, waits-le-length ws));
  placed = λ j. omega (arith, v.placed j, ap (in_main j) e, c j, occurs-snoc j queued job);
}

MainStep-Inv :
    {s t : Pool} (queued : List ℕ)
    → Inv queued s
    → MainStep s t
    → (queued' : List ℕ) × Inv queued' t
MainStep-Inv {s} queued v (fall_back e r) =
    (queued, starting-Inv s queued (inside s.started) v e (λ job. refl))
MainStep-Inv {s} queued v (come_back {job} e) = (
  queued,
  record {
    holds = v.holds;
    waiting = v.waiting;
    counted = v.counted;
    awake = v.awake;
    served = v.served;
    placed = λ j. omega (arith, v.placed j, ap (in_main j) e, occurs-cons j job s.finished);
  },
)
MainStep-Inv {s} queued v (pass e r) =
    (queued, starting-Inv s queued (passed s.started) v e (λ job. refl))
MainStep-Inv {s} queued v (launch {job} e n) = (
  queued,
  record {
    holds = v.holds;
    waiting = omega (arith, v.waiting, total-snoc waits s.workers (executing job));
    counted = omega (arith, v.counted, length-append s.workers (executing job ∷ []));
    awake = elim v.awake [
      | inl none_sleeps ↦
          inl (omega (arith, none_sleeps, total-snoc sleeps s.workers (executing job)))
      | inr enough ↦ inr (omega (arith, enough, total-snoc wakes s.workers (executing job)))
    ];
    served = inr (omega (arith, length-append s.workers (executing job ∷ [])));
    placed = λ j.
        omega
          (arith, v.placed j, ap (in_main j) e, total-snoc (carries j) s.workers (executing job));
  },
)
MainStep-Inv {s} queued v (fail {job} e n) = (
  queued,
  record {
    holds = v.holds;
    waiting = v.waiting;
    counted = omega (arith, v.counted);
    awake = v.awake;
    served = v.served;
    placed = λ j. omega (arith, v.placed j, ap (in_main j) e, occurs-cons j job s.lost);
  },
)
MainStep-Inv {s} queued v (hand_over {job} before after e n split) = (
  queued ++ job ∷ [],
  enqueued-Inv s queued job (before ++ woken ∷ after) v e n
      (omega (arith, total-replace waits s.workers before after asleep woken split))
      (length-replace s.workers before after asleep woken split)
      (λ j. omega (arith, total-replace (carries j) s.workers before after asleep woken split))
      (elim v.awake [
        | inl none_sleeps ↦ absurd (
            omega
              (arith, none_sleeps, total-replace sleeps s.workers before after asleep woken split))
        | inr enough ↦ inr (
            omega (
              arith,
              enough,
              length-append queued (job ∷ []),
              total-replace wakes s.workers before after asleep woken split,
            ))
      ]),
)
MainStep-Inv {s} queued v (queue_up {job} e n none_sleeps) = (
  queued ++ job ∷ [],
  enqueued-Inv s queued job s.workers v e n refl refl (λ j. refl)
      (inl (sleeps_none s.workers none_sleeps)),
)
MainStep-Inv {s} queued v (resize n e) = (
  queued,
  record {
    holds = v.holds;
    waiting = v.waiting;
    counted = v.counted;
    awake = v.awake;
    served = v.served;
    placed = v.placed;
  },
)
MainStep-Inv {s} queued v (fork others e h) = (
  [],
  record {
    holds = refl;
    waiting = sym (total_nil waits);
    counted = refl;
    awake = inr (omega arith);
    served = inl refl;
    placed = λ j. omega (
      arith,
      v.placed j,
      total_nil (carries j),
      occurs_nil j,
      occurs-jobs_of j s.workers,
      occurs-append j others (jobs_of s.workers ++ s.lost),
      occurs-append j (jobs_of s.workers) s.lost,
      ap (occurs j) (Holds-unique others queued s.pool_queue h v.holds),
    );
  },
)

Step-Inv :
    {s t : Pool} (queued : List ℕ) → Inv queued s → Step s t → (queued' : List ℕ) × Inv queued' t
Step-Inv queued v (main_step st) = MainStep-Inv queued v st
Step-Inv queued v (worker_step before after e st) = WorkerStep-Inv queued before after v e st

init-Inv : (size : ℕ) (links : ℕ → ℕ) → Inv [] (init size links)
init-Inv size links = record {
  holds = refl;
  waiting = omega (arith, total_nil waits);
  counted = refl;
  awake = inr (omega arith);
  served = inl refl;
  placed = λ job. omega (arith, occurs_nil job, total_nil (carries job), born_zero job);
}

-- The jobs in the queue, and the invariant for them.
pub Reach-Inv :
    {size : ℕ} {links : ℕ → ℕ} {s : Pool} → Reach size links s → (queued : List ℕ) × Inv queued s
Reach-Inv {size} {links} start = ([], init-Inv size links)
Reach-Inv (later r st) = let (queued, v) = Reach-Inv r in Step-Inv queued v st
