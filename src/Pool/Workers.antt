-- ===== src/Pool/Workers.antt =====
-- What holds in every state of the pool (the counters, the places of the jobs, the wakeups), and
-- that the steps of the workers keep it.
use lwt_old.Base.{
  ℕ, ◌+◌, ◌≡◌, ◌<◌, ◌≤◌, refl, sym, ap, ◌∙◌, ◌⊎◌, inl, inr, subst, ◌-◌, Option, some, List, [], ◌∷◌,
  ◌++◌, none, length, arith,
}
use lwt_old.JobQueue.{Queue, dequeue}
use lwt_old.JobQueue.Refine.{HoldsAt, Holds, dequeue-Takes}
use lwt_old.Pool.{
  Worker, executing, entering, asleep, woken, Pool, WorkerStep, finish, take_now, sleep, wake,
  take_woken, wait_again,
}
use lwt_old.Pool.Counts.{
  total, total-replace, length-replace, waits, sleeps, wakes, carries, born, in_main, occurs,
  occurs-cons,
}

-- How often a job is in one of the places where it can be.
abbrev pub places : ℕ → List ℕ → Pool → ℕ
places job queued s =
    occurs job queued
    + total (carries job) s.workers
    + occurs job s.finished
    + occurs job s.lost
    + in_main job s.main_pc

-- `queued` are the jobs in the queue, oldest first.
pub record Inv (queued : List ℕ) (s : Pool) : Type 0 where
  pub holds : Holds s.pool_queue queued
  pub waiting : s.thread_waiting_count ≡ total waits s.workers
  pub counted : s.thread_count ≡ length s.workers + s.failures
  pub awake : (total sleeps s.workers ≡ 0) ⊎ (length queued ≤ total wakes s.workers)
  pub served : (length queued ≡ 0) ⊎ (0 < length s.workers)
  pub placed : (job : ℕ) → places job queued s ≡ born s.started job

-- A thread that waits and was not signalled leaves the queue to the others, and one that was may
-- take a job.
abbrev pub Awake : List ℕ → List Worker → Type 0
Awake queued ws = (total sleeps ws ≡ 0) ⊎ (length queued ≤ total wakes ws)

module _ (s : Pool) (queued : List ℕ) (v : Inv queued s) (before after : List Worker)
    (w w' : Worker) (e : s.workers ≡ before ++ w ∷ after) where
  open v use {waiting, counted, served, placed}

  abbrev ws : List Worker
  ws = before ++ w' ∷ after

  swap : (f : Worker → ℕ) → total f ws + f w ≡ total f s.workers + f w'
  swap f = total-replace f s.workers before after w w' e

  -- One worker goes from `w` to `w'`, and the queue, the counter and the jobs that were executed
  -- change with it.
  worker-Inv :
      (q : Queue) (queued' : List ℕ) (count : ℕ) (done : List ℕ)
      → Holds q queued'
      → count + waits w ≡ s.thread_waiting_count + waits w'
      → length queued' ≤ length queued
      → Awake queued' ws
      → ((job : ℕ)
          → occurs job queued' + carries job w' + occurs job done
            ≡ occurs job queued + carries job w + occurs job s.finished)
      → Inv queued'
          (record s { thread_waiting_count = count; pool_queue = q; workers = ws; finished = done })
  worker-Inv q queued' count done h c l a p = record {
    holds = h;
    waiting = omega (arith, c, waiting, swap waits);
    counted = omega (arith, counted, length-replace s.workers before after w w' e);
    awake = a;
    served = elim served [
      | inl empty ↦ inl (omega (arith, empty, l))
      | inr busy ↦ inr (omega (arith, busy, length-replace s.workers before after w w' e))
    ];
    placed = λ job. omega (arith, placed job, p job, swap (carries job));
  }

  Awake-by :
      (queued' : List ℕ)
      → length queued' + wakes w ≤ length queued + wakes w'
      → sleeps w' ≤ sleeps w
      → Awake queued' ws
  Awake-by queued' l k = elim v.awake [
    | inl none_sleeps ↦ inl (omega (arith, none_sleeps, swap sleeps, k))
    | inr enough ↦ inr (omega (arith, enough, swap wakes, l))
  ]

-- What `dequeue` hands out is the oldest job.
taken :
    (q q' : Queue) (queued : List ℕ) (job : ℕ)
    → Holds q queued
    → dequeue q ≡ some (job, q')
    → (rest : List ℕ) × (queued ≡ job ∷ rest) × Holds q' rest
taken q q' [] job h e = cc (dequeue-Takes q [] h)
taken q q' (x ∷ rest) job h e =
    let (q'', e', h') = dequeue-Takes q (x ∷ rest) h in
    let p : some (job, q') ≡ some (x, q'') = sym e ∙ e' in
    (rest, cc, subst (λ r. Holds r rest) (cc) h')

-- A queue holds one list only.
pub Holds-unique : (xs ys : List ℕ) (q : Queue) → Holds q xs → Holds q ys → xs ≡ ys
Holds-unique [] [] q h k = refl
Holds-unique [] (y ∷ ys) q h k =
    let (q', e, k') = dequeue-Takes q (y ∷ ys) k in cc (e, dequeue-Takes q [] h)
Holds-unique (x ∷ xs) ys q h k =
    let (q', e, h') = dequeue-Takes q (x ∷ xs) h in
    let (rest, split, k') = taken q q' ys x k e in
    ap (λ r. x ∷ r) (Holds-unique xs rest q' h' k') ∙ sym split

-- The null pointer is the empty queue.
empty_queue : (q : Queue) (queued : List ℕ) → Holds q queued → q.pool_queue ≡ none → queued ≡ []
empty_queue q queued h e = at q.pool_queue queued h e
  where
    at : (last : Option ℕ) (xs : List ℕ) → HoldsAt last q.next xs → last ≡ none → xs ≡ []
    at none xs h' e' = h'
    at (some last) xs h' e' = cc

taking-Inv :
    (s : Pool) (queued : List ℕ) (before after : List Worker) (w : Worker) (job count : ℕ)
    (q : Queue)
    → Inv queued s
    → s.workers ≡ before ++ w ∷ after
    → dequeue s.pool_queue ≡ some (job, q)
    → count + waits w ≡ s.thread_waiting_count
    → sleeps w ≡ 0
    → wakes w ≤ 1
    → ((k : ℕ) → carries k w ≡ 0)
    → (queued' : List ℕ) × Inv queued' (record s {
      thread_waiting_count = count;
      pool_queue = q;
      workers = before ++ executing job ∷ after;
    })
taking-Inv s queued before after w job count q v e d c z u k =
    let (rest, split, h) = taken s.pool_queue q queued job v.holds d in
    (
      rest,
      worker-Inv s queued v before after w (executing job) e q rest count s.finished h
          (omega (arith, c)) (omega (arith, ap length split))
          (Awake-by s queued v before after w (executing job) e rest
            (omega (arith, ap length split, u)) (omega (arith, z)))
          (λ j. omega (arith, ap (occurs j) split, occurs-cons j job rest, k j)),
    )

pub WorkerStep-Inv :
    {s t : Pool} {w w' : Worker} (queued : List ℕ) (before after : List Worker)
    → Inv queued s
    → s.workers ≡ before ++ w ∷ after
    → WorkerStep s w t w'
    → (queued' : List ℕ) × Inv queued' (record t { workers = before ++ w' ∷ after })
WorkerStep-Inv {s} queued before after v e (finish {job}) = (
  queued,
  worker-Inv s queued v before after (executing job) entering e s.pool_queue queued
      s.thread_waiting_count (job ∷ s.finished) v.holds refl (omega arith)
      (Awake-by s queued v before after (executing job) entering e queued (omega arith)
        (omega arith))
      (λ j. omega (arith, occurs-cons j job s.finished)),
)
WorkerStep-Inv {s} queued before after v e (take_now {job} {q} d) =
    taking-Inv s queued before after entering job s.thread_waiting_count q v e d (omega arith) refl
      (omega arith) (λ k. refl)
WorkerStep-Inv {s} queued before after v e (sleep n) = (
  queued,
  worker-Inv s queued v before after entering asleep e s.pool_queue queued
      (s.thread_waiting_count + 1) s.finished v.holds (omega arith) (omega arith)
      (inr (omega (arith, ap length (empty_queue s.pool_queue queued v.holds n)))) (λ j. refl),
)
WorkerStep-Inv {s} queued before after v e wake = (
  queued,
  worker-Inv s queued v before after asleep woken e s.pool_queue queued s.thread_waiting_count
      s.finished v.holds refl (omega arith)
      (Awake-by s queued v before after asleep woken e queued (omega arith) (omega arith))
      (λ j. refl),
)
WorkerStep-Inv {s} queued before after v e (take_woken {job} {q} d) =
    taking-Inv s queued before after woken job (s.thread_waiting_count - 1) q v e d
      (omega (arith, v.waiting, swap s queued v before after woken entering e waits)) refl
      (omega arith) (λ k. refl)
WorkerStep-Inv {s} queued before after v e (wait_again n) = (
  queued,
  worker-Inv s queued v before after woken asleep e s.pool_queue queued s.thread_waiting_count
      s.finished v.holds refl (omega arith)
      (inr (omega (arith, ap length (empty_queue s.pool_queue queued v.holds n)))) (λ j. refl),
)
