-- ===== src/Pool/Served.antt =====
-- No job is dropped, done twice or left alone by the pool.
use lwt_old.Base.{
  ℕ, ◌+◌, ◌<◌, ◌≡◌, ◌≢◌, refl, ap, inl, inr, Option, none, some, List, [], ◌∷◌, ◌++◌, length, arith,
}
use lwt_old.JobQueue.{Queue, dequeue}
use lwt_old.JobQueue.Refine.{HoldsAt, Holds, dequeue-Takes}
use lwt_old.Pool.{
  Worker, executing, entering, asleep, woken, Pool, WorkerStep, finish, take_now, take_woken, Reach,
}
use lwt_old.Pool.Counts.{total, waits, sleeps, wakes, born}
use lwt_old.Pool.Workers.{places}
use lwt_old.Pool.Invariant.{Reach-Inv}

-- A worker of the pool, with what stands before and after it.
pub record Member (P : Worker → Type 0) (ws : List Worker) : Type 0 where
  pub before : List Worker
  pub worker : Worker
  pub after : List Worker
  pub split : ws ≡ before ++ worker ∷ after
  pub holds : P worker

Member-cons :
    (P : Worker → Type 0) (w : Worker) (ws : List Worker) → Member P ws → Member P (w ∷ ws)
Member-cons P w ws m = record {
  before = w ∷ m.before;
  worker = m.worker;
  after = m.after;
  split = ap (λ r. w ∷ r) m.split;
  holds = m.holds;
}

-- Some worker is woken, if the count of them is not 0.
some_woken : (ws : List Worker) → 0 < total wakes ws → Member (λ w. sleeps w ≡ 0) ws
unfolding total
some_woken [] h = absurd (omega (arith, h))
some_woken (executing job ∷ ws) h = Member-cons _ _ ws (some_woken ws (omega (arith, h)))
some_woken (entering ∷ ws) h = Member-cons _ _ ws (some_woken ws (omega (arith, h)))
some_woken (asleep ∷ ws) h = Member-cons _ _ ws (some_woken ws (omega (arith, h)))
some_woken (woken ∷ ws) h = record {
  before = [];
  worker = woken;
  after = ws;
  split = refl;
  holds = refl;
}

some_up : (ws : List Worker) → 0 < length ws → total sleeps ws ≡ 0 → Member (λ w. sleeps w ≡ 0) ws
unfolding total
some_up [] l h = absurd (omega (arith, l))
some_up (w ∷ ws) l h = record {
  before = [];
  worker = w;
  after = ws;
  split = refl;
  holds = omega (arith, h);
}

-- A worker that does not sleep goes on while there is a job in the queue.
goes_on :
    (s : Pool) (w : Worker) (job : ℕ) (q : Queue)
    → sleeps w ≡ 0
    → dequeue s.pool_queue ≡ some (job, q)
    → (t : Pool) × ((w' : Worker) × WorkerStep s w t w')
goes_on s (executing k) job q h e = (_, (_, finish))
goes_on s entering job q h e = (_, (_, take_now e))
goes_on s asleep job q h e = absurd (omega (arith, h))
goes_on s woken job q h e = (_, (_, take_woken e))

nonempty : (q : Queue) (queued : List ℕ) → Holds q queued → q.pool_queue ≢ none → 0 < length queued
nonempty q queued h n = at q.pool_queue queued h n
  where
    at : (last : Option ℕ) (xs : List ℕ) → HoldsAt last q.next xs → last ≢ none → 0 < length xs
    at none xs h' n' = absurd (n' refl)
    at (some last) [] h' n' = absurd h'
    at (some last) (x ∷ xs) h' n' = omega arith

oldest :
    (q : Queue) (queued : List ℕ)
    → Holds q queued
    → 0 < length queued
    → (job : ℕ) × ((q' : Queue) × (dequeue q ≡ some (job, q')))
oldest q [] h l = absurd (omega (arith, l))
oldest q (x ∷ xs) h l = let (q', e, h') = dequeue-Takes q (x ∷ xs) h in (x, (q', e))

module _ {size : ℕ} {links : ℕ → ℕ} {s : Pool} (r : Reach size links s) where
  -- In every reachable state of the pool: the queue is a well-formed list, a job that was started
  -- is in exactly one place and one that was not is in none. The places are the queue, the hands
  -- of a worker or of the main thread, the jobs that were executed, and those that never will be
  -- because the thread for them could not be launched or the process was forked.
  pub Reach-placed :
      (queued : List ℕ) × Holds s.pool_queue queued
      × ((job : ℕ) → places job queued s ≡ born s.started job)
  Reach-placed = let (queued, v) = Reach-Inv r in (queued, v.holds, v.placed)

  -- `thread_waiting_count` is the number of the threads that wait, and `thread_count` that of all
  -- threads and of those that could not be launched.
  pub Reach-counters :
      (s.thread_waiting_count ≡ total waits s.workers)
      × (s.thread_count ≡ length s.workers + s.failures)
  Reach-counters = let (queued, v) = Reach-Inv r in (v.waiting, v.counted)

  -- No wakeup is lost and no job is left alone: while there is a job in the queue, the pool has a
  -- worker that does not sleep, and that worker can make a step.
  pub Reach-served :
      s.pool_queue.pool_queue ≢ none
      → Member
          (λ w. (sleeps w ≡ 0) × ((t : Pool) × ((w' : Worker) × WorkerStep s w t w')))
          s.workers
  Reach-served n =
      let (queued, v) = Reach-Inv r in
      let l : 0 < length queued = nonempty s.pool_queue queued v.holds n in
      let (job, (q, e)) = oldest s.pool_queue queued v.holds l in
      let found : Member (λ w. sleeps w ≡ 0) s.workers = elim v.awake [
        | inl none_sleeps ↦ elim v.served [
          | inl empty ↦ absurd (omega (arith, l, empty))
          | inr busy ↦ some_up s.workers busy none_sleeps
        ]
        | inr enough ↦ some_woken s.workers (omega (arith, l, enough))
      ] in
      record {
        before = found.before;
        worker = found.worker;
        after = found.after;
        split = found.split;
        holds = (found.holds, goes_on s found.worker job q found.holds e);
      }
