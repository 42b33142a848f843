-- ===== src/Pool.antt =====
-- src/unix/lwt_unix_stubs.c, the thread pool: `lwt_unix_start_job` for the method "detach" and its
-- fallback, `worker_loop` where no call switches the stack, `lwt_unix_reset_after_fork` and
-- `lwt_unix_set_pool_size`. The sections under `pool_mutex` are single steps, and the test before
-- the first of them, which reads the counters without the mutex, is a step of its own.
pub mod Counts
pub mod Workers
pub mod Invariant
pub mod Served
pub mod Limit
pub mod Starved
mod Examples
use lwt_old.Base.{
  ℕ, suc, ◌+◌, ◌-◌, ◌≡◌, ◌≢◌, Bool, true, false, ◌&&◌, List, [], ◌∷◌, ◌++◌, Option, none, some, leb,
  ◌==◌, if◌then◌else◌,
}
use lwt_old.JobQueue.{Queue, enqueue, dequeue}
use lwt_old.JobQueue.Refine.{Holds}

-- Where a thread of the pool stands: it executes a job; it is about to lock the mutex at the head
-- of its loop; or it waits on `pool_condition`, and then a signal has reached it or not.
pub data Worker : Type 0 where
  executing : ℕ → Worker
  entering : Worker
  asleep : Worker
  woken : Worker

-- The main thread runs OCaml code, executes a job itself, or has passed the test for this job.
pub data MainPc : Type 0 where
  idle : MainPc
  inside : ℕ → MainPc
  passed : ℕ → MainPc

-- Jobs are numbered as they are started. `failures` counts the threads that could not be launched;
-- `finished` are the jobs that were executed, and `lost` those that never will be: their thread
-- was not launched, or they were in the hands of another process at a fork.
pub record Pool : Type 0 where
  pub thread_waiting_count : ℕ
  pub thread_count : ℕ
  pub pool_size : ℕ
  pub pool_queue : Queue
  pub workers : List Worker
  pub main_pc : MainPc
  pub started : ℕ
  pub failures : ℕ
  pub finished : List ℕ
  pub lost : List ℕ

-- `thread_waiting_count == 0 && thread_count >= pool_size`
pub no_room : Pool → Bool
no_room s = s.thread_waiting_count == 0 && leb s.pool_size s.thread_count

pub jobs_of : List Worker → List ℕ
jobs_of [] = []
jobs_of (executing job ∷ ws) = job ∷ jobs_of ws
jobs_of (_ ∷ ws) = jobs_of ws

-- `lwt_unix_start_job`
pub data MainStep (s : Pool) : Pool → Type 0 where
  -- The test fails: the job is executed synchronously.
  fall_back :
      s.main_pc ≡ idle
      → no_room s ≡ true
      → MainStep s (record s { main_pc = inside s.started; started = suc s.started })
  come_back :
      {job : ℕ}
      → s.main_pc ≡ inside job
      → MainStep s (record s { main_pc = idle; finished = job ∷ s.finished })
  pass :
      s.main_pc ≡ idle
      → no_room s ≡ false
      → MainStep s (record s { main_pc = passed s.started; started = suc s.started })
  -- The section under the mutex: a new worker, if `pthread_create` succeeds.
  launch :
      {job : ℕ}
      → s.main_pc ≡ passed job
      → s.thread_waiting_count ≡ 0
      → MainStep s (record s {
        main_pc = idle;
        thread_count = s.thread_count + 1;
        workers = s.workers ++ executing job ∷ [];
      })
  fail :
      {job : ℕ}
      → s.main_pc ≡ passed job
      → s.thread_waiting_count ≡ 0
      → MainStep s (record s {
        main_pc = idle;
        thread_count = s.thread_count + 1;
        failures = suc s.failures;
        lost = job ∷ s.lost;
      })
  -- The job is enqueued and a worker is signalled; the signal is in vain if none is asleep.
  hand_over :
      {job : ℕ} (before after : List Worker)
      → s.main_pc ≡ passed job
      → s.thread_waiting_count ≢ 0
      → s.workers ≡ before ++ asleep ∷ after
      → MainStep s (record s {
        main_pc = idle;
        pool_queue = enqueue job s.pool_queue;
        workers = before ++ woken ∷ after;
      })
  queue_up :
      {job : ℕ}
      → s.main_pc ≡ passed job
      → s.thread_waiting_count ≢ 0
      → ((before after : List Worker) → s.workers ≢ before ++ asleep ∷ after)
      → MainStep s (record s { main_pc = idle; pool_queue = enqueue job s.pool_queue })
  -- `lwt_unix_set_pool_size`
  resize : (n : ℕ) → s.main_pc ≡ idle → MainStep s (record s { pool_size = n })
  -- `lwt_unix_reset_after_fork`, in the new process, which has none of the workers.
  fork :
      (queued : List ℕ)
      → s.main_pc ≡ idle
      → Holds s.pool_queue queued
      → MainStep s (record s {
        thread_waiting_count = 0;
        thread_count = 0;
        pool_queue = record s.pool_queue { pool_queue = none };
        workers = [];
        failures = 0;
        lost = queued ++ (jobs_of s.workers ++ s.lost);
      })

-- `worker_loop`: what one thread does to the shared state, and where it stands then.
pub data WorkerStep (s : Pool) : Worker → Pool → Worker → Type 0 where
  finish :
      {job : ℕ} → WorkerStep s (executing job) (record s { finished = job ∷ s.finished }) entering
  -- The thread counts itself as waiting and as busy again in one section.
  take_now :
      {job : ℕ} {q : Queue}
      → dequeue s.pool_queue ≡ some (job, q)
      → WorkerStep s entering (record s { pool_queue = q }) (executing job)
  sleep :
      s.pool_queue.pool_queue ≡ none
      → WorkerStep s entering
          (record s { thread_waiting_count = s.thread_waiting_count + 1 })
          asleep
  -- `pthread_cond_wait` may return without a signal.
  wake : WorkerStep s asleep s woken
  take_woken :
      {job : ℕ} {q : Queue}
      → dequeue s.pool_queue ≡ some (job, q)
      → WorkerStep s woken
          (record s { thread_waiting_count = s.thread_waiting_count - 1; pool_queue = q })
          (executing job)
  wait_again : s.pool_queue.pool_queue ≡ none → WorkerStep s woken s asleep

pub data Step (s : Pool) : Pool → Type 0 where
  main_step : {t : Pool} → MainStep s t → Step s t
  worker_step :
      {t : Pool} {w w' : Worker} (before after : List Worker)
      → s.workers ≡ before ++ w ∷ after
      → WorkerStep s w t w'
      → Step s (record t { workers = before ++ w' ∷ after })

abbrev pub init : ℕ → (ℕ → ℕ) → Pool
init size links = record {
  thread_waiting_count = 0;
  thread_count = 0;
  pool_size = size;
  pool_queue = record { pool_queue = none; next = links };
  workers = [];
  main_pc = idle;
  started = 0;
  failures = 0;
  finished = [];
  lost = [];
}

pub data Reach (size : ℕ) (links : ℕ → ℕ) : Pool → Type 0 where
  start : Reach size links (init size links)
  later : {s t : Pool} → Reach size links s → Step s t → Reach size links t
