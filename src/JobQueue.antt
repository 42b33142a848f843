-- ===== src/JobQueue.antt =====
-- src/unix/lwt_unix_stubs.c: the queue `pool_queue`. It is a circular list that runs through
-- a field of the jobs, and points to the job that was enqueued last.
pub mod Links
pub mod Refine
mod Examples
use lwt_old.Base.{ℕ, Option, none, some, List, [], ◌∷◌, update, ◌==◌, if◌then◌else◌}

-- A job is known by its address, and `next` gives the link of each.
pub record Queue : Type 0 where
  pub pool_queue : Option ℕ
  pub next : ℕ → ℕ

-- [lwt_unix_start_job], "Add the job at the end of the queue".
pub enqueue : ℕ → Queue → Queue
enqueue job q = elim q.pool_queue [
  | none ↦ record { pool_queue = some job; next = update q.next job job }
  | some last ↦ record {
    pool_queue = some job;
    next = update (update q.next job (q.next last)) last job;
  }
]

-- [worker_loop], "Take the first queued job"; the worker has seen that the queue is not empty.
-- `none` is the dereference of the null pointer.
pub dequeue : Queue → Option (ℕ × Queue)
dequeue q = elim q.pool_queue [
  | none ↦ none
  | some last ↦
      let job = q.next last in
      if q.next job == job
      then some (job, record q { pool_queue = none })
      else some (job, record q { next = update q.next last (q.next job) })
]

pub data Op : Type 0 where
  add : ℕ → Op
  take : Op

-- The jobs that a sequence of operations hands out, and the queue that it leaves. A worker takes
-- nothing while the queue is empty.
pub step : Op → Queue → List ℕ × Queue
unfolding enqueue dequeue
step (add job) q = ([], enqueue job q)
step take q = elim (dequeue q) [ none ↦ ([], q) | some (job, q') ↦ (job ∷ [], q') ]
