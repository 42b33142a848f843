-- ===== src/Execution.antt =====
-- src/unix/lwt_unix_stubs.c, a job that is executed by a worker while the main thread starts and
-- checks it: `execute_job`, the end of `lwt_unix_start_job` for the method "detach", and
-- `lwt_unix_check_job`. Each step is one access of the memory that the two threads share.
pub mod Invariant
pub mod Progress
mod Examples
use lwt_old.Base.{ℕ, ◌≡◌, ◌≢◌, Bool, true, false, Option, none, some}

pub data JobState : Type 0 where
  pending running done : JobState

pub data Owner : Type 0 where
  nobody main worker : Owner

-- The fields of `struct lwt_unix_job` that both threads use, the notification that was sent for
-- it, and whether it was freed.
pub record Job : Type 0 where
  pub state : JobState
  pub fast : Bool
  pub notification_id : Option ℕ
  pub mutex : Owner
  pub sent : Option ℕ
  pub freed : Bool

-- How the main thread learns that the job is done.
pub data Route : Type 0 where
  by_start by_check by_notification : Route

-- Where the main thread stands.
pub data MainPc : Type 0 where
  starting : MainPc  -- `done = job->state == DONE`, without the mutex
  confirming : MainPc  -- it was done: lock
  confirmed : MainPc  -- unlock, and return true
  undecided : MainPc  -- it was not, and false is returned; lock in `lwt_unix_check_job`
  checking : MainPc  -- the assignments under the mutex
  leaving : Bool → MainPc  -- unlock, and return this
  waiting : MainPc  -- for the notification
  collecting : Route → MainPc  -- `job->result`, which frees the job
  finished : Route → MainPc

-- Where `execute_job` stands.
pub data WorkerPc : Type 0 where
  queued : WorkerPc  -- lock
  marking : WorkerPc  -- state = RUNNING
  marked : WorkerPc  -- unlock
  working : WorkerPc  -- `job->worker(job)`
  worked : WorkerPc  -- lock
  closing : WorkerPc  -- state = DONE
  closed : WorkerPc  -- `if (job->fast == 0)`
  loud : WorkerPc  -- unlock
  notifying : WorkerPc  -- send the notification
  quiet : WorkerPc  -- unlock
  gone_loud : WorkerPc
  gone_quiet : WorkerPc

-- The main thread, where `id` is the notification id that it gives to `lwt_unix_check_job`.
pub data MainMove (id : ℕ) (j : Job) : MainPc → Job → MainPc → Type 0 where
  peek_done : j.state ≡ JobState.done → MainMove id j starting j confirming
  peek_other : j.state ≢ JobState.done → MainMove id j starting j undecided
  confirm : j.mutex ≡ nobody → MainMove id j confirming (record j { mutex = main }) confirmed
  return_start : MainMove id j confirmed (record j { mutex = nobody }) (collecting by_start)
  enter : j.mutex ≡ nobody → MainMove id j undecided (record j { mutex = main }) checking
  check_done :
      j.state ≡ JobState.done
      → MainMove id j checking (record j { fast = false; notification_id = some id }) (leaving true)
  check_other :
      j.state ≢ JobState.done
      → MainMove id j checking
          (record j { fast = false; notification_id = some id })
          (leaving false)
  return_true : MainMove id j (leaving true) (record j { mutex = nobody }) (collecting by_check)
  return_false : MainMove id j (leaving false) (record j { mutex = nobody }) waiting
  notified : j.sent ≡ some id → MainMove id j waiting j (collecting by_notification)
  collect : {r : Route} → MainMove id j (collecting r) (record j { freed = true }) (finished r)

pub data WorkerMove (j : Job) : WorkerPc → Job → WorkerPc → Type 0 where
  lock_first : j.mutex ≡ nobody → WorkerMove j queued (record j { mutex = worker }) marking
  mark : WorkerMove j marking (record j { state = running }) marked
  unlock_first : WorkerMove j marked (record j { mutex = nobody }) working
  work : WorkerMove j working j worked
  lock_last : j.mutex ≡ nobody → WorkerMove j worked (record j { mutex = worker }) closing
  close : WorkerMove j closing (record j { state = JobState.done }) closed
  go_loud : j.fast ≡ false → WorkerMove j closed j loud
  go_quiet : j.fast ≡ true → WorkerMove j closed j quiet
  unlock_loud : WorkerMove j loud (record j { mutex = nobody }) notifying
  unlock_quiet : WorkerMove j quiet (record j { mutex = nobody }) gone_quiet
  notify : WorkerMove j notifying (record j { sent = j.notification_id }) gone_loud

pub record System : Type 0 where
  pub job : Job
  pub main_pc : MainPc
  pub worker_pc : WorkerPc

pub data Step (id : ℕ) (s : System) : System → Type 0 where
  main_step :
      {j : Job} {p : MainPc}
      → MainMove id s.job s.main_pc j p
      → Step id s (record s { job = j; main_pc = p })
  worker_step :
      {j : Job} {p : WorkerPc}
      → WorkerMove s.job s.worker_pc j p
      → Step id s (record s { job = j; worker_pc = p })

-- `lwt_unix_start_job` has set the fields and handed the job to a worker.
abbrev pub init : System
init = record {
  job = record {
    state = pending;
    fast = true;
    notification_id = none;
    mutex = nobody;
    sent = none;
    freed = false;
  };
  main_pc = starting;
  worker_pc = queued;
}

pub data Reach (id : ℕ) : System → Type 0 where
  start : Reach id init
  later : {s t : System} → Reach id s → Step id s t → Reach id t

-- The next step of the worker uses the memory of the job.
abbrev pub uses_job : WorkerPc → Bool
uses_job gone_loud = false
uses_job gone_quiet = false
uses_job _ = true
