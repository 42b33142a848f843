-- ===== src/Switch.antt =====
-- src/unix/lwt_unix_stubs.c, where LWT_UNIX_HAVE_ASYNC_SWITCH is defined: `lwt_unix_start_job`,
-- `altstack_worker`, `alloc_new_stack` and `worker_loop`, for threads that change their stacks. The
-- sections under `pool_mutex` and under `blocking_call_enter_mutex` are single steps, and so is an
-- access of shared memory outside of them.
pub mod Exclusive
pub mod Views
pub mod Invariant
pub mod Moves
pub mod Steps
pub mod Safety
mod Examples
use lwt_old.Base.{
  ℕ, zero, suc, ◌+◌, ◌-◌, ◌≡◌, ◌≢◌, Bool, true, false, ◌&&◌, List, [], ◌∷◌, Option, none, some,
  update, leb, ◌==◌,
}
use lwt_old.JobQueue.{Queue, enqueue, dequeue}

pub data MainState : Type 0 where
  state_running state_blocked : MainState

-- Where a thread stands. With `running` to `taking`, and with `resuming`, it is on the stack of the
-- OCaml code; with `called` to `leaving`, on an alternative stack, which the second number is; with
-- `executing` to `woken`, on the stack of a worker, which the last number is. A thread in `leaving`
-- has the stack of a worker as well, and one in `resuming` still an alternative one.
pub data Thread : Type 0 where
  absent : Thread
  running : Thread
  inside : ℕ → Thread
  passed : ℕ → Thread
  ready : ℕ → Thread
  allocating : ℕ → Thread
  taking : ℕ → Thread
  called : ℕ → ℕ → Thread
  blocked : ℕ → ℕ → Thread
  calling : ℕ → ℕ → Thread
  resuming : ℕ → Thread
  leaving : ℕ → ℕ → Thread
  executing : ℕ → ℕ → Thread
  entering : ℕ → Thread
  asleep : ℕ → Thread
  woken : ℕ → Thread

-- Threads, alternative stacks and the stacks of workers are known by numbers; `fresh_frame` and
-- `fresh_stack` are the first that have not been given to a stack. Of what `sigsetjmp` keeps in
-- `blocking_call_leave`, the field has the variable `node` of `lwt_unix_start_job`.
pub record Process : Type 0 where
  pub threads : ℕ → Thread
  pub main_state : MainState
  pub main_thread : ℕ
  pub blocking_call_enter : List ℕ
  pub become_worker : List ℕ
  pub blocking_call : ℕ
  pub blocking_call_frame : ℕ
  pub blocking_call_leave : ℕ
  pub pool_queue : Queue
  pub thread_waiting_count : ℕ
  pub thread_count : ℕ
  pub pool_size : ℕ
  pub started : ℕ
  pub fresh_frame : ℕ
  pub fresh_stack : ℕ

-- `thread_waiting_count == 0 && thread_count >= pool_size`
pub is_full : Process → Bool
is_full s = s.thread_waiting_count == 0 && leb s.pool_size s.thread_count

abbrev pub go : Process → ℕ → Thread → Process
go s i t = record s { threads = update s.threads i t }

-- The signal of `pool_condition` reaches a thread that waits, if there is one.
pub data Signal (threads : ℕ → Thread) : (ℕ → Thread) → Type 0 where
  reach : (j k : ℕ) → threads j ≡ asleep k → Signal threads (update threads j (woken k))
  vain : ((j k : ℕ) → threads j ≢ asleep k) → Signal threads threads

-- `lwt_unix_start_job`, in the thread `i`.
pub data MainStep (i : ℕ) (s : Process) : Process → Type 0 where
  fall_back :
      s.threads i ≡ running
      → is_full s ≡ true
      → MainStep i s (record (go s i (inside s.started)) { started = suc s.started })
  come_back : {job : ℕ} → s.threads i ≡ inside job → MainStep i s (go s i running)
  pass :
      s.threads i ≡ running
      → is_full s ≡ false
      → MainStep i s (record (go s i (passed s.started)) { started = suc s.started })
  -- LWT_UNIX_ASYNC_METHOD_DETACH
  launch :
      {job : ℕ} (j : ℕ)
      → s.threads i ≡ passed job
      → s.thread_waiting_count ≡ 0
      → s.threads j ≡ absent
      → MainStep i s (record s {
        threads = update (update s.threads i running) j (executing job s.fresh_stack);
        thread_count = s.thread_count + 1;
        fresh_stack = suc s.fresh_stack;
      })
  fail :
      {job : ℕ}
      → s.threads i ≡ passed job
      → s.thread_waiting_count ≡ 0
      → MainStep i s (record (go s i running) { thread_count = s.thread_count + 1 })
  queue_up :
      {job : ℕ} {threads : ℕ → Thread}
      → s.threads i ≡ passed job
      → s.thread_waiting_count ≢ 0
      → Signal (update s.threads i running) threads
      → MainStep i s (record s { threads = threads; pool_queue = enqueue job s.pool_queue })
  -- LWT_UNIX_ASYNC_METHOD_SWITCH, "Ensures there is at least one thread".
  ensure :
      {job : ℕ} (j : ℕ)
      → s.threads i ≡ passed job
      → s.thread_waiting_count ≡ 0
      → s.threads j ≡ absent
      → MainStep i s (record s {
        threads = update (update s.threads i (ready job)) j (entering s.fresh_stack);
        thread_count = s.thread_count + 1;
        fresh_stack = suc s.fresh_stack;
      })
  ensured :
      {job : ℕ}
      → s.threads i ≡ passed job
      → s.thread_waiting_count ≢ 0
      → MainStep i s (go s i (ready job))
  -- The test of `blocking_call_enter`, and `alloc_new_stack`.
  no_frame :
      {job : ℕ}
      → s.threads i ≡ ready job
      → s.blocking_call_enter ≡ []
      → MainStep i s (go s i (allocating job))
  some_frame :
      {job : ℕ}
      → s.threads i ≡ ready job
      → s.blocking_call_enter ≢ []
      → MainStep i s (go s i (taking job))
  alloc_new_stack :
      {job : ℕ}
      → s.threads i ≡ allocating job
      → MainStep i s (record (go s i (taking job)) {
        blocking_call_enter = s.fresh_frame ∷ s.blocking_call_enter;
        fresh_frame = suc s.fresh_frame;
      })
  -- A frame is taken, the job and the frame are saved, and the thread jumps to it.
  take_frame :
      {job node : ℕ} {frames : List ℕ}
      → s.threads i ≡ taking job
      → s.blocking_call_enter ≡ node ∷ frames
      → MainStep i s (record (go s i (called job node)) {
        blocking_call_enter = frames;
        blocking_call = job;
        blocking_call_frame = node;
        blocking_call_leave = node;
      })
  -- CALL_SUCCEEDED: the frame is available again.
  re_add :
      {node : ℕ}
      → s.threads i ≡ resuming node
      → MainStep i s
          (record (go s i running) { blocking_call_enter = node ∷ s.blocking_call_enter })

-- `altstack_worker`, from where `sigsetjmp` does not return 0.
pub data CallStep (i : ℕ) (s : Process) : Process → Type 0 where
  mark_blocked :
      {job frame : ℕ}
      → s.threads i ≡ called job frame
      → CallStep i s (record (go s i (blocked s.blocking_call s.blocking_call_frame)) {
        main_state = state_blocked;
      })
  signal :
      {job frame : ℕ} {threads : ℕ → Thread}
      → s.threads i ≡ blocked job frame
      → Signal (update s.threads i (calling job frame)) threads
      → CallStep i s (record s { threads = threads })
  -- The job is executed: the thread stayed the main thread, or takes the checkpoint of a worker.
  succeed :
      {job frame : ℕ}
      → s.threads i ≡ calling job frame
      → s.main_thread ≡ i
      → CallStep i s
          (record (go s i (resuming s.blocking_call_leave)) { main_state = state_running })
  leave :
      {job frame node : ℕ} {nodes : List ℕ}
      → s.threads i ≡ calling job frame
      → s.main_thread ≢ i
      → s.become_worker ≡ node ∷ nodes
      → CallStep i s (record (go s i (leaving frame node)) { become_worker = nodes })
  -- The frame is available again; the mutex is held up to the jump.
  jump :
      {frame node : ℕ}
      → s.threads i ≡ leaving frame node
      → CallStep i s
          (record (go s i (entering node)) { blocking_call_enter = frame ∷ s.blocking_call_enter })

-- `worker_loop`. A thread that becomes the main thread leaves its stack to another.
pub data WorkerStep (i : ℕ) (s : Process) : Process → Type 0 where
  finish : {job k : ℕ} → s.threads i ≡ executing job k → WorkerStep i s (go s i (entering k))
  take_over :
      {k : ℕ}
      → s.threads i ≡ entering k
      → s.main_state ≡ state_blocked
      → WorkerStep i s (record (go s i running) {
        main_thread = i;
        main_state = state_running;
        become_worker = k ∷ s.become_worker;
      })
  take_over_woken :
      {k : ℕ}
      → s.threads i ≡ woken k
      → s.main_state ≡ state_blocked
      → WorkerStep i s (record (go s i running) {
        thread_waiting_count = s.thread_waiting_count - 1;
        main_thread = i;
        main_state = state_running;
        become_worker = k ∷ s.become_worker;
      })
  take_now :
      {k job : ℕ} {q : Queue}
      → s.threads i ≡ entering k
      → s.main_state ≡ state_running
      → dequeue s.pool_queue ≡ some (job, q)
      → WorkerStep i s (record (go s i (executing job k)) { pool_queue = q })
  take_woken :
      {k job : ℕ} {q : Queue}
      → s.threads i ≡ woken k
      → s.main_state ≡ state_running
      → dequeue s.pool_queue ≡ some (job, q)
      → WorkerStep i s (record (go s i (executing job k)) {
        thread_waiting_count = s.thread_waiting_count - 1;
        pool_queue = q;
      })
  sleep :
      {k : ℕ}
      → s.threads i ≡ entering k
      → s.main_state ≡ state_running
      → s.pool_queue.pool_queue ≡ none
      → WorkerStep i s
          (record (go s i (asleep k)) { thread_waiting_count = s.thread_waiting_count + 1 })
  wait_again :
      {k : ℕ}
      → s.threads i ≡ woken k
      → s.main_state ≡ state_running
      → s.pool_queue.pool_queue ≡ none
      → WorkerStep i s (go s i (asleep k))
  -- `pthread_cond_wait` may return without a signal.
  wake : {k : ℕ} → s.threads i ≡ asleep k → WorkerStep i s (go s i (woken k))

pub data Step (s : Process) : Process → Type 0 where
  main_step : {t : Process} (i : ℕ) → MainStep i s t → Step s t
  call_step : {t : Process} (i : ℕ) → CallStep i s t → Step s t
  worker_step : {t : Process} (i : ℕ) → WorkerStep i s t → Step s t

-- The thread 0 runs the OCaml code.
pub only_main : ℕ → Thread
only_main zero = running
only_main (suc i) = absent

abbrev pub init : ℕ → (ℕ → ℕ) → Process
init size links = record {
  threads = only_main;
  main_state = state_running;
  main_thread = 0;
  blocking_call_enter = [];
  become_worker = [];
  blocking_call = 0;
  blocking_call_frame = 0;
  blocking_call_leave = 0;
  pool_queue = record { pool_queue = none; next = links };
  thread_waiting_count = 0;
  thread_count = 0;
  pool_size = size;
  started = 0;
  fresh_frame = 0;
  fresh_stack = 0;
}

pub data Reach (size : ℕ) (links : ℕ → ℕ) : Process → Type 0 where
  start : Reach size links (init size links)
  later : {s t : Process} → Reach size links s → Step s t → Reach size links t
