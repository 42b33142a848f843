-- ===== src/Pool/Limit.antt =====
-- Where the counters of the pool mislead it.
use lwt_old.Base.{
  ℕ, zero, suc, ◌+◌, ◌<◌, ◌≡◌, ◌≢◌, refl, ap, length, length-append, Option, none, some, List, [],
  ◌∷◌, ◌++◌, arith,
}
use lwt_old.JobQueue.{Queue, enqueue, dequeue}
use lwt_old.JobQueue.Refine.{HoldsAt, Holds, enqueue-Holds, dequeue-Takes}
use lwt_old.Pool.{
  Worker, executing, asleep, woken, idle, Pool, no_room, pass, launch, hand_over, queue_up, finish,
  sleep, take_woken, main_step, worker_step, init, Reach, Step, start, later,
}

-- The states that are reached without a change of the size.
pub data Within (size : ℕ) (links : ℕ → ℕ) : Pool → Type 0 where
  begin : Within size links (init size links)
  next : {s t : Pool} → Within size links s → Step s t → t.pool_size ≡ size → Within size links t

Within-Reach : {size : ℕ} {links : ℕ → ℕ} {s : Pool} → Within size links s → Reach size links s
Within-Reach begin = start
Within-Reach (next r step e) = later (Within-Reach r) step

-- As many threads as the pool may have, of which the youngest executes a job.
record Full (size k : ℕ) (links : ℕ → ℕ) : Type 0 where
  pool : Pool
  reach : Within size links pool
  main_idle : pool.main_pc ≡ idle
  none_waits : pool.thread_waiting_count ≡ 0
  threads : pool.thread_count ≡ k
  launched : length pool.workers ≡ k
  same_size : pool.pool_size ≡ size
  empty : pool.pool_queue.pool_queue ≡ none
  older : List Worker
  job : ℕ
  busy : pool.workers ≡ older ++ executing job ∷ []

-- A thread more, if the pool has room for it.
grow :
    {size : ℕ} {links : ℕ → ℕ} (s : Pool)
    → Within size links s
    → s.pool_size ≡ size
    → s.main_pc ≡ idle
    → s.thread_waiting_count ≡ 0
    → s.thread_count < s.pool_size
    → Within size links (record s {
      main_pc = idle;
      started = suc s.started;
      thread_count = s.thread_count + 1;
      workers = s.workers ++ executing s.started ∷ [];
    })
unfolding no_room
grow s r same e w l =
    next (next r (main_step (pass e (ground arith))) same) (main_step (launch refl w)) same

fill : (size k : ℕ) (links : ℕ → ℕ) → k < size → Full size (suc k) links
fill size zero links h = record {
  pool = _;
  reach = grow (init size links) begin refl refl refl h;
  main_idle = refl;
  none_waits = refl;
  threads = refl;
  launched = refl;
  same_size = refl;
  empty = refl;
  older = [];
  job = 0;
  busy = refl;
}
fill size (suc k) links h =
    let f = fill size k links (omega (arith, h)) in
    record {
      pool = _;
      reach =
          grow f.pool f.reach f.same_size f.main_idle f.none_waits
            (omega (arith, f.threads, f.same_size, h));
      main_idle = refl;
      none_waits = f.none_waits;
      threads = omega (arith, f.threads);
      launched =
          omega (arith, f.launched, length-append f.pool.workers (executing f.pool.started ∷ []));
      same_size = f.same_size;
      empty = f.empty;
      older = f.pool.workers;
      job = f.pool.started;
      busy = refl;
    }

Holds_empty : (q : Queue) → q.pool_queue ≡ none → Holds q []
Holds_empty q e = at q.pool_queue e
  where
    at : (last : Option ℕ) → last ≡ none → HoldsAt last q.next []
    at none e = refl
    at (some last) e = cc

Holds_some : (q : Queue) (x : ℕ) (xs : List ℕ) → Holds q (x ∷ xs) → q.pool_queue ≢ none
Holds_some q x xs h e = at q.pool_queue h e
  where
    at : (last : Option ℕ) → HoldsAt last q.next (x ∷ xs) → last ≢ none
    at none h' e' = cc
    at (some last) h' e' = cc

-- A queue that held nothing hands out the job that was put into it.
dequeue-enqueue_empty :
    (job : ℕ) (q : Queue)
    → q.pool_queue ≡ none
    → (q' : Queue) × (dequeue (enqueue job q) ≡ some (job, q'))
dequeue-enqueue_empty job q e =
    let (q', e', h) =
      dequeue-Takes (enqueue job q) (job ∷ []) (enqueue-Holds job q [] (Holds_empty q e) tt) in
    (q', e')

-- Of two jobs the second stays.
dequeue-enqueue_two :
    (a b : ℕ) (q : Queue)
    → q.pool_queue ≡ none
    → b ≢ a
    → (q' : Queue) × (dequeue (enqueue b (enqueue a q)) ≡ some (a, q')) × (q'.pool_queue ≢ none)
dequeue-enqueue_two a b q e n =
    let (q', e', h) = dequeue-Takes (enqueue b (enqueue a q)) (a ∷ b ∷ []) (
      enqueue-Holds b (enqueue a q) (a ∷ []) (enqueue-Holds a q [] (Holds_empty q e) tt) (n, tt)) in
    (q', e', Holds_some q' b [] h)

-- The youngest worker ends its job and waits.
rested :
    {size k : ℕ} {links : ℕ → ℕ} (f : Full size k links)
    → Within size links (record f.pool {
      finished = f.job ∷ f.pool.finished;
      thread_waiting_count = f.pool.thread_waiting_count + 1;
      workers = f.older ++ asleep ∷ [];
    })
rested f =
    next (next f.reach (worker_step f.older [] f.busy finish) f.same_size)
      (worker_step f.older [] refl (sleep f.empty)) f.same_size

-- The number of threads exceeds `pool_size`: for every size of the pool that is not 0 a state is
-- reachable, with no change of the size on the way, in which one thread more than that was
-- launched and is there.
pub overshoot :
    (size : ℕ) (links : ℕ → ℕ)
    → (s : Pool) × Within (suc size) links s
      × (s.pool_size ≡ suc size)
      × (length s.workers ≡ suc size + 1)
unfolding no_room
overshoot size links =
    let f = fill (suc size) size links (omega arith) in
    let p = f.pool in
    let one : p.thread_waiting_count + 1 ≢ 0 = λ e. omega (arith, e) in
    let (q, e) = dequeue-enqueue_empty p.started p.pool_queue f.empty in
    let same = f.same_size in
    let r1 = next (rested f) (main_step (pass f.main_idle (ground arith))) same in
    let r2 = next r1 (main_step (hand_over f.older [] refl one refl)) same in
    let r3 = next r2 (main_step (pass refl (ground arith))) same in
    let r4 = next r3 (worker_step f.older [] refl (take_woken e)) same in
    (
      _,
      next r4 (main_step (launch refl (omega (arith, f.none_waits)))) same,
      same,
      omega (
        arith,
        f.launched,
        ap length f.busy,
        length-append f.older (executing f.job ∷ []),
        length-append f.older (executing p.started ∷ []),
        length-append (f.older ++ executing p.started ∷ []) (executing (suc p.started) ∷ []),
      ),
    )

-- A job can wait in the queue behind one that a worker executes although the pool has room for
-- another thread: for every size of the pool above 1 a state is reachable in which the only thread
-- executes a job, another job is in the queue, and the main thread runs OCaml code. The counter of
-- the waiting threads still had the thread that a signal had already reached.
pub behind :
    (size : ℕ) (links : ℕ → ℕ)
    → (s : Pool) × (job : ℕ) × Reach (suc (suc size)) links s
      × (s.workers ≡ executing job ∷ [])
      × (s.pool_queue.pool_queue ≢ none)
      × (s.main_pc ≡ idle)
      × (s.thread_count < s.pool_size)
unfolding no_room
behind size links =
    let p = init (suc (suc size)) links in
    let one : ◌+◌ 0 1 ≢ 0 = λ e. omega (arith, e) in
    let (q, e, n) = dequeue-enqueue_two 1 2 p.pool_queue refl (λ e. omega (arith, e)) in
    (
      _,
      1,
      later
          (later
            (later
              (later
                (later
                  (later
                    (later (Within-Reach (grow p begin refl refl refl (omega arith)))
                      (worker_step [] [] refl finish))
                    (worker_step [] [] refl (sleep refl)))
                  (main_step (pass refl (ground arith))))
                (main_step (hand_over [] [] refl one refl)))
              (main_step (pass refl (ground arith))))
            (main_step (queue_up refl one one_woken)))
          (worker_step [] [] refl (take_woken e)),
      refl,
      n,
      refl,
      omega arith,
    )
  where
    one_woken : (before after : List Worker) → woken ∷ [] ≢ before ++ asleep ∷ after
    one_woken [] after h = cc
    one_woken (w ∷ []) after h = cc
    one_woken (w ∷ w' ∷ before) after h = cc
