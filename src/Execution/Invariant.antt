-- ===== src/Execution/Invariant.antt =====
-- Which places the two threads can be at together, and what holds there.
use lwt_old.Base.{ℕ, ◌≡◌, refl, Bool, true, false, Option, none, some, arith}
use lwt_old.Execution.{
  JobState, pending, running, Owner, nobody, main, worker, Job, by_check, by_notification, MainPc,
  starting, confirming, confirmed, undecided, checking, leaving, waiting, collecting, finished,
  WorkerPc, queued, marking, marked, working, worked, closing, closed, loud, notifying, quiet,
  gone_loud, gone_quiet, MainMove, WorkerMove, System, Step, main_step, worker_step, Reach, start,
  later, uses_job,
}

abbrev state_of : WorkerPc → JobState
state_of queued = pending
state_of marking = pending
state_of marked = running
state_of working = running
state_of worked = running
state_of closing = running
state_of _ = JobState.done

abbrev worker_holds : WorkerPc → Bool
worker_holds queued = false
worker_holds working = false
worker_holds worked = false
worker_holds notifying = false
worker_holds gone_loud = false
worker_holds gone_quiet = false
worker_holds _ = true

abbrev owner : MainPc → WorkerPc → Owner
owner confirmed w = main
owner checking w = main
owner (leaving b) w = main
owner _ w = elim (worker_holds w) [ true ↦ worker | false ↦ nobody ]

-- `fast` and the notification id, by what the main thread has done.
abbrev fast_at : MainPc → Bool
fast_at (leaving b) = false
fast_at waiting = false
fast_at (collecting by_check) = false
fast_at (collecting by_notification) = false
fast_at (finished by_check) = false
fast_at (finished by_notification) = false
fast_at _ = true

abbrev sent_at : ℕ → WorkerPc → Option ℕ
sent_at id gone_loud = some id
sent_at id _ = none

abbrev freed_at : MainPc → Bool
freed_at (finished r) = true
freed_at _ = false

-- A worker that has not read `fast` as 0.
abbrev unheard : WorkerPc → Bool
unheard loud = false
unheard notifying = false
unheard gone_loud = false
unheard _ = true

-- Not done, and not holding the mutex.
abbrev outside : WorkerPc → Bool
outside queued = true
outside working = true
outside worked = true
outside _ = false

abbrev is_quiet : WorkerPc → Bool
is_quiet gone_quiet = true
is_quiet _ = false

abbrev can_meet : MainPc → WorkerPc → Bool
can_meet starting w = unheard w
can_meet undecided w = unheard w
can_meet confirming closed = true
can_meet confirming quiet = true
can_meet confirming gone_quiet = true
can_meet confirming _ = false
can_meet confirmed w = is_quiet w
can_meet checking gone_quiet = true
can_meet checking w = outside w
can_meet (leaving true) w = is_quiet w
can_meet (leaving false) w = outside w
can_meet waiting quiet = false
can_meet waiting gone_quiet = false
can_meet waiting _ = true
can_meet (collecting by_notification) gone_loud = true
can_meet (collecting by_notification) _ = false
can_meet (collecting _) w = is_quiet w
can_meet (finished by_notification) gone_loud = true
can_meet (finished by_notification) _ = false
can_meet (finished _) w = is_quiet w

abbrev id_at : ℕ → MainPc → Option ℕ
id_at id m = elim (fast_at m) [ true ↦ none | false ↦ some id ]

pub record Inv (id : ℕ) (j : Job) (m : MainPc) (w : WorkerPc) : Type 0 where
  pub state : j.state ≡ state_of w
  pub mutex : j.mutex ≡ owner m w
  pub fast : j.fast ≡ fast_at m
  pub given : j.notification_id ≡ id_at id m
  pub sent : j.sent ≡ sent_at id w
  pub freed : j.freed ≡ freed_at m
  pub together : can_meet m w ≡ true

module _ (id : ℕ) where
  MainMove-Inv :
      {j j' : Job} {m m' : MainPc} {w : WorkerPc}
      → MainMove id j m j' m'
      → Inv id j m w
      → Inv id j' m' w
  MainMove-Inv (MainMove.peek_done e) v = ground arith
  MainMove-Inv (MainMove.peek_other e) v = ground arith
  MainMove-Inv (MainMove.confirm e) v = ground arith
  MainMove-Inv MainMove.return_start v = ground arith
  MainMove-Inv (MainMove.enter e) v = ground arith
  MainMove-Inv (MainMove.check_done e) v = ground arith
  MainMove-Inv (MainMove.check_other e) v = ground arith
  MainMove-Inv MainMove.return_true v = ground arith
  MainMove-Inv MainMove.return_false v = ground arith
  MainMove-Inv (MainMove.notified e) v = ground arith
  MainMove-Inv MainMove.collect v = ground arith

  WorkerMove-Inv :
      {j j' : Job} {m : MainPc} {w w' : WorkerPc}
      → WorkerMove j w j' w'
      → Inv id j m w
      → Inv id j' m w'
  WorkerMove-Inv (WorkerMove.lock_first e) v = ground arith
  WorkerMove-Inv WorkerMove.mark v = ground arith
  WorkerMove-Inv WorkerMove.unlock_first v = ground arith
  WorkerMove-Inv WorkerMove.work v = ground arith
  WorkerMove-Inv (WorkerMove.lock_last e) v = ground arith
  WorkerMove-Inv WorkerMove.close v = ground arith
  WorkerMove-Inv (WorkerMove.go_loud e) v = ground arith
  WorkerMove-Inv (WorkerMove.go_quiet e) v = ground arith
  WorkerMove-Inv WorkerMove.unlock_loud v = ground arith
  WorkerMove-Inv WorkerMove.unlock_quiet v = ground arith
  WorkerMove-Inv WorkerMove.notify v = ground arith

  Step-Inv :
      {s t : System}
      → Step id s t
      → Inv id s.job s.main_pc s.worker_pc
      → Inv id t.job t.main_pc t.worker_pc
  Step-Inv (main_step mv) v = MainMove-Inv mv v
  Step-Inv (worker_step mv) v = WorkerMove-Inv mv v

  pub Reach-Inv : {s : System} → Reach id s → Inv id s.job s.main_pc s.worker_pc
  Reach-Inv start = record {
    state = refl;
    mutex = refl;
    fast = refl;
    given = refl;
    sent = refl;
    freed = refl;
    together = refl;
  }
  Reach-Inv (later r st) = Step-Inv st (Reach-Inv r)

  module _ {s : System} (r : Reach id s) where
    open (Reach-Inv r) use {state, mutex, fast, given, sent, freed, together}

    -- In every interleaving, while the worker still uses the memory of the job the main thread
    -- has not freed it.
    pub Reach-not_freed : uses_job s.worker_pc ≡ true → s.job.freed ≡ false
    Reach-not_freed h = at s.main_pc s.worker_pc together freed h
      where
        at :
            (m : MainPc) (w : WorkerPc)
            → can_meet m w ≡ true
            → s.job.freed ≡ freed_at m
            → uses_job w ≡ true
            → s.job.freed ≡ false
        at m w t f u = ground arith
