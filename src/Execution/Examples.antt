-- ===== src/Execution/Examples.antt =====
-- Runs of the two threads, and the theorems at concrete states.
use lwt_old.Base.{◌≡◌, refl, false}
use lwt_old.Execution.{
  by_check, by_start, MainPc, waiting, MainMove, WorkerMove, System, main_step, worker_step, Reach,
  start, later, uses_job,
}
use lwt_old.Execution
use lwt_old.Execution.Invariant.{Reach-not_freed}

-- The main thread does not wait, so the worker notifies it.
told : (s : System) × Reach 5 s × (s.main_pc ≡ waiting) × (uses_job s.worker_pc ≡ false)
told = (
  _,
  later
      (later
        (later
          (later
            (later
              (later
                (later
                  (later
                    (later
                      (later
                        (later
                          (later (later start (main_step (MainMove.peek_other (λ e. cc))))
                            (main_step (MainMove.enter refl)))
                          (main_step (MainMove.check_other (λ e. cc))))
                        (main_step MainMove.return_false))
                      (worker_step (WorkerMove.lock_first refl)))
                    (worker_step WorkerMove.mark))
                  (worker_step WorkerMove.unlock_first))
                (worker_step WorkerMove.work))
              (worker_step (WorkerMove.lock_last refl)))
            (worker_step WorkerMove.close))
          (worker_step (WorkerMove.go_loud refl)))
        (worker_step WorkerMove.unlock_loud))
      (worker_step WorkerMove.notify),
  refl,
  refl,
)

Reach-not_freed_example : (Execution.init).job.freed ≡ false
Reach-not_freed_example = Reach-not_freed 5 start refl
