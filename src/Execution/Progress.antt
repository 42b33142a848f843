-- ===== src/Execution/Progress.antt =====
-- Neither thread is ever stuck, and both come to their end.
use lwt_old.Base.{ℕ, ◌+◌, ◌≡◌, ◌⊎◌, false}
use lwt_old.Execution.{
  Job, Route, MainPc, starting, confirming, confirmed, undecided, checking, leaving, waiting,
  collecting, finished, WorkerPc, queued, marking, marked, working, worked, closing, closed, loud,
  notifying, quiet, gone_loud, gone_quiet, MainMove, WorkerMove, System, uses_job,
}

-- Steps that are left.
abbrev main_left : MainPc → ℕ
main_left starting = 7
main_left undecided = 6
main_left confirming = 5
main_left checking = 5
main_left confirmed = 4
main_left (leaving b) = 4
main_left waiting = 3
main_left (collecting r) = 1
main_left (finished r) = 0

abbrev worker_left : WorkerPc → ℕ
worker_left queued = 10
worker_left marking = 9
worker_left marked = 8
worker_left working = 7
worker_left worked = 6
worker_left closing = 5
worker_left closed = 4
worker_left loud = 3
worker_left notifying = 2
worker_left quiet = 1
worker_left gone_loud = 0
worker_left gone_quiet = 0

abbrev pub steps_left : System → ℕ
steps_left s = main_left s.main_pc + worker_left s.worker_pc

module _ (id : ℕ) where
  abbrev MainCan : Job → MainPc → Type 0
  MainCan j m = (j' : Job) × (m' : MainPc) × MainMove id j m j' m'

  abbrev WorkerCan : Job → WorkerPc → Type 0
  WorkerCan j w = (j' : Job) × (w' : WorkerPc) × WorkerMove j w j' w'

  -- At the end, or one of the two can move.
  abbrev Can : Job → MainPc → WorkerPc → Type 0
  Can j m w = ((r : Route) × (m ≡ finished r) × (uses_job w ≡ false)) ⊎ MainCan j m ⊎ WorkerCan j w
