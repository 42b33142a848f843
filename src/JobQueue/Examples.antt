-- ===== src/JobQueue/Examples.antt =====
-- Tests of the job queue, and its theorems at concrete queues.
use lwt_old.Base.{◌≡◌, refl, none, List, [], ◌∷◌, arith}
use lwt_old.JobQueue.{Queue, enqueue, dequeue, Op, add, take}
use lwt_old.JobQueue.Refine.{
  Holds, Takes, run, fifo_run, enqueue-Holds, dequeue-Takes, run-fifo_run,
}

abbrev empty : Queue
empty = record { pool_queue = none; next = λ p. 0 }

abbrev two : Queue
unfolding enqueue
two = enqueue 20 (enqueue 10 empty)

abbrev ops : List Op
ops = add 10 ∷ add 20 ∷ take ∷ add 30 ∷ take ∷ take ∷ take ∷ []

two-Holds : Holds two (10 ∷ 20 ∷ [])
unfolding enqueue
two-Holds = ((refl, (refl, refl)), ((omega arith, tt), (tt, tt)))

fifo_order : (run ops empty).0 ≡ 10 ∷ 20 ∷ 30 ∷ []
unfolding run
fifo_order = refl

enqueue-Holds_example : Holds (enqueue 30 two) (10 ∷ 20 ∷ 30 ∷ [])
enqueue-Holds_example = enqueue-Holds 30 two (10 ∷ 20 ∷ []) two-Holds (omega arith)

dequeue-Takes_example : Takes (10 ∷ 20 ∷ []) (dequeue two)
dequeue-Takes_example = dequeue-Takes two (10 ∷ 20 ∷ []) two-Holds

run-fifo_run_example :
    ((run ops empty).0 ≡ (fifo_run ops []).0) × Holds (run ops empty).1 (fifo_run ops []).1
unfolding fifo_run
run-fifo_run_example = run-fifo_run ops empty [] refl (omega arith)
