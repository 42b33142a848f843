-- ===== src/Pool/Examples.antt =====
-- Runs of the pool, and its theorems at them.
use lwt_old.Base.{ℕ, ◌+◌, ◌≡◌, refl, List, [], ◌∷◌, length, arith}
use lwt_old.JobQueue.Refine.{Holds}
use lwt_old.Pool.{
  fall_back, inside, Worker, executing, Pool, pass, launch, WorkerStep, main_step, init, Reach,
  start, later, no_room,
}
use lwt_old.Pool.Counts.{total, waits, sleeps, born}
use lwt_old.Pool.Workers.{places}
use lwt_old.Pool.Served.{Member, Reach-placed, Reach-counters, Reach-served}
use lwt_old.Pool.Limit.{Within, overshoot, behind}
use lwt_old.Pool.Starved.{IsStarved, Calls, here, more, one_fails, starved, Reach-IsStarved}

abbrev links : ℕ → ℕ
links job = 0

-- A job in the hands of a worker.
abbrev one_busy : Pool
one_busy = record (init 3 links) { thread_count = 1; workers = executing 0 ∷ []; started = 1 }

reach_busy : Reach 3 links one_busy
unfolding no_room
reach_busy = later (later start (main_step (pass refl refl))) (main_step (launch refl refl))

Reach-placed_example :
    (queued : List ℕ) × Holds one_busy.pool_queue queued
    × ((job : ℕ) → places job queued one_busy ≡ born 1 job)
Reach-placed_example = Reach-placed reach_busy

Reach-counters_example :
    (◌≡◌ {A = ℕ} 0 (total waits (executing 0 ∷ [])))
    × (◌≡◌ {A = ℕ} 1 (length (executing 0 ∷ []) + 0))
Reach-counters_example = Reach-counters reach_busy

overshoot_example : (s : Pool) × Within 3 links s × (s.pool_size ≡ 3) × (length s.workers ≡ 4)
overshoot_example = overshoot 2 links

Reach-served_example :
    Member
      (λ w. (sleeps w ≡ 0) × ((t : Pool) × ((w' : Worker) × WorkerStep (behind 1 links).0 w t w')))
      (behind 1 links).0.workers
Reach-served_example = Reach-served (behind 1 links).2 (behind 1 links).4

-- Both launches fail, and then the main thread executes a job itself.
abbrev alone : Pool
alone = record (init 2 links) {
  main_pc = inside 2;
  thread_count = 2;
  started = 3;
  failures = 2;
  lost = 1 ∷ 0 ∷ [];
}

calls_alone : Calls (starved 2 links 2) alone
unfolding starved one_fails no_room
calls_alone = more here (main_step (fall_back refl refl)) refl (omega arith) (omega arith)

Reach-IsStarved_example : Reach 2 links (starved 2 links 2) × IsStarved alone
Reach-IsStarved_example = Reach-IsStarved 1 links calls_alone
