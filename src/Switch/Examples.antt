-- ===== src/Switch/Examples.antt =====
-- Runs of a job on another stack, and the theorems at them.
use lwt_old.Base.{ℕ, ◌≡◌, refl, ap, inr, ◌⊎◌}
use lwt_old.Switch.{
  running, calling, resuming, asleep, Process, Step, reach, pass, launch, ensure, no_frame,
  alloc_new_stack, take_frame, MainStep, CallStep, mark_blocked, signal, WorkerStep, finish,
  take_over_woken, sleep, main_step, call_step, worker_step, only_main, Reach, start, later,
  is_full,
}
use lwt_old.Switch.Safety.{
  ocaml, stack, IsFree, Reach-stack, Reach-goes_on, Reach-resumes, Reach-woken,
}

abbrev links : ℕ → ℕ
links job = 0

infixl 5 ◌▹◌
abbrev ◌▹◌ : {s t : Process} → Reach 3 links s → Step s t → Reach 3 links t
r ▹ st = later r st

-- The worker has become the main thread while the thread 0 executes its call.
replaced :
    (s : Process) × Reach 3 links s
    × (s.threads 0 ≡ calling 0 0)
    × (s.threads 1 ≡ running)
    × (s.main_thread ≡ 1)
unfolding only_main is_full
replaced = (
  _,
  start
      ▹ main_step 0 (pass refl refl)
      ▹ main_step 0 (ensure 1 refl refl refl)
      ▹ worker_step 1 (sleep refl refl refl)
      ▹ main_step 0 (no_frame refl refl)
      ▹ main_step 0 (alloc_new_stack refl)
      ▹ main_step 0 (take_frame refl refl)
      ▹ call_step 0 (mark_blocked refl)
      ▹ call_step 0 (signal refl (reach 1 0 refl))
      ▹ worker_step 1 (take_over_woken refl refl),
  refl,
  refl,
  refl,
)

-- Two workers wait when the main thread calls, and the first is woken.
waited :
    (s : Process) × Reach 3 links s
    × (s.threads s.main_thread ≡ calling 1 0)
    × (s.threads 2 ≡ asleep 1)
unfolding only_main is_full
waited = (
  _,
  start
      ▹ main_step 0 (pass refl refl)
      ▹ main_step 0 (launch 1 refl refl refl)
      ▹ main_step 0 (pass refl refl)
      ▹ main_step 0 (ensure 2 refl refl refl)
      ▹ worker_step 1 (finish refl)
      ▹ worker_step 1 (sleep refl refl refl)
      ▹ worker_step 2 (sleep refl refl refl)
      ▹ main_step 0 (no_frame refl refl)
      ▹ main_step 0 (alloc_new_stack refl)
      ▹ main_step 0 (take_frame refl refl)
      ▹ call_step 0 (mark_blocked refl)
      ▹ call_step 0 (signal refl (reach 1 0 refl)),
  refl,
  refl,
)

Reach-stack_example : ◌≡◌ {A = ℕ} 1 1 × ¬ IsFree replaced.0 ocaml
unfolding stack
Reach-stack_example =
    Reach-stack replaced.1 {i = 1} {j = 1} {k = ocaml} (ap stack replaced.3) (ap stack replaced.3)

Reach-goes_on_example : (t : Process) × (MainStep 0 replaced.0 t ⊎ CallStep 0 replaced.0 t)
Reach-goes_on_example = Reach-goes_on replaced.1 {job = 0} {frame = 0} (inr replaced.2)

Reach-woken_example :
    (w : ℕ) × (t : Process) × WorkerStep w waited.0 t
    × (t.main_thread ≡ w)
    × (t.threads w ≡ running)
Reach-woken_example = Reach-woken waited.1 waited.2 waited.3

Reach-resumes_example :
    (t : Process) × CallStep waited.0.main_thread waited.0 t
    × (t.threads waited.0.main_thread ≡ resuming 0)
Reach-resumes_example = Reach-resumes waited.1 {job = 1} waited.2 refl
