-- ===== src/Jobs/Balance.antt =====
-- A job frees its block and destroys its mutex: what is left of it in memory.
use Prim.Native.String.{String}
use lwt_old.Base.{ℕ, suc, ◌≡◌, refl, sym, subst, ap, ◌∙◌, List, ◌∷◌, update, update_self, arith}
use lwt_old.Base.Outcome.{
  Run, ok, raised, M, ◌>>=◌, pure, raise, Sys, done, failed, unix_error, bind_ok, bind_raised,
  fault, bind_fault,
}
use lwt_old.Jobs.{
  Mem, AsyncMethod, synchronous, detach, switch, mutex_destroy, remove_root, release_job, free,
  free_job, prepare_job, malloc, life, run_job_sync, mutex_init, finish, check_job,
}

abbrev pub with_mutex : AsyncMethod → ℕ → List ℕ → List ℕ
with_mutex synchronous job xs = xs
with_mutex _ job xs = job ∷ xs

-- Memory in which the job at address `job` was allocated after everything in `m`, and started.
pub record IsHeld (method : AsyncMethod) (job : ℕ) (m m' : Mem) : Type 0 where
  pub live : m'.live ≡ job ∷ m.live
  pub mutexes : m'.mutexes ≡ with_mutex method job m.mutexes
  pub async_method : m'.async_method job ≡ method

-- Memory after a job that was allocated first in `m`: no block, mutex or root is left of it.
abbrev pub ended : AsyncMethod → Mem → Mem
ended method m = record m {
  fresh = suc m.fresh;
  async_method = update m.async_method m.fresh method;
}

pub free-head :
    (a : ℕ) (l : List ℕ) (m : Mem) → m.live ≡ a ∷ l → free a m ≡ ok tt (record m { live = l })
unfolding free
free-head a l m h = ground arith

mutex_destroy-head :
    (a : ℕ) (l : List ℕ) (m : Mem)
    → m.mutexes ≡ a ∷ l
    → mutex_destroy a m ≡ ok tt (record m { mutexes = l })
unfolding mutex_destroy
mutex_destroy-head a l m h = ground arith

pub remove_root-head :
    (a : ℕ) (l : List ℕ) (m : Mem)
    → m.roots ≡ a ∷ l
    → remove_root a m ≡ ok tt (record m { roots = l })
unfolding remove_root
remove_root-head a l m h = ground arith

release_job_lem :
    (method : AsyncMethod) (job : ℕ) (m m' : Mem)
    → IsHeld method job m m'
    → release_job method job m' ≡ ok tt (record m' { live = m.live; mutexes = m.mutexes })
unfolding release_job
release_job_lem synchronous job m m' h =
    free-head job m.live m' h.live
    ∙ ap (λ xs. ok tt (record m' { live = m.live; mutexes = xs })) h.mutexes
release_job_lem detach job m m' h =
    bind_ok (mutex_destroy job) (λ _. free job) m' (mutex_destroy-head job m.mutexes m' h.mutexes)
      (free-head job m.live _ h.live)
release_job_lem switch job m m' h =
    bind_ok (mutex_destroy job) (λ _. free job) m' (mutex_destroy-head job m.mutexes m' h.mutexes)
      (free-head job m.live _ h.live)

-- A job that holds its block, and its mutex if it has one, gives back both.
pub free_job_lem :
    (method : AsyncMethod) (job : ℕ) (m m' : Mem)
    → IsHeld method job m m'
    → free_job job m' ≡ ok tt (record m' { live = m.live; mutexes = m.mutexes })
unfolding free_job
free_job_lem method job m m' h =
    ap (λ k. release_job k job m') h.async_method ∙ release_job_lem method job m m' h

-- Memory with a job's block, and then with its mutex.
abbrev pub allocated : Mem → Mem
allocated m = record m { live = m.fresh ∷ m.live; fresh = suc m.fresh }

abbrev pub prepared : AsyncMethod → ℕ → Mem → Mem
prepared method job m = record m {
  mutexes = with_mutex method job m.mutexes;
  async_method = update m.async_method job method;
}

-- The job at the first free address, with other fields of memory changed.
pub held :
    (method : AsyncMethod) (m : Mem) (roots : List ℕ) (strings bigarrays : ℕ → List ℕ)
    → IsHeld method m.fresh m (record (prepared method m.fresh (allocated m)) {
      roots = roots;
      strings = strings;
      bigarrays = bigarrays;
    })
held method m roots strings bigarrays = record {
  live = refl;
  mutexes = refl;
  async_method = update_self m.async_method m.fresh method;
}

pub prepare_job_lem :
    (job : ℕ) (method : AsyncMethod) (m : Mem)
    → prepare_job job method m ≡ ok tt (prepared method job m)
unfolding prepare_job mutex_init
prepare_job_lem job synchronous m = refl
prepare_job_lem job detach m = refl
prepare_job_lem job switch m = refl

-- The steps of a job's life, one after the other.
pub life_lem :
    {J A : Type 0} (alloc : ℕ → M Mem J) (worker : J → M Mem J) (result : ℕ → J → M Mem A)
    (method : AsyncMethod) (m : Mem) {j j' : J} {m1 m2 : Mem} {r : Run Mem A}
    → alloc m.fresh (allocated m) ≡ ok j m1
    → worker j (prepared method m.fresh m1) ≡ ok j' m2
    → result m.fresh j' m2 ≡ r
    → life alloc worker result method m ≡ r
unfolding life malloc
life_lem alloc worker result method m {j} {j'} {m1} e f g =
    bind_ok (alloc m.fresh) _ (allocated m) e (
      bind_ok (prepare_job m.fresh method) _ m1 (prepare_job_lem m.fresh method m1)
        (bind_ok (worker j) (result m.fresh) (prepared method m.fresh m1) f g))

-- What follows `lwt_unix_free_job`.
pub free_job_then :
    {A : Type 0} (method : AsyncMethod) (job : ℕ) (m m' : Mem) (k : M Mem A) {r : Run Mem A}
    → IsHeld method job m m'
    → k (record m' { live = m.live; mutexes = m.mutexes }) ≡ r
    → (free_job job >>= λ _. k) m' ≡ r
free_job_then method job m m' k h e =
    bind_ok (free_job job) (λ _. k) m' (free_job_lem method job m m' h) e

-- By the kernel's answer the run ends in one way or the other.
abbrev pub Ends : {A B : Type 0} → Sys A → (A → Run Mem B) → (ℕ → Run Mem B) → Run Mem B → Type 0
Ends (done a) f g r = r ≡ f a
Ends (failed e) f g r = r ≡ g e

pub finish_lem :
    {A B : Type 0} (name arg : String) (value : A → B) (method : AsyncMethod) (job : ℕ) (m m' : Mem)
    (r : Sys A)
    → IsHeld method job m m'
    → Ends r
        (λ a. ok (value a) (record m' { live = m.live; mutexes = m.mutexes }))
        (λ e. raised (unix_error e name arg) (record m' { live = m.live; mutexes = m.mutexes }))
        (finish name arg value job r m')
unfolding finish check_job
finish_lem name arg value method job m m' (done a) h =
    free_job_then method job m m' (pure (value a)) h refl
finish_lem name arg value method job m m' (failed e) h =
    bind_raised (free_job job >>= λ _. raise (unix_error e name arg)) _ m'
      (free_job_then method job m m' (raise (unix_error e name arg)) h refl)

-- A job whose result is `finish`.
pub life-finish :
    {J A B : Type 0} (name arg : String) (value : A → B) (outcome : J → Sys A) (alloc : ℕ → M Mem J)
    (worker : J → M Mem J) (method : AsyncMethod) (m : Mem) {j j' : J}
    {strings bigarrays : ℕ → List ℕ}
    → alloc m.fresh (allocated m) ≡ ok j (allocated m)
    → worker j (prepared method m.fresh (allocated m))
      ≡ ok j' (record (prepared method m.fresh (allocated m)) {
        strings = strings;
        bigarrays = bigarrays;
      })
    → Ends
        (outcome j')
        (λ a. ok (value a) (record (ended method m) { strings = strings; bigarrays = bigarrays }))
        (λ e.
          raised
            (unix_error e name arg)
            (record (ended method m) { strings = strings; bigarrays = bigarrays }))
        (life alloc worker (λ job j. finish name arg value job (outcome j)) method m)
life-finish name arg value outcome alloc worker method m {j} {j'} {strings} {bigarrays} e f =
    subst (Ends (outcome j') _ _) (sym (life_lem alloc worker _ method m e f refl)) (
      finish_lem name arg value method m.fresh m _ (outcome j')
        (held method m m.roots strings bigarrays))

-- A worker that faults.
pub life-fault :
    {J A : Type 0} (alloc : ℕ → M Mem J) (worker : J → M Mem J) (result : ℕ → J → M Mem A)
    (method : AsyncMethod) (m : Mem) {j : J} {m1 : Mem}
    → alloc m.fresh (allocated m) ≡ ok j m1
    → worker j (prepared method m.fresh m1) ≡ fault
    → life alloc worker result method m ≡ fault
unfolding life malloc
life-fault alloc worker result method m {j} {m1} e f = bind_ok (alloc m.fresh) _ (allocated m) e (
    bind_ok (prepare_job m.fresh method) _ m1 (prepare_job_lem m.fresh method m1)
      (bind_fault (worker j) (result m.fresh) (prepared method m.fresh m1) f))

-- A job that `lwt_unix_run_job_sync` runs does what it does when it is started with the method NONE.
run_job_sync-life :
    {J A : Type 0} (alloc : ℕ → M Mem J) (worker : J → M Mem J) (result : ℕ → J → M Mem A) (m : Mem)
    → life alloc worker result synchronous m
      ≡ (malloc >>= λ job. alloc job >>= λ j. run_job_sync worker result job j) m
unfolding life prepare_job run_job_sync malloc
run_job_sync-life alloc worker result m = refl
