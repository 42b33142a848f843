-- ===== src/Jobs.antt =====
-- What the jobs of src/unix/lwt_unix_unix.c share: memory, the macros of src/unix/lwt_unix.h that
-- allocate a job and check its result, `lwt_unix_free_job` and `lwt_unix_run_job_sync` of
-- src/unix/lwt_unix_stubs.c, and the life of a job from its allocation to its result.
pub mod Balance
pub mod ReadWrite
pub mod Directory
pub mod Netdb
pub mod Stat
pub mod Open
pub mod Lock
pub mod Accounts
pub mod Addresses
mod Examples
mod LookupExamples
use Prim.Native.String.{String}
use lwt_old.Base.{
  ℕ, suc, ◌+◌, ◌-◌, ◌≡◌, Bool, true, false, List, [], ◌∷◌, ◌++◌, update, ltb, leb, ◌==◌,
  if◌then◌else◌, take, drop, length, Option, none, some,
}
use lwt_old.Base.Outcome.{
  Sys, done, failed, Run, ok, raised, fault, unix_error, M, ◌>>=◌, ◌>>◌, pure, raise, gets, modify,
  undefined,
}

pub data AsyncMethod : Type 0 where
  synchronous detach switch : AsyncMethod

-- The addresses of the blocks that were allocated and are not freed; the jobs with an initialized
-- mutex; the field `async_method` of each job; the registered roots, by their jobs; and the
-- contents of the OCaml strings and of the bigarrays, by reference.
pub record Mem : Type 0 where
  pub live : List ℕ
  pub fresh : ℕ
  pub mutexes : List ℕ
  pub async_method : ℕ → AsyncMethod
  pub roots : List ℕ
  pub strings : ℕ → List ℕ
  pub bigarrays : ℕ → List ℕ

unfoldable pub mem : ℕ → List ℕ → Bool
mem a [] = false
mem a (x ∷ xs) = if x == a then true else mem a xs

unfoldable pub remove : ℕ → List ℕ → List ℕ
remove a [] = []
remove a (x ∷ xs) = if x == a then xs else x ∷ remove a xs

-- `lwt_unix_malloc`: it aborts the program where there is no memory, so it returns a block.
unfoldable pub malloc : M Mem ℕ
malloc m = ok m.fresh (record m { live = m.fresh ∷ m.live; fresh = suc m.fresh })

-- A second `free` of a block is undefined.
unfoldable pub free : ℕ → M Mem (Unit {0})
unfolding mem remove
free a m = if mem a m.live then ok tt (record m { live = remove a m.live }) else fault

pub mutex_init : ℕ → M Mem (Unit {0})
mutex_init job m = ok tt (record m { mutexes = job ∷ m.mutexes })

unfoldable pub mutex_destroy : ℕ → M Mem (Unit {0})
unfolding mem remove
mutex_destroy job m =
    if mem job m.mutexes then ok tt (record m { mutexes = remove job m.mutexes }) else fault

unfoldable pub register_root : ℕ → M Mem (Unit {0})
register_root job m = ok tt (record m { roots = job ∷ m.roots })

pub remove_root : ℕ → M Mem (Unit {0})
unfolding mem remove
remove_root job m =
    if mem job m.roots then ok tt (record m { roots = remove job m.roots }) else fault

-- `lwt_unix_free_job`, by the job's field `async_method`.
unfoldable pub release_job : AsyncMethod → ℕ → M Mem (Unit {0})
release_job synchronous job = free job
release_job _ job = do mutex_destroy job; free job

unfoldable pub free_job : ℕ → M Mem (Unit {0})
unfolding release_job
free_job job m = release_job (m.async_method job) job m

-- What `lwt_unix_start_job` does to the memory of a job before its worker runs.
pub prepare_job : ℕ → AsyncMethod → M Mem (Unit {0})
prepare_job job method = do
  modify (λ m. record m { async_method = update m.async_method job method })
  elim method [ synchronous ↦ pure tt | _ ↦ mutex_init job ]

-- `LWT_UNIX_CHECK_JOB` and `LWT_UNIX_CHECK_JOB_ARG`; without a third argument it is the empty text.
unfoldable pub check_job : ℕ → Bool → ℕ → String → String → M Mem (Unit {0})
check_job job true error_code name arg = do free_job job; raise (unix_error error_code name arg)
check_job job false error_code name arg = pure tt

-- The commonest result: `LWT_UNIX_CHECK_JOB` on the kernel's answer, `lwt_unix_free_job`, and the
-- value. `finish` stands for the `result_` functions of this form.
unfoldable pub finish : {A B : Type 0} → String → String → (A → B) → ℕ → Sys A → M Mem B
finish name arg value job (failed e) = do check_job job true e name arg; undefined
finish name arg value job (done a) = do check_job job false 0 name arg; free_job job; pure (value a)

-- A job from its allocation to its result: the stub that allocates it at an address, the start,
-- the worker and the result.
pub life :
    {J A : Type 0} → (ℕ → M Mem J) → (J → M Mem J) → (ℕ → J → M Mem A) → AsyncMethod → M Mem A
life alloc worker result method = do
  job ← malloc
  j ← alloc job
  prepare_job job method
  j' ← worker j
  result job j'

-- `lwt_unix_run_job_sync` of the job at an address.
pub run_job_sync : {J A : Type 0} → (J → M Mem J) → (ℕ → J → M Mem A) → ℕ → J → M Mem A
run_job_sync worker result job j = do
  modify (λ m. record m { async_method = update m.async_method job synchronous })
  j' ← worker j
  result job j'

-- `n` bytes from `bytes` are stored from `ofs` on; an access out of bounds is undefined.
abbrev pub blit : List ℕ → ℕ → List ℕ → List ℕ
blit buf ofs bytes = take ofs buf ++ bytes ++ drop (ofs + length bytes) buf

pub memcpy_string : ℕ → ℕ → List ℕ → M Mem (Unit {0})
memcpy_string s ofs bytes m =
    if leb (ofs + length bytes) (length (m.strings s))
    then ok tt (record m { strings = update m.strings s (blit (m.strings s) ofs bytes) })
    else fault

pub store_bigarray : ℕ → ℕ → List ℕ → M Mem (Unit {0})
store_bigarray b ofs bytes m =
    if leb (ofs + length bytes) (length (m.bigarrays b))
    then ok tt (record m { bigarrays = update m.bigarrays b (blit (m.bigarrays b) ofs bytes) })
    else fault

-- `len` bytes of a buffer from `ofs` on.
abbrev pub slice : List ℕ → ℕ → ℕ → List ℕ
slice buf ofs len = take len (drop ofs buf)
