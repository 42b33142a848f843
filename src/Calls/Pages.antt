-- ===== src/Calls/Pages.antt =====
-- src/unix/lwt_unix_unix.c: the calls on memory-mapped files, and the job wait_mincore.
pub mod Resident
use lwt_old.Base.{
  ℕ, zero, suc, ◌+◌, ◌%◌, ◌==◌, leb, Bool, true, false, if◌then◌else◌, List, [], ◌∷◌, ◌++◌, map,
  Option, none, some, length as measure, drop, get_or,
}
use lwt_old.Base.Outcome.{Sys, done, failed, M, ◌>>=◌, ◌>>◌, pure, gets, undefined}
use lwt_old.Jobs.{Mem, AsyncMethod, life, free_job}
use lwt_old.Calls.{answer}

-- MADV_NORMAL, MADV_RANDOM, MADV_SEQUENTIAL, MADV_WILLNEED and MADV_DONTNEED, as on Linux.
abbrev pub advise_table : List ℕ
advise_table = 0 ∷ 1 ∷ 2 ∷ 3 ∷ 4 ∷ []

-- The calls get a bigarray, an offset and a length. `mincore` stores a byte for each page.
-- `sysconf` gives the size of a page, or none.
pub record Kernel : Type 0 where
  pub madvise : ℕ → ℕ → ℕ → ℕ → Sys (Unit {0})
  pub mincore : ℕ → ℕ → ℕ → Sys (List ℕ)
  pub sysconf : Option ℕ

module _ (kernel : Kernel) where
  open kernel use {madvise, mincore, sysconf}

  pub lwt_madvise : ℕ → ℕ → ℕ → ℕ → M Mem (Unit {0})
  unfolding answer
  lwt_madvise buffer offset length advice =
      answer "madvise" (madvise buffer offset length (get_or advise_table advice 0)) pure

  pub get_page_size : M Mem ℕ
  get_page_size = elim sysconf [ none ↦ pure 4096 | some size ↦ pure size ]

  -- The array on the stack, whose cells are `vec` before the call. To store past its end is
  -- undefined. The answer of `mincore` is not looked at.
  pub filled : List ℕ → Sys (List ℕ) → Option (List ℕ)
  filled vec (failed e) = some vec
  filled vec (done pages) =
      if leb (measure pages) (measure vec) then some (pages ++ drop (measure pages) vec) else none

  -- The loop over `val_states`, of which there are as many as cells: the states afterwards.
  pub lwt_mincore : ℕ → ℕ → ℕ → List ℕ → M Mem (List Bool)
  unfolding filled
  lwt_mincore buffer offset length vec = elim (filled vec (mincore buffer offset length)) [
    | none ↦ undefined
    | some cells ↦ pure (map (λ cell. cell % 2 == 1) cells)
  ]

-- The byte is read, and the thread waits for its page.
pub worker_wait_mincore : ℕ × ℕ → M Mem (ℕ × ℕ)
worker_wait_mincore ptr = do
  bytes ← gets (λ m. m.bigarrays ptr.0)
  if leb (suc ptr.1) (measure bytes) then pure ptr else undefined

pub result_wait_mincore : ℕ → M Mem (Unit {0})
result_wait_mincore job = do free_job job; pure tt

pub wait_mincore_job : ℕ → ℕ → AsyncMethod → M Mem (Unit {0})
unfolding worker_wait_mincore result_wait_mincore
wait_mincore_job buffer offset =
    life (λ job. pure (buffer, offset)) worker_wait_mincore (λ job ptr. result_wait_mincore job)
