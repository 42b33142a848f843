-- ===== src/Jobs/Open/Laws.antt =====
-- What the jobs open and guess_blocking return.
use Prim.Native.String.{String}
use lwt_old.Base.{ℕ, ◌≡◌, refl, Bool}
use lwt_old.Base.Outcome.{Sys, done, failed, ok, raised, unix_error, pure}
use lwt_old.Jobs.{Mem, AsyncMethod}
use lwt_old.Jobs.Balance.{ended, held, free_job_then, life_lem, Ends, finish_lem}
use lwt_old.Jobs.Open.{
  Kernel, JobOpen, is_blocking, worker_open, result_open, open_job, guess_blocking_job,
  result_guess_blocking,
}

module _ (kernel : Kernel) (method : AsyncMethod) (m : Mem) where
  open kernel use {open_file, fstat}

  abbrev job_of : String → ℕ → ℕ → Sys ℕ → Bool → JobOpen
  job_of name flags perms fd blocking = record {
    flags = flags;
    perms = perms;
    name = name;
    fd = fd;
    blocking = blocking;
  }

  open_at :
      (name : String) (flags perms : ℕ) (answer : Sys ℕ)
      → open_file name flags perms ≡ answer
      → Ends answer
          (λ fd. ok (fd, is_blocking (fstat fd)) (ended method m))
          (λ e. raised (unix_error e "open" name) (ended method m))
          (open_job kernel name flags perms method m)
  unfolding open_job worker_open result_open
  open_at name flags perms (done fd) h =
      life_lem _ _ _ method m {j' = job_of name flags perms (done fd) (is_blocking (fstat fd))} refl
        (rw (h, worker_open) refl)
        (finish_lem "open" name (λ x. (x, is_blocking (fstat fd))) method m.fresh m _ (done fd)
          (held method m m.roots m.strings m.bigarrays))
  open_at name flags perms (failed e) h =
      life_lem _ _ _ method m {j' = job_of name flags perms (failed e) Bool.false} refl
        (rw (h, worker_open) refl)
        (finish_lem "open" name (λ fd. (fd, Bool.false)) method m.fresh m _ (failed e)
          (held method m m.roots m.strings m.bigarrays))

  guess_lem :
      (fd : ℕ)
      → guess_blocking_job kernel fd method m ≡ ok (is_blocking (fstat fd)) (ended method m)
  unfolding guess_blocking_job result_guess_blocking
  guess_lem fd = life_lem _ _ _ method m refl refl (
      free_job_then method m.fresh m _ (pure (is_blocking (fstat fd)))
        (held method m m.roots m.strings m.bigarrays) refl)

  -- The job open returns the descriptor that the kernel gives, and whether it is blocking, or
  -- raises the kernel's error with the name of the file. The job guess_blocking finds the same for
  -- a descriptor: it is blocking unless it is a FIFO or a socket. Both free their block and their
  -- mutex.
  open_job-guess_blocking_job :
      (name : String) (flags perms fd : ℕ)
      → Ends
          (open_file name flags perms)
          (λ fd. ok (fd, is_blocking (fstat fd)) (ended method m))
          (λ e. raised (unix_error e "open" name) (ended method m))
          (open_job kernel name flags perms method m)
        × (guess_blocking_job kernel fd method m ≡ ok (is_blocking (fstat fd)) (ended method m))
  open_job-guess_blocking_job name flags perms fd =
      (open_at name flags perms (open_file name flags perms) refl, guess_lem fd)
