-- ===== src/Jobs/Open.antt =====
-- src/unix/lwt_unix_unix.c, the jobs open and guess_blocking.
pub mod Laws
use Prim.Native.String.{String}
use lwt_old.Base.{ℕ, ◌/◌, ◌%◌, Bool, true, false, not, ◌||◌, ◌==◌}
use lwt_old.Base.Outcome.{Sys, done, failed, M, ◌>>=◌, ◌>>◌, pure}
use lwt_old.Jobs.{Mem, AsyncMethod, free_job, life, finish}

-- `fstat` gives the field `st_mode`.
pub record Kernel : Type 0 where
  pub open_file : String → ℕ → ℕ → Sys ℕ
  pub fstat : ℕ → Sys ℕ

-- The fields `fd` and `error_code`, and `blocking`.
pub record JobOpen : Type 0 where
  pub flags : ℕ
  pub perms : ℕ
  pub name : String
  pub fd : Sys ℕ
  pub blocking : Bool

-- `S_ISFIFO` and `S_ISSOCK`, with the values of Linux.
unfoldable pub is_fifo_or_sock : ℕ → Bool
is_fifo_or_sock mode = mode / 4096 % 16 == 1 || mode / 4096 % 16 == 12

-- What `fstat` says of a descriptor: one of which it says nothing is blocking.
unfoldable pub is_blocking : Sys ℕ → Bool
unfolding is_fifo_or_sock
is_blocking (done mode) = not (is_fifo_or_sock mode)
is_blocking (failed e) = true

module _ (kernel : Kernel) where
  open kernel use {open_file, fstat}

  pub worker_open : JobOpen → M Mem JobOpen
  unfolding is_blocking
  worker_open j = elim (open_file j.name j.flags j.perms) [
    | done fd ↦ pure (record j { fd = done fd; blocking = is_blocking (fstat fd) })
    | failed e ↦ pure (record j { fd = failed e })
  ]

  pub result_open : ℕ → JobOpen → M Mem (ℕ × Bool)
  result_open job j = finish "open" j.name (λ fd. (fd, j.blocking)) job j.fd

  pub open_job : String → ℕ → ℕ → AsyncMethod → M Mem (ℕ × Bool)
  unfolding worker_open result_open
  open_job name flags perms =
      life
        (λ job.
          pure
            (record { flags = flags; perms = perms; name = name; fd = failed 0; blocking = false }))
        worker_open result_open

  pub result_guess_blocking : ℕ → Bool → M Mem Bool
  result_guess_blocking job answer = do free_job job; pure answer

  pub guess_blocking_job : ℕ → AsyncMethod → M Mem Bool
  unfolding result_guess_blocking is_blocking
  guess_blocking_job fd =
      life (λ job. pure false) (λ j. pure (is_blocking (fstat fd))) result_guess_blocking
