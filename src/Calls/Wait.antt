-- ===== src/Calls/Wait.antt =====
-- src/unix/lwt_unix_unix.c: `alloc_process_status`, with the words of V7 that the file falls back to,
-- and `lwt_unix_wait4`.
pub mod Status
mod Examples
use lwt_old.Base.{ℕ, ◌+◌, ◌/◌, ◌%◌, ◌==◌, Bool, if◌then◌else◌, Option, none, some, List}
use lwt_old.Base.Int.{ℤ}
use lwt_old.Base.Outcome.{Sys, done, failed, M, ◌>>=◌, pure}
use lwt_old.Jobs.{Mem}
use lwt_old.Calls.{answer}

pub wifexited : ℕ → Bool
wifexited status = status % 256 == 0

pub wexitstatus : ℕ → ℕ
wexitstatus status = (status / 256) % 256

pub wifstopped : ℕ → Bool
wifstopped status = status % 256 == 255

pub wstopsig : ℕ → ℕ
wstopsig status = (status / 256) % 256

-- `status & 0x3F`
pub wtermsig : ℕ → ℕ
wtermsig status = status % 64

pub data ProcessStatus : Type 0 where
  wexited : ℕ → ProcessStatus
  wsignaled : ℤ → ProcessStatus
  wstopped : ℤ → ProcessStatus

-- The times that a process has used, in seconds and microseconds.
pub record Rusage : Type 0 where
  pub utime_sec : ℕ
  pub utime_usec : ℕ
  pub stime_sec : ℕ
  pub stime_usec : ℕ

-- `rev_convert` is `caml_rev_convert_signal_number`. `wait4` gives the number of the process, its
-- status and its times, or no process, and then it stores nothing and the variables hold `junk`;
-- the flags are a number. A time becomes a floating-point number by `time`.
pub record Kernel : Type 1 where
  pub Time : Type 0
  pub time : ℕ → ℕ → Time
  pub rev_convert : ℕ → ℤ
  pub wait4 : ℤ → ℕ → Sys (Option (ℕ × ℕ × Rusage))
  pub junk : ℕ × Rusage

module _ (kernel : Kernel) where
  open kernel use {Time, time, rev_convert, wait4, junk}

  pub alloc_process_status : ℕ → ProcessStatus
  unfolding wifexited wexitstatus wifstopped wstopsig wtermsig
  alloc_process_status status =
      if wifexited status
      then wexited (wexitstatus status)
      else if wifstopped status
      then wstopped (rev_convert (wstopsig status))
      else wsignaled (rev_convert (wtermsig status))

  -- The number of the process, 0 for none; its status; the times of the user and of the system.
  pub waited : Option (ℕ × ℕ × Rusage) → ℕ × ProcessStatus × (Time × Time)
  unfolding alloc_process_status
  waited none = (
    0,
    alloc_process_status junk.0,
    (time junk.1.utime_sec junk.1.utime_usec, time junk.1.stime_sec junk.1.stime_usec),
  )
  waited (some (pid, status, ru)) = (
    pid,
    alloc_process_status status,
    (time ru.utime_sec ru.utime_usec, time ru.stime_sec ru.stime_usec),
  )

  pub lwt_wait4 : ℕ → ℤ → M Mem (ℕ × ProcessStatus × (Time × Time))
  unfolding waited answer
  lwt_wait4 flags pid_req = answer "wait4" (wait4 pid_req flags) (λ w. pure (waited w))
