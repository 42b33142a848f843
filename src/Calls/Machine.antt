-- ===== src/Calls/Machine.antt =====
-- src/unix/lwt_unix_unix.c: readable, writable, get_credentials and get_cpu, and src/text/lwt_text_stubs.c:
-- the size of a terminal.
use lwt_old.Base.{ℕ, ◌/◌, ◌%◌, ◌==◌, Bool}
use lwt_old.Base.Int.{ℤ, pos, negsuc}
use lwt_old.Base.Outcome.{Sys, M, pure}
use lwt_old.Jobs.{Mem}
use lwt_old.Calls.{answer}

-- `poll` gets one descriptor and the events to look for, with the timeout 0, and gives the field
-- `revents`. `getsockopt` gives the credentials of the peer, where the system has them, and
-- `getpeereid` two of them elsewhere. `ioctl` gives the fields `ws_row` and `ws_col`.
pub record Kernel : Type 0 where
  pub poll : ℕ → ℕ → Sys ℕ
  pub getsockopt : ℕ → Sys (ℕ × ℕ × ℕ)
  pub getpeereid : ℕ → Sys (ℕ × ℕ)
  pub sched_getcpu : Sys ℕ
  pub ioctl : ℕ → Sys (ℕ × ℕ)

module _ (kernel : Kernel) where
  open kernel use {poll, getsockopt, getpeereid, sched_getcpu, ioctl}

  -- POLLIN and POLLOUT are 1 and 4.
  pub lwt_readable : ℕ → M Mem Bool
  unfolding answer
  lwt_readable fd = answer "readable" (poll fd 1) (λ revents. pure (revents % 2 == 1))

  -- The error is named "readable" as well.
  pub lwt_writable : ℕ → M Mem Bool
  unfolding answer
  lwt_writable fd = answer "readable" (poll fd 4) (λ revents. pure ((revents / 4) % 2 == 1))

  pub get_credentials : ℕ → M Mem (ℤ × ℤ × ℤ)
  unfolding answer
  get_credentials fd =
      answer "get_credentials" (getsockopt fd) (λ cred. pure (pos cred.0, pos cred.1, pos cred.2))

  -- Without the number of the process, which is -1.
  pub get_credentials_by_id : ℕ → M Mem (ℤ × ℤ × ℤ)
  unfolding answer
  get_credentials_by_id fd =
      answer "get_credentials" (getpeereid fd) (λ cred. pure (negsuc 0, pos cred.0, pos cred.1))

  pub get_cpu : M Mem ℕ
  unfolding answer
  get_cpu = answer "sched_getcpu" sched_getcpu pure

  -- The rows and the columns.
  pub term_size : ℕ → M Mem (ℕ × ℕ)
  unfolding answer
  term_size fd = answer "ioctl" (ioctl fd) pure
