-- ===== src/Jobs/Lock.antt =====
-- src/unix/lwt_unix_unix.c, the job lockf, where the system has record locks by `fcntl`.
pub mod Laws
use lwt_old.Base.{ℕ, zero, suc}
use lwt_old.Base.Int.{ℤ, pos, negsuc}
use lwt_old.Base.Outcome.{Sys, done, failed, M, pure}
use lwt_old.Jobs.{Mem, AsyncMethod, life, finish}

pub data LockType : Type 0 where
  f_unlck f_rdlck f_wrlck : LockType

-- `F_SETLK`, `F_SETLKW` and `F_GETLK`.
pub data Command : Type 0 where
  f_setlk f_setlkw f_getlk : Command

-- `struct flock`; `l_whence` is 1, so the start counts from the position in the file.
pub record Flock : Type 0 where
  pub l_type : LockType
  pub l_start : ℤ
  pub l_len : ℤ

-- `fcntl` gives the type that it leaves in the struct. `unset` is what the memory of a new job
-- holds in its field `error_code`.
pub record Kernel : Type 0 where
  pub fcntl : ℕ → Command → Flock → Sys LockType
  pub unset : ℕ

pub start_of : ℤ → ℤ
start_of (pos n) = pos 0
start_of (negsuc n) = negsuc n

pub length_of : ℤ → ℤ
length_of (pos n) = pos n
length_of (negsuc n) = pos (suc n)

-- `job->result` and `job->error_code` after a call whose answer is not looked at.
pub result_of : Sys LockType → Sys (Unit {0})
result_of (done l) = done tt
result_of (failed e) = failed e

-- F_TEST, with EACCES; the branch does not set the error number if `fcntl` fails.
pub tested : ℕ → Sys LockType → Sys (Unit {0})
tested unset (failed e) = failed unset
tested unset (done f_unlck) = done tt
tested unset (done l) = failed 13

module _ (kernel : Kernel) where
  open kernel use {fcntl, unset}

  -- F_ULOCK, F_LOCK, F_TLOCK, F_TEST, F_RLOCK and F_TRLOCK are 0 to 5; EINVAL is 22.
  pub worker_lockf : ℕ → ℕ → ℤ → Sys (Unit {0})
  unfolding start_of length_of result_of tested
  worker_lockf fd command length =
      let lock : LockType → Flock =
        λ t. record { l_type = t; l_start = start_of length; l_len = length_of length } in
      elim command [
        | zero ↦ result_of (fcntl fd f_setlk (lock f_unlck))
        | suc (zero) ↦ result_of (fcntl fd f_setlkw (lock f_wrlck))
        | suc (suc (zero)) ↦ result_of (fcntl fd f_setlk (lock f_wrlck))
        | suc (suc (suc (zero))) ↦ tested unset (fcntl fd f_getlk (lock f_wrlck))
        | suc (suc (suc (suc (zero)))) ↦ result_of (fcntl fd f_setlkw (lock f_rdlck))
        | suc (suc (suc (suc (suc (zero))))) ↦ result_of (fcntl fd f_setlk (lock f_rdlck))
        | _ ↦ failed 22
      ]

  pub result_lockf : ℕ → Sys (Unit {0}) → M Mem (Unit {0})
  result_lockf job outcome = finish "lockf" "" (λ u. u) job outcome

  pub lockf_job : ℕ → ℕ → ℤ → AsyncMethod → M Mem (Unit {0})
  unfolding worker_lockf result_lockf
  lockf_job fd command length =
      life (λ job. pure (failed unset)) (λ j. pure (worker_lockf fd command length)) result_lockf
