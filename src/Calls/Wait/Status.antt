-- ===== src/Calls/Wait/Status.antt =====
-- The words of V7 for the ways in which a process ends or stops, and what becomes of them.
use lwt_old.Base.{ℕ, ◌+◌, ◌*◌, ◌<◌, ◌≡◌, refl, Bool, true, false, if◌then◌else◌, some, arith}
use lwt_old.Base.Int.{ℤ}
use lwt_old.Base.Outcome.{done, ok}
use lwt_old.Jobs.{Mem}
use lwt_old.Calls.{answer}
use lwt_old.Calls.Wait.{
  Kernel, Rusage, ProcessStatus, wexited, wsignaled, wstopped, wifexited, wexitstatus, wifstopped,
  wstopsig, wtermsig, alloc_process_status, waited, lwt_wait4,
}

-- A process has exited with a code, was killed by a signal, with a core file or without, or was
-- stopped by a signal.
pub data Change : Type 0 where
  exited : ℕ → Change
  killed : ℕ → Bool → Change
  stopped : ℕ → Change

-- The bounds of codes and signals.
abbrev pub IsInRange : Change → Type 0
IsInRange (exited code) = code < 256
IsInRange (killed n core) = (0 < n) × (n < 64)
IsInRange (stopped n) = n < 256

-- The word that the kernel stores.
abbrev pub word : Change → ℕ
word (exited code) = code * 256
word (killed n core) = n + (if core then 128 else 0)
word (stopped n) = n * 256 + 255

module _ (kernel : Kernel) where
  open kernel use {Time, time, rev_convert, wait4}

  abbrev pub status_of : Change → ProcessStatus
  status_of (exited code) = wexited code
  status_of (killed n core) = wsignaled (rev_convert n)
  status_of (stopped n) = wstopped (rev_convert n)

  alloc_process_status-word :
      (c : Change) → IsInRange c → alloc_process_status kernel (word c) ≡ status_of c
  unfolding alloc_process_status wifexited wexitstatus wifstopped wstopsig wtermsig
  alloc_process_status-word (exited code) h = ground arith
  alloc_process_status-word (killed n true) h = ground arith
  alloc_process_status-word (killed n false) h = ground arith
  alloc_process_status-word (stopped n) h = ground arith

  -- With the words of V7, for a child that has exited with a code below 256, was killed by a signal
  -- from 1 to 63, with a core file or without, or was stopped by a signal below 256: where the
  -- kernel tells so, wait4 returns the number of the child, which of these it was with the code or
  -- the converted signal, and the converted times.
  pub wait4-word :
      (c : Change) (flags : ℕ) (pid_req : ℤ) (pid : ℕ) (ru : Rusage) (m : Mem)
      → IsInRange c
      → wait4 pid_req flags ≡ done (some (pid, word c, ru))
      → lwt_wait4 kernel flags pid_req m
        ≡ ok
            (pid, status_of c, (time ru.utime_sec ru.utime_usec, time ru.stime_sec ru.stime_usec))
            m
  unfolding lwt_wait4 waited answer
  wait4-word c flags pid_req pid ru m h e = rw (e, answer) (rw (alloc_process_status-word c h) refl)
