-- ===== src/Windows/Examples.antt =====
-- The theorem on read and write on Windows at concrete calls.
use lwt_old.Base.{ℕ, ◌+◌, ◌≤◌, ◌≡◌, List, [], ◌∷◌, length, take, arith}
use lwt_old.Base.Outcome.{done, failed}
use lwt_old.Jobs.{Mem, synchronous, detach}
use lwt_old.Jobs.ReadWrite
use lwt_old.Calls
use lwt_old.Windows.{
  FileDescr, Kernel, socket, receive, transmit, win_read, win_bytes_read, win_write,
  win_bytes_write, read_job, bytes_read_job, write_job, bytes_write_job,
}
use lwt_old.Windows.Jobs.{renamed, unix_jobs, unix_calls}
use lwt_old.Windows.Unix.{windows-unix}

abbrev memory : Mem
memory = record {
  live = [];
  fresh = 7;
  mutexes = [];
  async_method = λ job. synchronous;
  roots = [];
  strings = λ s. 0 ∷ 0 ∷ 0 ∷ 0 ∷ [];
  bigarrays = λ b. 9 ∷ 8 ∷ 7 ∷ [];
}

-- A socket gets two bytes and is closed for writing, with the error number 10058.
abbrev kernel : Kernel
kernel = record {
  recv = λ fd n. done (take n (65 ∷ 66 ∷ []));
  send = λ fd bytes. failed 10058;
  read_file = λ fd n. failed 6;
  write_file = λ fd bytes. done (length bytes);
  maperr = λ e. e + 1000;
}

abbrev peer : FileDescr
peer = record { kind = socket; fd = 3 }

short : (bytes : List ℕ) → receive kernel peer 2 ≡ done bytes → length bytes ≤ 2
unfolding receive
short bytes e = ground arith

windows-unix_example :
    (read_job kernel peer 0 1 2 detach memory
      ≡ ReadWrite.read_job (unix_jobs kernel peer) 0 0 1 2 detach memory)
    × (write_job kernel peer 0 1 2 detach memory
        ≡ renamed "write" (ReadWrite.write_job (unix_jobs kernel peer) 0 0 1 2 detach memory))
    × (bytes_read_job kernel peer 0 1 2 detach memory
        ≡ renamed "bytes_read"
            (ReadWrite.bytes_read_job (unix_jobs kernel peer) 0 0 1 2 detach memory))
    × (bytes_write_job kernel peer 0 1 2 detach memory
        ≡ renamed "bytes_write"
            (ReadWrite.bytes_write_job (unix_jobs kernel peer) 0 0 1 2 detach memory))
    × (win_read kernel peer 0 1 2 memory
        ≡ renamed "write" (Calls.lwt_read (unix_calls kernel peer) 0 0 1 2 memory))
    × (win_bytes_read kernel peer 0 1 2 memory
        ≡ renamed "write" (Calls.bytes_read (unix_calls kernel peer) 0 0 1 2 memory))
    × (win_write kernel peer 0 1 2 memory ≡ Calls.lwt_write (unix_calls kernel peer) 0 0 1 2 memory)
    × (win_bytes_write kernel peer 0 1 2 memory
        ≡ Calls.bytes_write (unix_calls kernel peer) 0 0 1 2 memory)
unfolding receive transmit
windows-unix_example =
    windows-unix kernel peer detach memory 0 1 2 (omega arith) (omega arith) (omega arith)
      (omega arith) (omega arith) tt short (λ bytes. λ e. absurd (omega (arith, e)))
