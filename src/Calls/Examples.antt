-- ===== src/Calls/Examples.antt =====
-- The theorems on direct calls at concrete calls.
use lwt_old.Base.{ℕ, ◌≤◌, ◌≡◌, refl, false, List, [], ◌∷◌, length, take, map, arith}
use lwt_old.Base.Outcome.{done, ok}
use lwt_old.Jobs.{Mem, synchronous, detach}
use lwt_old.Jobs.ReadWrite.{read_job, bytes_read_job, write_job, bytes_write_job}
use lwt_old.Calls
use lwt_old.Calls.{lwt_read, bytes_read, lwt_write, bytes_write}
use lwt_old.Calls.Same.{with_job, job_kernel, jobs-calls}
use lwt_old.Calls.Message
use lwt_old.Calls.Message.{
  in_string, in_bigarray, IoVec, Cmsg, send_msg, recv_msg, bytes_send_msg, bytes_recv_msg,
}
use lwt_old.Calls.Message.Scatter.{vector_of, Filled}
use lwt_old.Calls.Message.Rights.{recv_msg-send_msg}
use lwt_old.Calls.Affinity
use lwt_old.Calls.Affinity.{cpu_set}

abbrev memory : Mem
memory = record {
  live = [];
  fresh = 3;
  mutexes = [];
  async_method = λ job. synchronous;
  roots = [];
  strings = λ s. 0 ∷ 0 ∷ 0 ∷ [];
  bigarrays = λ b. 9 ∷ 8 ∷ 7 ∷ [];
}

abbrev calls : Calls.Kernel
calls = record {
  read = λ fd len. done (take len (65 ∷ 66 ∷ []));
  write = λ fd bytes. done 1;
  recv = λ fd len flags. done [];
  send = λ fd bytes flags. done 0;
}

short : (bytes : List ℕ) → calls.read 3 2 ≡ done bytes → length bytes ≤ 2
short bytes e = ground arith

jobs-calls_example :
    (read_job (job_kernel calls) 3 0 1 2 detach memory
      ≡ with_job detach (lwt_read calls 3 0 1 2 memory))
    × (bytes_read_job (job_kernel calls) 3 0 1 2 detach memory
        ≡ with_job detach (bytes_read calls 3 0 1 2 memory))
    × (write_job (job_kernel calls) 3 0 1 2 detach memory
        ≡ with_job detach (lwt_write calls 3 0 1 2 memory))
    × (bytes_write_job (job_kernel calls) 3 0 1 2 detach memory
        ≡ with_job detach (bytes_write calls 3 0 1 2 memory))
jobs-calls_example = jobs-calls calls detach memory 3 0 1 2 short (omega arith) (omega arith)

abbrev rights : Cmsg
rights = record { level = 1; kind = 1; fds = 4 ∷ 7 ∷ [] }

abbrev credentials : Cmsg
credentials = record { level = 1; kind = 2; fds = 0 ∷ [] }

abbrev messages : Message.Kernel
messages = record {
  recvmsg = λ fd iovs. done (65 ∷ 66 ∷ [], credentials ∷ rights ∷ []);
  sendmsg = λ fd iovs msgs. done 1;
}

abbrev vectors : List IoVec
vectors =
    record { buffer = 0; offset = 1; len = 1 } ∷ record { buffer = 1; offset = 0; len = 2 } ∷ []

recv_msg-send_msg_example :
    (send_msg messages 5 2 vectors 2 (4 ∷ 7 ∷ []) memory ≡ ok 1 memory)
    × (bytes_send_msg messages 5 2 vectors 2 (4 ∷ 7 ∷ []) memory ≡ ok 1 memory)
    × ((m' : Mem) × (recv_msg messages 6 2 vectors memory ≡ ok (2, 4 ∷ 7 ∷ []) m')
        × Filled (map (vector_of in_string) vectors) (65 ∷ 66 ∷ []) memory m')
    × ((m' : Mem) × (bytes_recv_msg messages 6 2 vectors memory ≡ ok (2, 4 ∷ 7 ∷ []) m')
        × Filled (map (vector_of in_bigarray) vectors) (65 ∷ 66 ∷ []) memory m')
recv_msg-send_msg_example =
    recv_msg-send_msg messages messages memory 5 6 4 (7 ∷ []) vectors vectors (credentials ∷ []) []
      1 1 (65 ∷ 66 ∷ []) (65 ∷ 66 ∷ []) refl refl refl refl (refl, tt)
      (omega arith, (omega arith, tt)) (omega arith, (omega arith, tt)) (omega arith) (omega arith)

abbrev processors : Affinity.Kernel
processors = record {
  bits = 4;
  sched_getaffinity = λ pid. done (cpu_set 4 (9 ∷ 2 ∷ 0 ∷ []) (λ i. false));
  sched_setaffinity = λ pid cpus. done tt;
}
