-- ===== src/Calls/Wait/Examples.antt =====
-- The theorem on wait4 at a child that was killed.
use lwt_old.Base.{ℕ, ◌+◌, ◌*◌, ◌≡◌, refl, true, [], some, arith}
use lwt_old.Base.Int.{negsuc}
use lwt_old.Base.Outcome.{done, ok}
use lwt_old.Jobs.{Mem, synchronous}
use lwt_old.Calls.Wait.{Kernel, Rusage, wsignaled, lwt_wait4}
use lwt_old.Calls.Wait.Status.{killed, word, wait4-word}

abbrev memory : Mem
memory = record {
  live = [];
  fresh = 3;
  mutexes = [];
  async_method = λ job. synchronous;
  roots = [];
  strings = λ s. [];
  bigarrays = λ b. [];
}

abbrev times : Rusage
times = record { utime_sec = 1; utime_usec = 5; stime_sec = 0; stime_usec = 7 }

-- Times are numbers of microseconds. The signal 11 dumped a core.
abbrev kernel : Kernel
kernel = record {
  Time = ℕ;
  time = λ sec usec. sec * 1000000 + usec;
  rev_convert = λ n. negsuc n;
  wait4 = λ pid flags. done (some (77, word (killed 11 true), times));
  junk = (0, times);
}

wait4-word_example :
    lwt_wait4 kernel 0 (negsuc 0) memory ≡ ok (77, wsignaled (negsuc 11), (1000005, 7)) memory
wait4-word_example =
    wait4-word kernel (killed 11 true) 0 (negsuc 0) 77 times memory (omega arith) refl
