-- ===== src/Windows/Process/Examples.antt =====
-- The theorem on processes at a process that ends with the code 3.
use lwt_old.Base.{[], ◌∷◌, ◌+◌, some, none}
use lwt_old.Base.Outcome.{done, failed, ◌>>=◌}
use lwt_old.Jobs.{synchronous, detach}
use lwt_old.Windows.Process.{Machine, Kernel, lwt_process_create_process, wait_job, system_job}
use lwt_old.Windows.Process.Laws.{file, Exits, process-Exits}

abbrev machine : Machine
machine = record {
  mem = record {
    live = [];
    fresh = 7;
    mutexes = [];
    async_method = λ job. synchronous;
    roots = [];
    strings = λ s. [];
    bigarrays = λ b. [];
  };
  handles = 4 ∷ [];
  ended = [];
  fresh_handle = 9;
}

abbrev kernel : Kernel
kernel = record {
  create_process = λ prog cmdline env si. done 1234;
  exit_code = λ h. done 3;
  terminate_process = λ h code. failed 5;
  flush_file_buffers = λ h. done tt;
  invalid_handle = 6;
  maperr = λ e. e + 1000;
  word = 32;
}

process-Exits_example :
    Exits kernel detach machine (done 1234) (done 3) (system_job kernel "sort" detach machine)
    × Exits kernel detach machine (done 1234) (done 3) (
        (lwt_process_create_process kernel none "sort" none (file (some 4)) (file none) (file none)
            >>= λ p. wait_job kernel p.1 detach)
          machine)
process-Exits_example = process-Exits kernel detach machine none "sort" none (some 4) none none
