-- ===== src/Jobs/Examples.antt =====
-- Tests of the jobs, and their theorems at concrete calls.
use lwt_old.Base.{ℕ, suc, ◌≤◌, ◌≡◌, refl, List, [], ◌∷◌, length, take, update, arith}
use lwt_old.Base.Outcome.{done, failed, ok}
use lwt_old.Jobs.{Mem, synchronous, detach}
use lwt_old.Jobs.Balance.{ended}
use lwt_old.Jobs.ReadWrite
use lwt_old.Jobs.ReadWrite.{read_job, bytes_read_job, write_job, bytes_write_job}
use lwt_old.Jobs.ReadWrite.Laws.{read_job-Ends}
use lwt_old.Jobs.Directory
use lwt_old.Jobs.Directory.{Answer, entry, end, readdir_job, closedir_job, readlink_job}
use lwt_old.Jobs.Directory.Links.{readlink_job-target}

abbrev memory : Mem
memory = record {
  live = 2 ∷ [];
  fresh = 7;
  mutexes = [];
  async_method = λ job. synchronous;
  roots = [];
  strings = λ s. 0 ∷ 0 ∷ 0 ∷ 0 ∷ [];
  bigarrays = λ b. 9 ∷ 8 ∷ 7 ∷ [];
}

-- The kernel stores two bytes of those asked for, and takes one.
abbrev kernel : ReadWrite.Kernel
kernel = record { read = λ fd len. done (take len (65 ∷ 66 ∷ [])); write = λ fd bytes. done 1 }

short : (bytes : List ℕ) → kernel.read 3 3 ≡ done bytes → length bytes ≤ 3
short bytes e = ground arith

read_job-Ends_example :
    read_job kernel 3 0 1 3 detach memory
    ≡ ok 2
        (record (ended detach memory) { strings = update memory.strings 0 (0 ∷ 65 ∷ 66 ∷ 0 ∷ []) })
read_job-Ends_example = read_job-Ends kernel detach memory 3 0 1 3 short (omega arith)

abbrev two_entries : ℕ → Answer
two_entries 0' = elim 0' [
  | suc (i → _) ↦ elim i [ suc (j → _) ↦ end | _ ↦ entry ".." ]
  | _ ↦ entry "."
]

abbrev target : List ℕ
target = 47 ∷ 116 ∷ 109 ∷ 112 ∷ []

abbrev directory : Directory.Kernel
directory = record {
  opendir = λ path. done 1;
  closedir = λ dir. failed 9;
  readdir_r = λ dir i. two_entries i;
  readlink = λ name n. done (take n target);
}

readlink_job-target_example :
    (a : ℕ) × (readlink_job directory 1 "link" detach memory
      ≡ ok target (record (ended detach memory) { fresh = a }))
readlink_job-target_example =
    readlink_job-target directory 0 "link" target detach memory (λ n. refl) (omega arith)
      (omega arith)
