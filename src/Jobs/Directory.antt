-- ===== src/Jobs/Directory.antt =====
-- src/unix/lwt_unix_unix.c, the jobs on directories and links: opendir, closedir, readdir,
-- readdir_n and readlink.
mod Blocks
pub mod Listing
pub mod Links
use Prim.Native.String.{String}
use lwt_old.Base.{
  ℕ, zero, suc, ◌*◌, List, [], ◌∷◌, ◌++◌, map, length, true, ltb, if◌then◌else◌, Option, none, some,
}
use lwt_old.Base.Outcome.{
  Sys, done, failed, unix_error, end_of_file, M, ◌>>=◌, ◌>>◌, pure, raise, undefined,
}
use lwt_old.Jobs.{Mem, AsyncMethod, malloc, free, free_job, check_job, finish, life}

-- What a call of `readdir_r` gives: a name, the end of the directory, or an error.
pub data Answer : Type 0 where
  entry : String → Answer
  end : Answer
  error : ℕ → Answer

-- `readdir_r dir i` is the answer of the i-th call that a worker makes, counted from 0. `readlink`
-- gives the bytes that it stored in a buffer of this size.
pub record Kernel : Type 0 where
  pub opendir : String → Sys ℕ
  pub closedir : ℕ → Sys (Unit {0})
  pub readdir_r : ℕ → ℕ → Answer
  pub readlink : String → ℕ → Sys (List ℕ)

pub record JobOpendir : Type 0 where
  pub path : String
  pub outcome : Sys ℕ

pub record JobClosedir : Type 0 where
  pub dir : ℕ
  pub outcome : Sys (Unit {0})

-- `buffer` is the address of the block that the field `entry` points to.
pub record JobReaddir : Type 0 where
  pub dir : ℕ
  pub buffer : ℕ
  pub answer : Answer

-- The entries with the addresses of their blocks, in the order of reading.
pub record JobReaddirN : Type 0 where
  pub dir : ℕ
  pub count : ℕ
  pub entries : Sys (List (ℕ × String))

pub record JobReadlink : Type 0 where
  pub name : String
  pub outcome : Sys (ℕ × List ℕ)

-- `free` of each entry, oldest first.
pub free_all : List (ℕ × String) → M Mem (Unit {0})
free_all [] = pure tt
free_all ((block, name) ∷ entries) = do free block; free_all entries

-- What `caml_copy_string` takes from a buffer: the bytes before the first that is 0.
pub c_string : List ℕ → List ℕ
c_string [] = []
c_string (zero ∷ bytes) = []
c_string (suc c ∷ bytes) = suc c ∷ c_string bytes

module _ (kernel : Kernel) where
  open kernel use {opendir, closedir, readdir_r, readlink}

  pub worker_opendir : JobOpendir → M Mem JobOpendir
  worker_opendir j = pure (record j { outcome = opendir j.path })

  pub result_opendir : ℕ → JobOpendir → M Mem ℕ
  result_opendir job j = finish "opendir" j.path (λ dir. dir) job j.outcome

  pub opendir_job : String → AsyncMethod → M Mem ℕ
  unfolding worker_opendir result_opendir
  opendir_job path =
      life (λ job. pure (record { path = path; outcome = failed 0 })) worker_opendir result_opendir

  pub worker_closedir : JobClosedir → M Mem JobClosedir
  worker_closedir j = pure (record j { outcome = closedir j.dir })

  abbrev pub error_code : {A : Type 0} → Sys A → ℕ
  error_code (done a) = 0
  error_code (failed e) = e

  -- The test is `job->dir < 0`, on the address of the directory.
  pub result_closedir : ℕ → JobClosedir → M Mem (Unit {0})
  result_closedir job j = do
    check_job job (ltb j.dir 0) (error_code j.outcome) "closedir" ""
    free_job job
    pure tt

  pub closedir_job : ℕ → AsyncMethod → M Mem (Unit {0})
  unfolding worker_closedir result_closedir
  closedir_job dir =
      life (λ job. pure (record { dir = dir; outcome = failed 0 })) worker_closedir result_closedir

  pub worker_readdir : JobReaddir → M Mem JobReaddir
  worker_readdir j = do
    block ← malloc
    pure (record j { buffer = block; answer = readdir_r j.dir 0 })

  pub result_readdir : ℕ → JobReaddir → M Mem String
  result_readdir job j = elim j.answer [
    | error e ↦ (do free j.buffer; free_job job; raise (unix_error e "readdir" ""))
    | end ↦ (do free j.buffer; free_job job; raise end_of_file)
    | entry name ↦ (do free j.buffer; free_job job; pure name)
  ]

  pub readdir_job : ℕ → AsyncMethod → M Mem String
  unfolding worker_readdir result_readdir
  readdir_job dir =
      life (λ job. pure (record { dir = dir; buffer = 0; answer = end })) worker_readdir
        result_readdir

  -- The loop of `worker_readdir_n`: so many entries are still to be read, `i` have been.
  pub read_entries : ℕ → ℕ → ℕ → List (ℕ × String) → M Mem (Sys (List (ℕ × String)))
  read_entries dir zero i entries = pure (done entries)
  read_entries dir (suc left) i entries = do
    block ← malloc
    elim (readdir_r dir i) [
      | error e ↦ (do free block; free_all entries; pure (failed e))
      | end ↦ (do free block; pure (done entries))
      | entry name ↦ read_entries dir left (suc i) (entries ++ (block, name) ∷ [])
    ]

  pub worker_readdir_n : JobReaddirN → M Mem JobReaddirN
  unfolding read_entries free_all
  worker_readdir_n j = do
    entries ← read_entries j.dir j.count 0 []
    pure (record j { entries = entries })

  -- On success the entries are freed and the job is not.
  pub result_readdir_n : ℕ → JobReaddirN → M Mem (List String)
  unfolding free_all
  result_readdir_n job j = elim j.entries [
    | failed e ↦ (do free_job job; raise (unix_error e "readdir" ""))
    | done entries ↦ (do free_all entries; pure (map (λ x. x.1) entries))
  ]

  pub readdir_n_job : ℕ → ℕ → AsyncMethod → M Mem (List String)
  unfolding worker_readdir_n result_readdir_n
  readdir_n_job dir count =
      life (λ job. pure (record { dir = dir; count = count; entries = done [] })) worker_readdir_n
        result_readdir_n

  -- The loop of `worker_readlink`, on fuel: a buffer that the link fills is too small.
  pub read_link : ℕ → String → ℕ → M Mem (Sys (ℕ × List ℕ))
  read_link zero name buffer_size = undefined
  read_link (suc fuel) name buffer_size =
      let rest = read_link fuel name (buffer_size * 2) in
      do
        buffer ← malloc
        elim (readlink name buffer_size) [
          | failed e ↦ (do free buffer; pure (failed e))
          | done bytes ↦
              if ltb (length bytes) buffer_size
              then pure (done (buffer, bytes ++ 0 ∷ []))
              else (do free buffer; rest)
        ]

  pub worker_readlink : ℕ → JobReadlink → M Mem JobReadlink
  unfolding read_link
  worker_readlink fuel j = do
    outcome ← read_link fuel j.name 1024
    pure (record j { outcome = outcome })

  pub result_readlink : ℕ → JobReadlink → M Mem (List ℕ)
  result_readlink job j = elim j.outcome [
    | failed e ↦ (do check_job job true e "readlink" j.name; undefined)
    | done (buffer, bytes) ↦ (do free buffer; free_job job; pure (c_string bytes))
  ]

  pub readlink_job : ℕ → String → AsyncMethod → M Mem (List ℕ)
  unfolding worker_readlink result_readlink
  readlink_job fuel name =
      life (λ job. pure (record { name = name; outcome = failed 0 })) (worker_readlink fuel)
        result_readlink
