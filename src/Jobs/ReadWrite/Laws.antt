-- ===== src/Jobs/ReadWrite/Laws.antt =====
-- What the read and write jobs return, and what they leave in memory.
use lwt_old.Base.{ℕ, ◌+◌, ◌≤◌, ◌≡◌, refl, inl, inr, List, length as measure, update, arith}
use lwt_old.Base.Outcome.{
  Sys, done, failed, unix_error, ok, raised, bind_ok, pure, raise, Sys-cases,
}
use lwt_old.Jobs.{
  Mem, AsyncMethod, remove_root, memcpy_string, store_bigarray, blit, register_root, slice,
}
use lwt_old.Jobs.Balance.{ended, held, Ends, free_job_then, life-finish, remove_root-head, life_lem}
use lwt_old.Jobs.ReadWrite.{
  Kernel, JobBytesRead, read_job, result_read, worker_read, bytes_read_job, worker_bytes_read,
  result_bytes_read, write_job, worker_write, result_write, bytes_write_job, worker_bytes_write,
  result_bytes_write,
}

pub memcpy_string_lem :
    (s ofs : ℕ) (bytes : List ℕ) (m : Mem)
    → ofs + measure bytes ≤ measure (m.strings s)
    → memcpy_string s ofs bytes m
      ≡ ok tt (record m { strings = update m.strings s (blit (m.strings s) ofs bytes) })
unfolding memcpy_string
memcpy_string_lem s ofs bytes m h = ground arith

pub store_bigarray_lem :
    (b ofs : ℕ) (bytes : List ℕ) (m : Mem)
    → ofs + measure bytes ≤ measure (m.bigarrays b)
    → store_bigarray b ofs bytes m
      ≡ ok tt (record m { bigarrays = update m.bigarrays b (blit (m.bigarrays b) ofs bytes) })
unfolding store_bigarray
store_bigarray_lem b ofs bytes m h = ground arith

module _ (kernel : Kernel) (method : AsyncMethod) (m : Mem) where
  read_job-done :
      (fd string offset len : ℕ) (bytes : List ℕ)
      → kernel.read fd len ≡ done bytes
      → offset + measure bytes ≤ measure (m.strings string)
      → read_job kernel fd string offset len method m
        ≡ ok (measure bytes) (record (ended method m) {
          strings = update m.strings string (blit (m.strings string) offset bytes);
        })
  unfolding read_job worker_read result_read register_root
  read_job-done fd string offset len bytes e fits = life_lem _ _ _ method m refl refl (
      rw e (
        bind_ok (memcpy_string string offset bytes) _ _
          (memcpy_string_lem string offset bytes _ fits)
          (bind_ok (remove_root m.fresh) _ _ (remove_root-head m.fresh m.roots _ refl) (
            free_job_then method m.fresh m _ (pure (measure bytes))
              (held method m m.roots _ m.bigarrays) refl))))

  read_job-failed :
      (fd string offset len e : ℕ)
      → kernel.read fd len ≡ failed e
      → read_job kernel fd string offset len method m
        ≡ raised (unix_error e "read" "") (ended method m)
  unfolding read_job worker_read result_read register_root
  read_job-failed fd string offset len e h = life_lem _ _ _ method m refl refl (
      rw h (
        bind_ok (remove_root m.fresh) _ _ (remove_root-head m.fresh m.roots _ refl) (
          free_job_then method m.fresh m _ (raise (unix_error e "read" ""))
            (held method m m.roots m.strings m.bigarrays) refl)))

  -- Where the kernel stores no more bytes than it was asked for, and the string has room for
  -- them: the job read returns the number of bytes that the kernel stored and puts them into the
  -- string at the offset, every other string being as before; or it raises the kernel's error
  -- with all strings as before. Either way the block of the job, its mutex and its root are
  -- gone, and nothing else in memory has changed.
  pub read_job-Ends :
      (fd string offset len : ℕ)
      → ((bytes : List ℕ) → kernel.read fd len ≡ done bytes → measure bytes ≤ len)
      → offset + len ≤ measure (m.strings string)
      → Ends
          (kernel.read fd len)
          (λ bytes. ok (measure bytes) (record (ended method m) {
            strings = update m.strings string (blit (m.strings string) offset bytes);
          }))
          (λ e. raised (unix_error e "read" "") (ended method m))
          (read_job kernel fd string offset len method m)
  read_job-Ends fd string offset len short room = elim (Sys-cases (kernel.read fd len)) [
    | inl (bytes, e) ↦
        rw e (read_job-done fd string offset len bytes e (omega (arith, short bytes e)))
    | inr (err, e) ↦ rw e (read_job-failed fd string offset len err e)
  ]

  abbrev bytes_read : ℕ → ℕ → ℕ → ℕ → Sys ℕ → JobBytesRead
  bytes_read fd buffer offset len outcome = record {
    fd = fd;
    buffer = buffer;
    offset = offset;
    length = len;
    outcome = outcome;
  }

  worker_bytes_read-done :
      (fd buffer offset len : ℕ) (bytes : List ℕ) (m' : Mem)
      → kernel.read fd len ≡ done bytes
      → offset + measure bytes ≤ measure (m'.bigarrays buffer)
      → worker_bytes_read kernel (bytes_read fd buffer offset len (failed 0)) m'
        ≡ ok (bytes_read fd buffer offset len (done (measure bytes))) (record m' {
          bigarrays = update m'.bigarrays buffer (blit (m'.bigarrays buffer) offset bytes);
        })
  unfolding worker_bytes_read
  worker_bytes_read-done fd buffer offset len bytes m' e room =
      rw (e, worker_bytes_read)
        (bind_ok (store_bigarray buffer offset bytes) _ _
          (store_bigarray_lem buffer offset bytes m' room) refl)

  worker_bytes_read-failed :
      (fd buffer offset len err : ℕ) (m' : Mem)
      → kernel.read fd len ≡ failed err
      → worker_bytes_read kernel (bytes_read fd buffer offset len (failed 0)) m'
        ≡ ok (bytes_read fd buffer offset len (failed err)) m'
  unfolding worker_bytes_read
  worker_bytes_read-failed fd buffer offset len err m' e = rw (e, worker_bytes_read) refl

  bytes_read_at :
      (fd buffer offset len : ℕ) (r : Sys (List ℕ))
      → kernel.read fd len ≡ r
      → ((bytes : List ℕ) → r ≡ done bytes → measure bytes ≤ len)
      → offset + len ≤ measure (m.bigarrays buffer)
      → Ends r
          (λ bytes. ok (measure bytes) (record (ended method m) {
            bigarrays = update m.bigarrays buffer (blit (m.bigarrays buffer) offset bytes);
          }))
          (λ e. raised (unix_error e "read" "") (ended method m))
          (bytes_read_job kernel fd buffer offset len method m)
  unfolding bytes_read_job result_bytes_read
  bytes_read_at fd buffer offset len (done bytes) e short room =
      life-finish "read" "" (λ n. n) (λ j. j.outcome) _ (worker_bytes_read kernel) method m refl
        (worker_bytes_read-done fd buffer offset len bytes _ e (omega (arith, short bytes refl)))
  bytes_read_at fd buffer offset len (failed err) e short room =
      life-finish "read" "" (λ n. n) (λ j. j.outcome) _ (worker_bytes_read kernel) method m refl
        (worker_bytes_read-failed fd buffer offset len err _ e)

  -- Where the kernel stores no more bytes than it was asked for, and the bigarray has room for
  -- them: the job bytes_read returns the number of bytes that the kernel stored, and they stand in
  -- the bigarray at the offset, or it raises the kernel's error with all bigarrays as before. Either
  -- way the block of the job and its mutex are gone, and nothing else in memory has changed.
  pub bytes_read_job-Ends :
      (fd buffer offset len : ℕ)
      → ((bytes : List ℕ) → kernel.read fd len ≡ done bytes → measure bytes ≤ len)
      → offset + len ≤ measure (m.bigarrays buffer)
      → Ends
          (kernel.read fd len)
          (λ bytes. ok (measure bytes) (record (ended method m) {
            bigarrays = update m.bigarrays buffer (blit (m.bigarrays buffer) offset bytes);
          }))
          (λ e. raised (unix_error e "read" "") (ended method m))
          (bytes_read_job kernel fd buffer offset len method m)
  bytes_read_job-Ends fd buffer offset len short room =
      bytes_read_at fd buffer offset len (kernel.read fd len) refl short room

  -- Where the range lies in the string and in the bigarray: the job write hands the kernel the
  -- bytes of the string from the offset on, as they were when the job was allocated, and returns
  -- how many it took or raises its error. No block or mutex is left of it, and nothing else in
  -- memory has changed. The same holds of bytes_write and the bigarray.
  pub write_jobs-Ends :
      (fd string buffer offset len : ℕ)
      → offset + len ≤ measure (m.strings string)
      → offset + len ≤ measure (m.bigarrays buffer)
      → Ends
          (kernel.write fd (slice (m.strings string) offset len))
          (λ n. ok n (ended method m))
          (λ e. raised (unix_error e "write" "") (ended method m))
          (write_job kernel fd string offset len method m)
        × Ends
            (kernel.write fd (slice (m.bigarrays buffer) offset len))
            (λ n. ok n (ended method m))
            (λ e. raised (unix_error e "write" "") (ended method m))
            (bytes_write_job kernel fd buffer offset len method m)
  unfolding write_job worker_write result_write bytes_write_job worker_bytes_write
      result_bytes_write
  write_jobs-Ends fd string buffer offset len room room' = (
    life-finish "write" "" (λ n. n) (λ j. j.outcome) _ (worker_write kernel) method m
        {j = record { fd = fd; buffer = slice (m.strings string) offset len; outcome = failed 0 }}
        (ground arith) refl,
    life-finish "write" "" (λ n. n) (λ j. j.outcome) _ (worker_bytes_write kernel) method m
        {j' = record {
          fd = fd;
          buffer = buffer;
          offset = offset;
          length = len;
          outcome = kernel.write fd (slice (m.bigarrays buffer) offset len);
        }}
        refl (ground arith),
  )
