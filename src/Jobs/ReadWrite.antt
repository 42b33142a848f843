-- ===== src/Jobs/ReadWrite.antt =====
-- src/unix/lwt_unix_unix.c, the jobs read, bytes_read, write and bytes_write.
pub mod Laws
use lwt_old.Base.{
  ℕ, ◌≡◌, ◌+◌, leb, if◌then◌else◌, Option, none, some, List, [], ◌∷◌, length as measure, true,
  false,
}
use lwt_old.Base.Outcome.{
  Sys, done, failed, ok, M, ◌>>=◌, ◌>>◌, pure, raise, gets, undefined, unix_error,
}
use lwt_old.Jobs.{
  Mem, AsyncMethod, free_job, check_job, life, register_root, finish, remove_root, memcpy_string,
  store_bigarray, slice,
}

-- `read` gives the bytes that it stored, `write` how many of the bytes it took.
pub record Kernel : Type 0 where
  pub read : ℕ → ℕ → Sys (List ℕ)
  pub write : ℕ → List ℕ → Sys ℕ

-- `outcome` is the fields `result` and `error_code` with the bytes in the temporary buffer.
pub record JobRead : Type 0 where
  pub fd : ℕ
  pub length : ℕ
  pub string : ℕ
  pub offset : ℕ
  pub outcome : Sys (List ℕ)

pub record JobBytesRead : Type 0 where
  pub fd : ℕ
  pub buffer : ℕ
  pub offset : ℕ
  pub length : ℕ
  pub outcome : Sys ℕ

-- The job write has its own copy of the bytes.
pub record JobWrite : Type 0 where
  pub fd : ℕ
  pub buffer : List ℕ
  pub outcome : Sys ℕ

pub record JobBytesWrite : Type 0 where
  pub fd : ℕ
  pub buffer : ℕ
  pub offset : ℕ
  pub length : ℕ
  pub outcome : Sys ℕ

module _ (kernel : Kernel) where
  open kernel use {read, write}

  unfoldable pub worker_read : JobRead → M Mem JobRead
  worker_read j = pure (record j { outcome = read j.fd j.length })

  -- The address of the job stands for that of its field `string`, which is the root.
  unfoldable pub result_read : ℕ → JobRead → M Mem ℕ
  result_read job j = elim j.outcome [
    | failed error_code ↦ (do
      remove_root job
      free_job job
      raise (unix_error error_code "read" ""))
    | done bytes ↦ (do
      memcpy_string j.string j.offset bytes
      remove_root job
      free_job job
      pure (measure bytes))
  ]

  unfoldable pub read_job : ℕ → ℕ → ℕ → ℕ → AsyncMethod → M Mem ℕ
  unfolding worker_read result_read
  read_job fd string offset length =
      life
        (λ job. do
          register_root job
          pure (record {
            fd = fd;
            length = length;
            string = string;
            offset = offset;
            outcome = failed 0;
          }))
        worker_read result_read

  -- The kernel writes to the bigarray itself.
  unfoldable pub worker_bytes_read : JobBytesRead → M Mem JobBytesRead
  worker_bytes_read j = elim (read j.fd j.length) [
    | failed e ↦ pure (record j { outcome = failed e })
    | done bytes ↦ (do
      store_bigarray j.buffer j.offset bytes
      pure (record j { outcome = done (measure bytes) }))
  ]

  unfoldable pub result_bytes_read : ℕ → JobBytesRead → M Mem ℕ
  result_bytes_read job j = finish "read" "" (λ n. n) job j.outcome

  unfoldable pub bytes_read_job : ℕ → ℕ → ℕ → ℕ → AsyncMethod → M Mem ℕ
  unfolding worker_bytes_read result_bytes_read
  bytes_read_job fd buffer offset length =
      life
        (λ job. pure (record {
          fd = fd;
          buffer = buffer;
          offset = offset;
          length = length;
          outcome = failed 0;
        }))
        worker_bytes_read result_bytes_read

  unfoldable pub worker_write : JobWrite → M Mem JobWrite
  worker_write j = pure (record j { outcome = write j.fd j.buffer })

  unfoldable pub result_write : ℕ → JobWrite → M Mem ℕ
  result_write job j = finish "write" "" (λ n. n) job j.outcome

  -- The bytes are copied when the job is allocated.
  unfoldable pub write_job : ℕ → ℕ → ℕ → ℕ → AsyncMethod → M Mem ℕ
  unfolding worker_write result_write
  write_job fd string offset length =
      life
        (λ job. do
          text ← gets (λ m. m.strings string)
          if leb (offset + length) (measure text)
              then pure (record { fd = fd; buffer = slice text offset length; outcome = failed 0 })
              else undefined)
        worker_write result_write

  -- The bytes are read from the bigarray when the worker runs.
  unfoldable pub worker_bytes_write : JobBytesWrite → M Mem JobBytesWrite
  worker_bytes_write j = do
    buf ← gets (λ m. m.bigarrays j.buffer)
    if leb (j.offset + j.length) (measure buf)
        then pure (record j { outcome = write j.fd (slice buf j.offset j.length) })
        else undefined

  unfoldable pub result_bytes_write : ℕ → JobBytesWrite → M Mem ℕ
  result_bytes_write job j = finish "write" "" (λ n. n) job j.outcome

  unfoldable pub bytes_write_job : ℕ → ℕ → ℕ → ℕ → AsyncMethod → M Mem ℕ
  unfolding worker_bytes_write result_bytes_write
  bytes_write_job fd buffer offset length =
      life
        (λ job. pure (record {
          fd = fd;
          buffer = buffer;
          offset = offset;
          length = length;
          outcome = failed 0;
        }))
        worker_bytes_write result_bytes_write
