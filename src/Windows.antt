-- ===== src/Windows.antt =====
-- src/unix/lwt_unix_windows.c: read and write, and the jobs read, bytes_read, write and bytes_write.
pub mod Calm
pub mod Jobs
pub mod Unix
pub mod Process
pub mod Sockets
pub mod Wakeup
mod Examples
use Prim.Native.String.{String}
use lwt_old.Base.{ℕ, ◌+◌, ◌%◌, ◌^◌, ◌==◌, leb, if◌then◌else◌, List, length as measure, take}
use lwt_old.Base.Outcome.{
  Sys, done, failed, M, ◌>>=◌, ◌>>◌, pure, raise, gets, undefined, unix_error,
}
use lwt_old.Jobs.{
  Mem, AsyncMethod, free_job, life, register_root, remove_root, memcpy_string, store_bigarray,
  slice,
}

-- KIND_HANDLE and KIND_SOCKET.
pub data Kind : Type 0 where
  handle socket : Kind

-- `struct filedescr`
pub record FileDescr : Type 0 where
  pub kind : Kind
  pub fd : ℕ

-- A call that fails gives the number of `GetLastError` or `WSAGetLastError`. `maperr` is the error
-- number into which `win32_maperr` of the OCaml runtime turns it.
pub record Kernel : Type 0 where
  pub recv : ℕ → ℕ → Sys (List ℕ)
  pub send : ℕ → List ℕ → Sys ℕ
  pub read_file : ℕ → ℕ → Sys (List ℕ)
  pub write_file : ℕ → List ℕ → Sys ℕ
  pub maperr : ℕ → ℕ

-- A length or an offset as a DWORD.
pub dword : ℕ → ℕ
dword n = n % 2 ^ 32

pub record JobRead : Type 0 where
  pub fd : FileDescr
  pub length : ℕ
  pub string : ℕ
  pub offset : ℕ
  pub outcome : Sys (List ℕ)

pub record JobBytesRead : Type 0 where
  pub fd : FileDescr
  pub buffer : ℕ
  pub offset : ℕ
  pub length : ℕ
  pub outcome : Sys ℕ

pub record JobWrite : Type 0 where
  pub fd : FileDescr
  pub length : ℕ
  pub buffer : List ℕ
  pub outcome : Sys ℕ

pub record JobBytesWrite : Type 0 where
  pub fd : FileDescr
  pub buffer : ℕ
  pub offset : ℕ
  pub length : ℕ
  pub outcome : Sys ℕ

module _ (kernel : Kernel) where
  open kernel use {recv, send, read_file, write_file, maperr}

  pub receive : FileDescr → ℕ → Sys (List ℕ)
  receive d len = elim d.kind [ socket ↦ recv d.fd len | handle ↦ read_file d.fd len ]

  pub transmit : FileDescr → List ℕ → Sys ℕ
  transmit d bytes = elim d.kind [ socket ↦ send d.fd bytes | handle ↦ write_file d.fd bytes ]

  -- A failure with the error number 0 is taken for a success with no result, which is undefined.
  pub if_error : {A : Type 0} → ℕ → M Mem A → M Mem A
  if_error e k = if e == 0 then undefined else k

  pub map_raise : {A : Type 0} → ℕ → String → M Mem A
  map_raise e name = raise (unix_error (maperr e) name "")

  -- The kernel stores what it has read; the name of the error is "write".
  pub win_take : FileDescr → (List ℕ → M Mem (Unit {0})) → ℕ → M Mem ℕ
  unfolding receive if_error map_raise
  win_take d store n = elim (receive d n) [
    | failed e ↦ if_error e (map_raise e "write")
    | done bytes ↦ (do store bytes; pure (measure bytes))
  ]

  -- `lwt_unix_read` and `lwt_unix_bytes_read`
  pub win_read : FileDescr → ℕ → ℕ → ℕ → M Mem ℕ
  unfolding win_take dword
  win_read d buf ofs len =
      if len == 0 then pure 0 else win_take d (memcpy_string buf ofs) (dword len)

  pub win_bytes_read : FileDescr → ℕ → ℕ → ℕ → M Mem ℕ
  unfolding win_take dword
  win_bytes_read d buf ofs len =
      if len == 0 then pure 0 else win_take d (store_bigarray buf ofs) (dword len)

  -- The kernel gets `n` bytes of a buffer.
  pub win_give : FileDescr → List ℕ → ℕ → ℕ → M Mem ℕ
  unfolding transmit if_error map_raise
  win_give d text ofs n =
      if leb (ofs + n) (measure text)
      then elim (transmit d (slice text ofs n)) [
        | failed e ↦ if_error e (map_raise e "write")
        | done written ↦ pure written
      ]
      else undefined

  pub win_write : FileDescr → ℕ → ℕ → ℕ → M Mem ℕ
  unfolding win_give dword
  win_write d buf ofs len =
      if len == 0
      then pure 0
      else (gets (λ m. m.strings buf) >>= λ text. win_give d text ofs (dword len))

  pub win_bytes_write : FileDescr → ℕ → ℕ → ℕ → M Mem ℕ
  unfolding win_give dword
  win_bytes_write d buf ofs len =
      if len == 0
      then pure 0
      else (gets (λ m. m.bigarrays buf) >>= λ text. win_give d text ofs (dword len))

  pub worker_read : JobRead → M Mem JobRead
  unfolding receive
  worker_read j = pure (record j { outcome = receive j.fd j.length })

  pub result_read : ℕ → JobRead → M Mem ℕ
  unfolding if_error map_raise
  result_read job j = elim j.outcome [
    | failed e ↦ if_error e (do remove_root job; free_job job; map_raise e "read")
    | done bytes ↦ (do
      memcpy_string j.string j.offset bytes
      remove_root job
      free_job job
      pure (measure bytes))
  ]

  pub read_job : FileDescr → ℕ → ℕ → ℕ → AsyncMethod → M Mem ℕ
  unfolding worker_read result_read dword
  read_job fd string offset length =
      life
        (λ job. do
          register_root job
          pure (record {
            fd = fd;
            length = dword length;
            string = string;
            offset = dword offset;
            outcome = failed 0;
          }))
        worker_read result_read

  pub worker_bytes_read : JobBytesRead → M Mem JobBytesRead
  unfolding receive
  worker_bytes_read j = elim (receive j.fd j.length) [
    | failed e ↦ pure (record j { outcome = failed e })
    | done bytes ↦ (do
      store_bigarray j.buffer j.offset bytes
      pure (record j { outcome = done (measure bytes) }))
  ]

  -- `result_bytes_read`, `result_write` and `result_bytes_write`, with the name of the error.
  pub result_count : String → ℕ → Sys ℕ → M Mem ℕ
  unfolding if_error map_raise
  result_count name job outcome = elim outcome [
    | failed e ↦ if_error e (do free_job job; map_raise e name)
    | done n ↦ (do free_job job; pure n)
  ]

  pub bytes_read_job : FileDescr → ℕ → ℕ → ℕ → AsyncMethod → M Mem ℕ
  unfolding worker_bytes_read result_count dword
  bytes_read_job fd buffer offset length =
      life
        (λ job. pure (record {
          fd = fd;
          buffer = buffer;
          offset = offset;
          length = dword length;
          outcome = failed 0;
        }))
        worker_bytes_read (λ job j. result_count "bytes_read" job j.outcome)

  pub worker_write : JobWrite → M Mem JobWrite
  unfolding transmit
  worker_write j = pure (record j { outcome = transmit j.fd (take j.length j.buffer) })

  pub write_job : FileDescr → ℕ → ℕ → ℕ → AsyncMethod → M Mem ℕ
  unfolding worker_write result_count dword
  write_job fd string offset length =
      life
        (λ job. do
          text ← gets (λ m. m.strings string)
          if leb (offset + length) (measure text)
              then pure (record {
                fd = fd;
                length = dword length;
                buffer = slice text offset length;
                outcome = failed 0;
              })
              else undefined)
        worker_write (λ job j. result_count "write" job j.outcome)

  pub worker_bytes_write : JobBytesWrite → M Mem JobBytesWrite
  unfolding transmit
  worker_bytes_write j = do
    buf ← gets (λ m. m.bigarrays j.buffer)
    if leb (j.offset + j.length) (measure buf)
        then pure (record j { outcome = transmit j.fd (slice buf j.offset j.length) })
        else undefined

  pub bytes_write_job : FileDescr → ℕ → ℕ → ℕ → AsyncMethod → M Mem ℕ
  unfolding worker_bytes_write result_count dword
  bytes_write_job fd buffer offset length =
      life
        (λ job. pure (record {
          fd = fd;
          buffer = buffer;
          offset = offset;
          length = dword length;
          outcome = failed 0;
        }))
        worker_bytes_write (λ job j. result_count "bytes_write" job j.outcome)
