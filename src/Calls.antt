-- ===== src/Calls.antt =====
-- src/unix/lwt_unix_unix.c, the stubs that call the kernel at once, without a job: read, write and
-- their variants on bigarrays, recv and send.
pub mod Same
pub mod Message
pub mod Affinity
pub mod Buffers
pub mod Datagram
pub mod Pages
pub mod Machine
pub mod Wait
mod Examples
use Prim.Native.String.{String}
use lwt_old.Base.{ℕ, ◌+◌, leb, if◌then◌else◌, List, length as measure}
use lwt_old.Base.Outcome.{
  Sys, done, failed, M, ◌>>=◌, ◌>>◌, pure, raise, gets, undefined, unix_error,
}
use lwt_old.Jobs.{Mem, memcpy_string, store_bigarray, slice}

-- `uerror`, or what follows.
unfoldable pub answer : {A B : Type 0} → String → Sys A → (A → M Mem B) → M Mem B
answer name (failed e) f = raise (unix_error e name "")
answer name (done a) f = f a

-- The kernel stores what it has received into a string, or into a bigarray.
unfoldable pub receive_string : String → Sys (List ℕ) → ℕ → ℕ → M Mem ℕ
unfolding answer
receive_string name ret buf ofs =
    answer name ret (λ bytes. do memcpy_string buf ofs bytes; pure (measure bytes))

unfoldable pub receive_bytes : String → Sys (List ℕ) → ℕ → ℕ → M Mem ℕ
unfolding answer
receive_bytes name ret buf ofs =
    answer name ret (λ bytes. do store_bigarray buf ofs bytes; pure (measure bytes))

-- The kernel takes what it is given of a string, or of a bigarray.
unfoldable pub give : String → (List ℕ → Sys ℕ) → List ℕ → ℕ → ℕ → M Mem ℕ
unfolding answer
give name call text ofs len =
    if leb (ofs + len) (measure text)
    then answer name (call (slice text ofs len)) pure
    else undefined

-- `read`, `write`, `recv` and `send` of the kernel; the flags are a number.
pub record Kernel : Type 0 where
  pub read : ℕ → ℕ → Sys (List ℕ)
  pub write : ℕ → List ℕ → Sys ℕ
  pub recv : ℕ → ℕ → ℕ → Sys (List ℕ)
  pub send : ℕ → List ℕ → ℕ → Sys ℕ

module _ (kernel : Kernel) where
  open kernel use {read, write, recv, send}

  unfoldable pub lwt_read : ℕ → ℕ → ℕ → ℕ → M Mem ℕ
  unfolding receive_string
  lwt_read fd buf ofs len = receive_string "read" (read fd len) buf ofs

  unfoldable pub bytes_read : ℕ → ℕ → ℕ → ℕ → M Mem ℕ
  unfolding receive_bytes
  bytes_read fd buf ofs len = receive_bytes "read" (read fd len) buf ofs

  unfoldable pub lwt_write : ℕ → ℕ → ℕ → ℕ → M Mem ℕ
  unfolding give
  lwt_write fd buf ofs len = do
    text ← gets (λ m. m.strings buf)
    give "write" (write fd) text ofs len

  unfoldable pub bytes_write : ℕ → ℕ → ℕ → ℕ → M Mem ℕ
  unfolding give
  bytes_write fd buf ofs len = do
    text ← gets (λ m. m.bigarrays buf)
    give "write" (write fd) text ofs len

  pub lwt_recv : ℕ → ℕ → ℕ → ℕ → ℕ → M Mem ℕ
  unfolding receive_string
  lwt_recv fd buf ofs len flags = receive_string "recv" (recv fd len flags) buf ofs

  pub bytes_recv : ℕ → ℕ → ℕ → ℕ → ℕ → M Mem ℕ
  unfolding receive_bytes
  bytes_recv fd buf ofs len flags = receive_bytes "recv" (recv fd len flags) buf ofs

  pub lwt_send : ℕ → ℕ → ℕ → ℕ → ℕ → M Mem ℕ
  unfolding give
  lwt_send fd buf ofs len flags = do
    text ← gets (λ m. m.strings buf)
    give "send" (λ bytes. send fd bytes flags) text ofs len

  pub bytes_send : ℕ → ℕ → ℕ → ℕ → ℕ → M Mem ℕ
  unfolding give
  bytes_send fd buf ofs len flags = do
    text ← gets (λ m. m.bigarrays buf)
    give "send" (λ bytes. send fd bytes flags) text ofs len
