-- ===== src/Calls/Datagram.antt =====
-- src/unix/lwt_unix_unix.c: recvfrom and sendto, with strings and with bigarrays.
pub mod Delivery
mod Examples
use lwt_old.Base.{ℕ, ◌+◌, leb, if◌then◌else◌, List, length as measure}
use lwt_old.Base.Outcome.{
  Sys, done, failed, M, ◌>>=◌, ◌>>◌, pure, raise, gets, undefined, unix_error,
}
use lwt_old.Jobs.{Mem, memcpy_string, store_bigarray, slice}
use lwt_old.Calls.{answer}

-- `recvfrom` gives the bytes and the address of their sender, which is bytes as well; the flags are
-- a number.
pub record Kernel : Type 0 where
  pub recvfrom : ℕ → ℕ → ℕ → Sys (List ℕ × List ℕ)
  pub sendto : ℕ → List ℕ → ℕ → List ℕ → Sys ℕ

-- `alloc_sockaddr` and `get_sockaddr` of the OCaml runtime, which raise errors.
pub record Runtime : Type 1 where
  pub Sockaddr : Type 0
  pub alloc_sockaddr : List ℕ → Sys Sockaddr
  pub get_sockaddr : Sockaddr → Sys (List ℕ)

module _ (runtime : Runtime) (kernel : Kernel) where
  open runtime use {Sockaddr, alloc_sockaddr, get_sockaddr}

  -- The bytes are stored before the address is converted.
  pub receive_from : (List ℕ → M Mem (Unit {0})) → Sys (List ℕ × List ℕ) → M Mem (ℕ × Sockaddr)
  unfolding answer
  receive_from store ret = answer "recvfrom" ret (λ received. do
    store received.0
    answer "" (alloc_sockaddr received.1) (λ address. pure (measure received.0, address)))

  pub lwt_recvfrom : ℕ → ℕ → ℕ → ℕ → ℕ → M Mem (ℕ × Sockaddr)
  unfolding receive_from
  lwt_recvfrom fd buf ofs len flags =
      receive_from (memcpy_string buf ofs) (kernel.recvfrom fd len flags)

  pub bytes_recvfrom : ℕ → ℕ → ℕ → ℕ → ℕ → M Mem (ℕ × Sockaddr)
  unfolding receive_from
  bytes_recvfrom fd buf ofs len flags =
      receive_from (store_bigarray buf ofs) (kernel.recvfrom fd len flags)

  -- A failure is named "send".
  pub give_to : List ℕ → ℕ → ℕ → ℕ → ℕ → Sockaddr → M Mem ℕ
  unfolding answer
  give_to text fd ofs len flags dest = answer "" (get_sockaddr dest) (λ addr.
      if leb (ofs + len) (measure text)
      then answer "send" (kernel.sendto fd (slice text ofs len) flags addr) pure
      else undefined)

  pub lwt_sendto : ℕ → ℕ → ℕ → ℕ → ℕ → Sockaddr → M Mem ℕ
  unfolding give_to
  lwt_sendto fd buf ofs len flags dest = do
    text ← gets (λ m. m.strings buf)
    give_to text fd ofs len flags dest

  pub bytes_sendto : ℕ → ℕ → ℕ → ℕ → ℕ → Sockaddr → M Mem ℕ
  unfolding give_to
  bytes_sendto fd buf ofs len flags dest = do
    text ← gets (λ m. m.bigarrays buf)
    give_to text fd ofs len flags dest
