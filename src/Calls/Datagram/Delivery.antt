-- ===== src/Calls/Datagram/Delivery.antt =====
-- A datagram that is sent and received.
use lwt_old.Base.{
  ℕ, ◌+◌, ◌≤◌, ◌≡◌, refl, le→leb, List, length as measure, take, length-take, update, arith,
}
use lwt_old.Base.Outcome.{done, ok, M, bind_ok}
use lwt_old.Jobs.{Mem, memcpy_string, store_bigarray, slice}
use lwt_old.Jobs.ReadWrite.Laws.{memcpy_string_lem, store_bigarray_lem}
use lwt_old.Calls.{answer}
use lwt_old.Calls.Buffers.Laws.{Stored, blit-Stored}
use lwt_old.Calls.Datagram.{
  Kernel, Runtime, receive_from, lwt_recvfrom, bytes_recvfrom, give_to, lwt_sendto, bytes_sendto,
}

module _ (runtime : Runtime) (kernel : Kernel) (m : Mem) (fd buf ofs len flags : ℕ) {d : List ℕ}
    {address : runtime.Sockaddr} where
  give_to_lem :
      (text : List ℕ) {n : ℕ}
      → runtime.get_sockaddr address ≡ done d
      → ofs + len ≤ measure text
      → kernel.sendto fd (slice text ofs len) flags d ≡ done n
      → give_to runtime kernel text fd ofs len flags address m ≡ ok n m
  unfolding give_to answer
  give_to_lem text known fits e =
      rw (known, give_to, answer) (rw (le→leb _ _ fits) (rw (e, answer) refl))

  receive_from_lem :
      (store : List ℕ → M Mem (Unit {0})) (bytes : List ℕ) {t : Mem}
      → runtime.alloc_sockaddr d ≡ done address
      → store bytes m ≡ ok tt t
      → receive_from runtime kernel store (done (bytes, d)) m ≡ ok (measure bytes, address) t
  unfolding receive_from answer
  receive_from_lem store bytes {t} found stored =
      bind_ok (store bytes) _ m stored (rw (found, answer) refl)

-- What is in `text` from `ofs` on, up to the length that the receiver asks for.
abbrev pub part : List ℕ → ℕ → ℕ → ℕ → List ℕ
part text ofs len len' = take len' (slice text ofs len)

-- The sender with memory `m` and the receivers with memory `m'` may be different processes.
module _ (runtime : Runtime) (sender receiver1 receiver2 : Kernel) (m m' : Mem)
    (fd buf ofs len flags fd' buf' ofs' len' flags' : ℕ) {n k : ℕ} {d src : List ℕ}
    {dest from : runtime.Sockaddr} where
  -- Where the ranges of the sender lie in its string and in its bigarray, and those of the receiver
  -- in its own; the address of the destination can be converted, and that of the sender; the kernel
  -- of the sender takes the bytes of the string, and those of the bigarray, and the first receiver
  -- is given what it asks for of the former, and the second one of the latter. Then sendto with the
  -- string returns the answer of the kernel; recvfrom with the bigarray, of the first receiver,
  -- returns the length of what it is given and the address of the sender. It stores that into its
  -- range, and nothing else changes. So do sendto with the bigarray, and recvfrom of the second
  -- receiver with the string.
  pub recvfrom-sendto :
      ofs + len ≤ measure (m.strings buf)
      → ofs + len ≤ measure (m.bigarrays buf)
      → ofs' + len' ≤ measure (m'.strings buf')
      → ofs' + len' ≤ measure (m'.bigarrays buf')
      → runtime.get_sockaddr dest ≡ done d
      → runtime.alloc_sockaddr src ≡ done from
      → sender.sendto fd (slice (m.strings buf) ofs len) flags d ≡ done n
      → sender.sendto fd (slice (m.bigarrays buf) ofs len) flags d ≡ done k
      → receiver1.recvfrom fd' len' flags' ≡ done (part (m.strings buf) ofs len len', src)
      → receiver2.recvfrom fd' len' flags' ≡ done (part (m.bigarrays buf) ofs len len', src)
      → (lwt_sendto runtime sender fd buf ofs len flags dest m ≡ ok n m)
        × ((text : List ℕ) × Stored
              (m'.bigarrays buf')
              ofs'
              (part (m.strings buf) ofs len len')
              text
            × (bytes_recvfrom runtime receiver1 fd' buf' ofs' len' flags' m'
                ≡ ok
                    (measure (part (m.strings buf) ofs len len'), from)
                    (record m' { bigarrays = update m'.bigarrays buf' text })))
        × (bytes_sendto runtime sender fd buf ofs len flags dest m ≡ ok k m)
        × ((text : List ℕ) × Stored
              (m'.strings buf')
              ofs'
              (part (m.bigarrays buf) ofs len len')
              text
            × (lwt_recvfrom runtime receiver2 fd' buf' ofs' len' flags' m'
                ≡ ok
                    (measure (part (m.bigarrays buf) ofs len len'), from)
                    (record m' { strings = update m'.strings buf' text })))
  unfolding lwt_sendto bytes_sendto lwt_recvfrom bytes_recvfrom
  recvfrom-sendto in_string in_bytes in_string' in_bytes' known found to1 to2 by1 by2 =
      let short1 : measure (part (m.strings buf) ofs len len') ≤ len' =
        omega (arith, length-take len' (slice (m.strings buf) ofs len)) in
      let short2 : measure (part (m.bigarrays buf) ofs len len') ≤ len' =
        omega (arith, length-take len' (slice (m.bigarrays buf) ofs len)) in
      (
        give_to_lem runtime sender m fd buf ofs len flags (m.strings buf) known in_string to1,
        (
          _,
          blit-Stored (m'.bigarrays buf') ofs' _ (omega (arith, in_bytes', short1)),
          rw by1 (
              receive_from_lem runtime receiver1 m' fd' buf' ofs' len' flags'
                (store_bigarray buf' ofs') _ found
                (store_bigarray_lem buf' ofs' _ m' (omega (arith, in_bytes', short1)))),
        ),
        give_to_lem runtime sender m fd buf ofs len flags (m.bigarrays buf) known in_bytes to2,
        (
          _,
          blit-Stored (m'.strings buf') ofs' _ (omega (arith, in_string', short2)),
          rw by2 (
              receive_from_lem runtime receiver2 m' fd' buf' ofs' len' flags'
                (memcpy_string buf' ofs') _ found
                (memcpy_string_lem buf' ofs' _ m' (omega (arith, in_string', short2)))),
        ),
      )
