-- ===== src/Windows/Unix.antt =====
-- The calls read and write of Windows, and with them the jobs, do what those of Unix do.
use lwt_old.Base.{
  ℕ, ◌+◌, ◌^◌, ◌<◌, ◌≤◌, ◌≡◌, refl, sym, ap, ◌∙◌, ◌==◌, false, le→leb, List, length as measure,
  arith,
}
use lwt_old.Base.Outcome.{Sys, done, failed, M, ok, pure, bind_ok, ◌>>◌}
use lwt_old.Jobs.{Mem, AsyncMethod, store_bigarray, slice, memcpy_string}
use lwt_old.Jobs.ReadWrite.Laws.{memcpy_string_lem, store_bigarray_lem}
use lwt_old.Jobs.ReadWrite
use lwt_old.Calls
use lwt_old.Windows.{
  FileDescr, Kernel, receive, transmit, if_error, map_raise, win_take, win_read, win_bytes_read,
  win_give, win_write, win_bytes_write, read_job, bytes_read_job, write_job, bytes_write_job,
}
use lwt_old.Windows.Jobs.{
  renamed, dword_small, mapped, unix_jobs, unix_calls, HasNumber, read_lem, bytes_read_lem,
  write_lem, bytes_write_lem,
}

module _ (kernel : Kernel) (d : FileDescr) where
  open kernel use {maperr}

  module _ (method : AsyncMethod) (m : Mem) where
    give_lem :
        (text : List ℕ) (ofs len : ℕ)
        → ofs + len ≤ measure text
        → HasNumber kernel d (transmit kernel d (slice text ofs len))
        → win_give kernel d text ofs len m
          ≡ Calls.give "write" (λ bytes. mapped kernel d (transmit kernel d bytes)) text ofs len m
    unfolding win_give if_error map_raise Calls.give Calls.answer
    give_lem text ofs len room number =
        rw (le→leb _ _ room) (sent (transmit kernel d (slice text ofs len)) number)
      where
        sent :
            (r : Sys ℕ)
            → HasNumber kernel d r
            → (elim r as (λ x. M Mem ℕ) [
              | failed e ↦ if_error kernel e (map_raise kernel e "write")
              | done written ↦ pure written
            ])
                m
              ≡ Calls.answer "write" (mapped kernel d r) pure m
        sent (done n) h = refl
        sent (failed e) h = let number : (e == 0) ≡ false = ground (arith, h) in rw number refl

    take_lem :
        (store : List ℕ → M Mem (Unit {0})) (len : ℕ) (r : Sys (List ℕ))
        → receive kernel d len ≡ r
        → HasNumber kernel d r
        → ((bytes : List ℕ) → r ≡ done bytes → (s : Mem) × (store bytes m ≡ ok tt s))
        → win_take kernel d store len m
          ≡ renamed "write" (
              Calls.answer "read"
                (mapped kernel d r)
                (λ bytes. store bytes >> pure (measure bytes))
                m)
    unfolding win_take if_error map_raise Calls.answer
    take_lem store len (done bytes) e number stores =
        let (s, h) = stores bytes refl in
        rw (e, win_take)
          (bind_ok (store bytes) _ m h refl
            ∙ ap (renamed "write")
                (sym (bind_ok (store bytes) (λ u. pure (measure bytes)) m h refl)))
    take_lem store len (failed n) e number stores =
        let some : (n == 0) ≡ false = ground (arith, number) in rw (e, win_take, some) refl

    -- For a descriptor of Windows, with an offset below 2 ^ 32, a length from 1 on and below 2 ^ 31
    -- and the range in the string and in the bigarray, where the kernel stores no more bytes than it was asked for and
    -- an error has a number that is not 0: the jobs read and write and the calls of write do what
    -- those of Unix do over a kernel that gives these answers, with the error numbers that
    -- `win32_maperr` makes of them. So do the jobs bytes_read and bytes_write, but their error is
    -- named so, and the calls of read, whose error is named "write".
    pub windows-unix :
        (buf ofs len : ℕ)
        → ofs < 2 ^ 32
        → 0 < len
        → len < 2 ^ 31
        → ofs + len ≤ measure (m.strings buf)
        → ofs + len ≤ measure (m.bigarrays buf)
        → HasNumber kernel d (receive kernel d len)
        → ((bytes : List ℕ) → receive kernel d len ≡ done bytes → measure bytes ≤ len)
        → ((bytes : List ℕ) → HasNumber kernel d (transmit kernel d bytes))
        → (read_job kernel d buf ofs len method m
            ≡ ReadWrite.read_job (unix_jobs kernel d) 0 buf ofs len method m)
          × (write_job kernel d buf ofs len method m
              ≡ renamed "write" (ReadWrite.write_job (unix_jobs kernel d) 0 buf ofs len method m))
          × (bytes_read_job kernel d buf ofs len method m
              ≡ renamed "bytes_read"
                  (ReadWrite.bytes_read_job (unix_jobs kernel d) 0 buf ofs len method m))
          × (bytes_write_job kernel d buf ofs len method m
              ≡ renamed "bytes_write"
                  (ReadWrite.bytes_write_job (unix_jobs kernel d) 0 buf ofs len method m))
          × (win_read kernel d buf ofs len m
              ≡ renamed "write" (Calls.lwt_read (unix_calls kernel d) 0 buf ofs len m))
          × (win_bytes_read kernel d buf ofs len m
              ≡ renamed "write" (Calls.bytes_read (unix_calls kernel d) 0 buf ofs len m))
          × (win_write kernel d buf ofs len m
              ≡ Calls.lwt_write (unix_calls kernel d) 0 buf ofs len m)
          × (win_bytes_write kernel d buf ofs len m
              ≡ Calls.bytes_write (unix_calls kernel d) 0 buf ofs len m)
    unfolding win_read win_bytes_read win_write win_bytes_write Calls.lwt_read Calls.bytes_read
        Calls.lwt_write Calls.bytes_write Calls.receive_string Calls.receive_bytes
    windows-unix buf ofs len near some below in_string in_bytes read_number short write_number =
        let nonzero : (len == 0) ≡ false = ground (arith, some) in
        let small : len < 2 ^ 32 = omega (arith, below) in
        let same = dword_small len small in
        (
          read_lem kernel d method m buf ofs len near small read_number,
          write_lem kernel d method m buf ofs len small in_string (write_number _),
          bytes_read_lem kernel d method m buf ofs len _ small refl read_number short in_bytes,
          bytes_write_lem kernel d method m buf ofs len small in_bytes (write_number _),
          rw nonzero (ap (λ n. win_take kernel d (memcpy_string buf ofs) n m) same)
              ∙ take_lem (memcpy_string buf ofs) len _ refl read_number (λ bytes e.
                (_, memcpy_string_lem buf ofs bytes m (omega (arith, short bytes e, in_string)))),
          rw nonzero (ap (λ n. win_take kernel d (store_bigarray buf ofs) n m) same)
              ∙ take_lem (store_bigarray buf ofs) len _ refl read_number (λ bytes e.
                (_, store_bigarray_lem buf ofs bytes m (omega (arith, short bytes e, in_bytes)))),
          rw nonzero (ap (λ n. win_give kernel d (m.strings buf) ofs n m) same)
              ∙ give_lem (m.strings buf) ofs len in_string (write_number _),
          rw nonzero (ap (λ n. win_give kernel d (m.bigarrays buf) ofs n m) same)
              ∙ give_lem (m.bigarrays buf) ofs len in_bytes (write_number _),
        )
