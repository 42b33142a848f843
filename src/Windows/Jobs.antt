-- ===== src/Windows/Jobs.antt =====
-- The jobs read and write of Windows do what those of Unix do.
use Prim.Native.String.{String}
use lwt_old.Base.{
  ℕ, ◌+◌, ◌^◌, ◌<◌, ◌≤◌, ◌≡◌, ◌≢◌, refl, sym, ap, ◌∙◌, ◌==◌, false, le→leb, update, take, take_all,
  List, length as measure, arith, drop, length-take,
}
use lwt_old.Base.Outcome.{
  Sys, done, failed, M, Run, ok, raised, fault, unix_error, pure, bind_ok, ◌>>=◌, raise,
}
use lwt_old.Jobs.{
  Mem, AsyncMethod, life, blit, store_bigarray, slice, register_root, finish, check_job, free_job,
}
use lwt_old.Jobs.Balance.{life_lem, allocated, prepared}
use lwt_old.Jobs.ReadWrite.Laws.{store_bigarray_lem}
use lwt_old.Jobs.ReadWrite
use lwt_old.Calls
use lwt_old.Windows.{
  FileDescr, Kernel, dword, receive, transmit, if_error, map_raise, JobBytesRead, worker_read,
  result_read, read_job, worker_bytes_read, result_count, bytes_read_job, worker_write, write_job,
  worker_bytes_write, bytes_write_job,
}
use lwt_old.Windows.Calm.{IsCalm, free_job-IsCalm}

-- The run raises its error under another name.
abbrev pub renamed : String → Run Mem ℕ → Run Mem ℕ
renamed name (raised (unix_error e n arg) m) = raised (unix_error e name arg) m
renamed name r = r

pub dword_small : (n : ℕ) → n < 2 ^ 32 → dword n ≡ n
unfolding dword
dword_small n h = omega arith

module _ (kernel : Kernel) (d : FileDescr) where
  open kernel use {maperr}

  abbrev pub mapped : {A : Type 0} → Sys A → Sys A
  mapped (done a) = done a
  mapped (failed e) = failed (maperr e)

  -- The calls for this descriptor as a kernel of Unix, with the error numbers that
  -- `win32_maperr` gives.
  abbrev pub unix_jobs : ReadWrite.Kernel
  unix_jobs = record {
    read = λ fd n. mapped (receive kernel d n);
    write = λ fd bytes. mapped (transmit kernel d bytes);
  }

  abbrev pub unix_calls : Calls.Kernel
  unix_calls = record {
    read = λ fd n. mapped (receive kernel d n);
    write = λ fd bytes. mapped (transmit kernel d bytes);
    recv = λ fd n flags. mapped (receive kernel d n);
    send = λ fd bytes flags. mapped (transmit kernel d bytes);
  }

  -- An error has a number that is not 0.
  abbrev pub HasNumber : {A : Type 0} → Sys A → Type 0
  HasNumber (done a) = Unit {0}
  HasNumber (failed e) = e ≢ 0

  module _ (method : AsyncMethod) (m : Mem) where
    result_read_lem :
        (job n buf ofs : ℕ) (r : Sys (List ℕ)) (m' : Mem)
        → HasNumber r
        → result_read kernel job
            (record { fd = d; length = n; string = buf; offset = ofs; outcome = r })
            m'
          ≡ ReadWrite.result_read unix_jobs job
              (record { fd = 0; length = n; string = buf; offset = ofs; outcome = mapped r })
              m'
    unfolding result_read ReadWrite.result_read if_error map_raise
    result_read_lem job n buf ofs (done bytes) m' h = refl
    result_read_lem job n buf ofs (failed e) m' h =
        let number : (e == 0) ≡ false = ground (arith, h) in rw number refl

    pub read_lem :
        (buf ofs len : ℕ)
        → ofs < 2 ^ 32
        → len < 2 ^ 32
        → HasNumber (receive kernel d len)
        → read_job kernel d buf ofs len method m
          ≡ ReadWrite.read_job unix_jobs 0 buf ofs len method m
    unfolding read_job worker_read ReadWrite.read_job ReadWrite.worker_read register_root
    read_lem buf ofs len near small number =
        rw (dword_small len small, dword_small ofs near)
          (life_lem _ _ _ method m refl refl (
            result_read_lem m.fresh len buf ofs (receive kernel d len) _ number
            ∙ sym (life_lem _ _ _ method m refl refl refl)))

    -- Freeing raises nothing, so only the name differs.
    ends :
        (name other : String) (e : ℕ) (r : Run Mem (Unit {0}))
        → IsCalm r
        → ((λ (m : Mem). r) >>= (λ u s. raised (unix_error e name "") s)) m
          ≡ renamed name (
              (((λ (m : Mem). r) >>= (λ u s. raise {A = Unit {0}} (unix_error e other "") s))
                  >>= (λ u s. fault))
                m)
    ends name other e (ok a s) h = refl
    ends name other e fault h = refl
    ends name other e (raised x s) h = elim h [ ]

    gives :
        (name : String) (n : ℕ) (r : Run Mem (Unit {0}))
        → IsCalm r
        → ((λ (m : Mem). r) >>= (λ u. pure n)) m
          ≡ renamed name (((λ (m : Mem). r) >>= (λ u. pure n)) m)
    gives name n (ok a s) h = refl
    gives name n fault h = refl
    gives name n (raised x s) h = elim h [ ]

    result_count_lem :
        (name other : String) (job : ℕ) (r : Sys ℕ) (m' : Mem)
        → HasNumber r
        → result_count kernel name job r m'
          ≡ renamed name (finish other "" (λ n. n) job (mapped r) m')
    unfolding result_count if_error map_raise finish check_job
    result_count_lem name other job (done n) m' h =
        gives name n (free_job job m') (free_job-IsCalm job m')
    result_count_lem name other job (failed e) m' h =
        let number : (e == 0) ≡ false = ground (arith, h) in
        rw number (ends name other (maperr e) (free_job job m') (free_job-IsCalm job m'))

    -- Two lives that start and work alike.
    lives :
        {J J' : Type 0} (name : String) (alloc : ℕ → M Mem J) (worker : J → M Mem J)
        (result : ℕ → J → M Mem ℕ) (alloc' : ℕ → M Mem J') (worker' : J' → M Mem J')
        (result' : ℕ → J' → M Mem ℕ) {j j1 : J} {j' j1' : J'} {m2 : Mem}
        → alloc m.fresh (allocated m) ≡ ok j (allocated m)
        → alloc' m.fresh (allocated m) ≡ ok j' (allocated m)
        → worker j (prepared method m.fresh (allocated m)) ≡ ok j1 m2
        → worker' j' (prepared method m.fresh (allocated m)) ≡ ok j1' m2
        → result m.fresh j1 m2 ≡ renamed name (result' m.fresh j1' m2)
        → life alloc worker result method m ≡ renamed name (life alloc' worker' result' method m)
    lives name alloc worker result alloc' worker' result' a a' w w' r =
        life_lem alloc worker result method m a w r
        ∙ ap (renamed name) (sym (life_lem alloc' worker' result' method m a' w' refl))

    abbrev bytes_job : ℕ → ℕ → ℕ → Sys ℕ → JobBytesRead
    bytes_job buf ofs len r = record {
      fd = d;
      buffer = buf;
      offset = ofs;
      length = len;
      outcome = r;
    }

    abbrev unix_bytes_job : ℕ → ℕ → ℕ → Sys ℕ → ReadWrite.JobBytesRead
    unix_bytes_job buf ofs len r = record {
      fd = 0;
      buffer = buf;
      offset = ofs;
      length = len;
      outcome = r;
    }

    abbrev stored : ℕ → ℕ → List ℕ → Mem → Mem
    stored buf ofs bytes m' = record m' {
      bigarrays = update m'.bigarrays buf (blit (m'.bigarrays buf) ofs bytes);
    }

    pub bytes_read_lem :
        (buf ofs len : ℕ) (r : Sys (List ℕ))
        → len < 2 ^ 32
        → receive kernel d len ≡ r
        → HasNumber r
        → ((bytes : List ℕ) → r ≡ done bytes → measure bytes ≤ len)
        → ofs + len ≤ measure (m.bigarrays buf)
        → bytes_read_job kernel d buf ofs len method m
          ≡ renamed "bytes_read" (ReadWrite.bytes_read_job unix_jobs 0 buf ofs len method m)
    unfolding bytes_read_job worker_bytes_read ReadWrite.bytes_read_job ReadWrite.worker_bytes_read
        ReadWrite.result_bytes_read
    bytes_read_lem buf ofs len (done bytes) small e number short room =
        let m' : Mem = prepared method m.fresh (allocated m) in
        let s = store_bigarray_lem buf ofs bytes m' (omega (arith, short bytes refl, room)) in
        rw (dword_small len small) (
          lives "bytes_read" _ _ _ _ _ _ {j1 = bytes_job buf ofs len (done (measure bytes))}
            {j1' = unix_bytes_job buf ofs len (done (measure bytes))} {m2 = stored buf ofs bytes m'}
            refl refl
            (rw (e, worker_bytes_read) (bind_ok (store_bigarray buf ofs bytes) _ m' s refl))
            (rw (e, ReadWrite.worker_bytes_read)
              (bind_ok (store_bigarray buf ofs bytes) _ m' s refl))
            (result_count_lem "bytes_read" "read" m.fresh (done (measure bytes)) _ tt))
    bytes_read_lem buf ofs len (failed n) small e number short room = rw (dword_small len small) (
        lives "bytes_read" _ _ _ _ _ _ {j1 = bytes_job buf ofs len (failed n)}
          {j1' = unix_bytes_job buf ofs len (failed (maperr n))}
          {m2 = prepared method m.fresh (allocated m)} refl refl (rw (e, worker_bytes_read) refl)
          (rw (e, ReadWrite.worker_bytes_read) refl)
          (result_count_lem "bytes_read" "read" m.fresh (failed n) _ number))

    whole :
        (buf ofs len : ℕ) → take len (slice (m.strings buf) ofs len) ≡ slice (m.strings buf) ofs len
    whole buf ofs len =
        take_all len (slice (m.strings buf) ofs len)
          (omega (arith, length-take len (drop ofs (m.strings buf))))

    pub write_lem :
        (buf ofs len : ℕ)
        → len < 2 ^ 32
        → ofs + len ≤ measure (m.strings buf)
        → HasNumber (transmit kernel d (slice (m.strings buf) ofs len))
        → write_job kernel d buf ofs len method m
          ≡ renamed "write" (ReadWrite.write_job unix_jobs 0 buf ofs len method m)
    unfolding write_job worker_write ReadWrite.write_job ReadWrite.worker_write
        ReadWrite.result_write
    write_lem buf ofs len small room number =
        let bytes : List ℕ = slice (m.strings buf) ofs len in
        rw (dword_small len small) (
          lives "write" _ _ _ _ _ _
            {j = record { fd = d; length = len; buffer = bytes; outcome = failed 0 }}
            {j1 = record {
              fd = d;
              length = len;
              buffer = bytes;
              outcome = transmit kernel d bytes;
            }}
            {j' = record { fd = 0; buffer = bytes; outcome = failed 0 }}
            {j1' = record { fd = 0; buffer = bytes; outcome = mapped (transmit kernel d bytes) }}
            {m2 = prepared method m.fresh (allocated m)} (rw (le→leb _ _ room) refl)
            (rw (le→leb _ _ room) refl) (rw (whole buf ofs len) refl) refl
            (result_count_lem "write" "write" m.fresh (transmit kernel d bytes) _ number))

    pub bytes_write_lem :
        (buf ofs len : ℕ)
        → len < 2 ^ 32
        → ofs + len ≤ measure (m.bigarrays buf)
        → HasNumber (transmit kernel d (slice (m.bigarrays buf) ofs len))
        → bytes_write_job kernel d buf ofs len method m
          ≡ renamed "bytes_write" (ReadWrite.bytes_write_job unix_jobs 0 buf ofs len method m)
    unfolding bytes_write_job worker_bytes_write ReadWrite.bytes_write_job
        ReadWrite.worker_bytes_write ReadWrite.result_bytes_write
    bytes_write_lem buf ofs len small room number =
        let bytes : List ℕ = slice (m.bigarrays buf) ofs len in
        rw (dword_small len small) (
          lives "bytes_write" _ _ _ _ _ _
            {j1 = record {
              fd = d;
              buffer = buf;
              offset = ofs;
              length = len;
              outcome = transmit kernel d bytes;
            }}
            {j1' = record {
              fd = 0;
              buffer = buf;
              offset = ofs;
              length = len;
              outcome = mapped (transmit kernel d bytes);
            }}
            {m2 = prepared method m.fresh (allocated m)} refl refl (rw (le→leb _ _ room) refl)
            (rw (le→leb _ _ room) refl)
            (result_count_lem "bytes_write" "write" m.fresh (transmit kernel d bytes) _ number))
