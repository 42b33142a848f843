-- ===== src/Calls/Same.antt =====
-- The direct calls and the jobs of the same name do the same.
use lwt_old.Base.{
  ℕ, ◌+◌, ◌≤◌, ◌≡◌, refl, sym, ap, update, ◌∙◌, subst, List, length as measure, arith, le→leb,
}
use lwt_old.Base.Outcome.{Sys, done, failed, Run, ok, raised, fault, unix_error, bind_ok, pure}
use lwt_old.Jobs.{Mem, AsyncMethod, slice, memcpy_string, store_bigarray, blit}
use lwt_old.Jobs.Balance.{Ends, ended}
use lwt_old.Jobs.ReadWrite
use lwt_old.Jobs.ReadWrite.{read_job, bytes_read_job, write_job, bytes_write_job}
use lwt_old.Jobs.ReadWrite.Laws.{
  read_job-Ends, bytes_read_job-Ends, write_jobs-Ends, memcpy_string_lem, store_bigarray_lem,
}
use lwt_old.Calls.{
  Kernel, lwt_read, bytes_read, lwt_write, bytes_write, answer, receive_string, receive_bytes, give,
}

-- A run with the traces of a job in the memory that it leaves.
abbrev pub with_job : AsyncMethod → Run Mem ℕ → Run Mem ℕ
with_job method (ok n m) = ok n (ended method m)
with_job method (raised e m) = raised e (ended method m)
with_job method fault = fault

abbrev pub job_kernel : Kernel → ReadWrite.Kernel
job_kernel k = record { read = k.read; write = k.write }

-- Two runs that both end as the answer says are the same.
same_end :
    (r : Sys (List ℕ)) (f : List ℕ → Run Mem ℕ) (g : ℕ → Run Mem ℕ) (x y : Run Mem ℕ)
    → Ends r f g x
    → Ends r f g y
    → x ≡ y
same_end (done a) f g x y p q = p ∙ sym q
same_end (failed e) f g x y p q = p ∙ sym q

same_end_count :
    (r : Sys ℕ) (f : ℕ → Run Mem ℕ) (g : ℕ → Run Mem ℕ) (x y : Run Mem ℕ)
    → Ends r f g x
    → Ends r f g y
    → x ≡ y
same_end_count (done a) f g x y p q = p ∙ sym q
same_end_count (failed e) f g x y p q = p ∙ sym q

module _ (kernel : Kernel) (method : AsyncMethod) (m : Mem) where
  answer-Ends :
      (r : Sys ℕ)
      → Ends r
          (λ n. ok n (ended method m))
          (λ e. raised (unix_error e "write" "") (ended method m))
          (with_job method (answer "write" r pure m))
  unfolding answer
  answer-Ends (done n) = refl
  answer-Ends (failed e) = refl

  give_lem :
      (call : List ℕ → Sys ℕ) (text : List ℕ) (ofs len : ℕ)
      → ofs + len ≤ measure text
      → answer "write" (call (slice text ofs len)) pure m ≡ give "write" call text ofs len m
  unfolding give
  give_lem call text ofs len h = rw (le→leb _ _ h) refl

  give-Ends :
      (call : List ℕ → Sys ℕ) (text : List ℕ) (ofs len : ℕ)
      → ofs + len ≤ measure text
      → Ends
          (call (slice text ofs len))
          (λ n. ok n (ended method m))
          (λ e. raised (unix_error e "write" "") (ended method m))
          (with_job method (give "write" call text ofs len m))
  give-Ends call text ofs len h =
      subst
        (λ r.
          Ends (call (slice text ofs len)) (λ n. ok n (ended method m))
            (λ e. raised (unix_error e "write" "") (ended method m)) (with_job method r))
        (give_lem call text ofs len h) (answer-Ends (call (slice text ofs len)))

  receive_string-Ends :
      (r : Sys (List ℕ)) (buf ofs len : ℕ)
      → ((bytes : List ℕ) → r ≡ done bytes → measure bytes ≤ len)
      → ofs + len ≤ measure (m.strings buf)
      → Ends r
          (λ bytes. ok (measure bytes) (record (ended method m) {
            strings = update m.strings buf (blit (m.strings buf) ofs bytes);
          }))
          (λ e. raised (unix_error e "read" "") (ended method m))
          (with_job method (receive_string "read" r buf ofs m))
  unfolding receive_string answer
  receive_string-Ends (done bytes) buf ofs len short room = ap (with_job method) (
      bind_ok (memcpy_string buf ofs bytes) _ m
        (memcpy_string_lem buf ofs bytes m (omega (arith, short bytes refl, room))) refl)
  receive_string-Ends (failed e) buf ofs len short room = refl

  receive_bytes-Ends :
      (r : Sys (List ℕ)) (buf ofs len : ℕ)
      → ((bytes : List ℕ) → r ≡ done bytes → measure bytes ≤ len)
      → ofs + len ≤ measure (m.bigarrays buf)
      → Ends r
          (λ bytes. ok (measure bytes) (record (ended method m) {
            bigarrays = update m.bigarrays buf (blit (m.bigarrays buf) ofs bytes);
          }))
          (λ e. raised (unix_error e "read" "") (ended method m))
          (with_job method (receive_bytes "read" r buf ofs m))
  unfolding receive_bytes answer
  receive_bytes-Ends (done bytes) buf ofs len short room = ap (with_job method) (
      bind_ok (store_bigarray buf ofs bytes) _ m
        (store_bigarray_lem buf ofs bytes m (omega (arith, short bytes refl, room))) refl)
  receive_bytes-Ends (failed e) buf ofs len short room = refl

  -- Where the range lies in the string and in the bigarray, and the kernel stores no more bytes than
  -- it was asked for: the jobs read, bytes_read, write and bytes_write do what the direct calls of
  -- these names do. They return the same number or raise the same exception and leave the same
  -- strings and bigarrays; the memory differs only in the traces of a job that has ended.
  pub jobs-calls :
      (fd buf ofs len : ℕ)
      → ((bytes : List ℕ) → kernel.read fd len ≡ done bytes → measure bytes ≤ len)
      → ofs + len ≤ measure (m.strings buf)
      → ofs + len ≤ measure (m.bigarrays buf)
      → (read_job (job_kernel kernel) fd buf ofs len method m
          ≡ with_job method (lwt_read kernel fd buf ofs len m))
        × (bytes_read_job (job_kernel kernel) fd buf ofs len method m
            ≡ with_job method (bytes_read kernel fd buf ofs len m))
        × (write_job (job_kernel kernel) fd buf ofs len method m
            ≡ with_job method (lwt_write kernel fd buf ofs len m))
        × (bytes_write_job (job_kernel kernel) fd buf ofs len method m
            ≡ with_job method (bytes_write kernel fd buf ofs len m))
  unfolding lwt_read bytes_read lwt_write bytes_write
  jobs-calls fd buf ofs len short in_string in_bytes =
      let k = job_kernel kernel in
      let writes = write_jobs-Ends k method m fd buf buf ofs len in_string in_bytes in
      (
        same_end (kernel.read fd len) _ _ _ _
            (read_job-Ends k method m fd buf ofs len short in_string)
            (receive_string-Ends (kernel.read fd len) buf ofs len short in_string),
        same_end (kernel.read fd len) _ _ _ _
            (bytes_read_job-Ends k method m fd buf ofs len short in_bytes)
            (receive_bytes-Ends (kernel.read fd len) buf ofs len short in_bytes),
        same_end_count (kernel.write fd (slice (m.strings buf) ofs len)) _ _ _ _ writes.0
            (give-Ends (kernel.write fd) (m.strings buf) ofs len in_string),
        same_end_count (kernel.write fd (slice (m.bigarrays buf) ofs len)) _ _ _ _ writes.1
            (give-Ends (kernel.write fd) (m.bigarrays buf) ofs len in_bytes),
      )
