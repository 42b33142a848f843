-- ===== src/Windows/Process/Laws.antt =====
-- A process that is run leaves no handle and no memory behind.
use Prim.Native.String.{String}
use lwt_old.Base.{ℕ, suc, ◌≡◌, refl, sym, subst, Option, none, some, List, ◌∷◌, arith}
use lwt_old.Base.Int.{ℤ}
use lwt_old.Base.Outcome.{
  Sys, done, failed, Run, ok, raised, fault, M, ◌>>=◌, ◌>>◌, pure, unix_error, bind_ok,
}
use lwt_old.Jobs.{Mem, AsyncMethod, malloc, prepare_job, free_job, mem, remove}
use lwt_old.Jobs.Balance.{ended, allocated, prepared, held, prepare_job_lem, free_job_lem}
use lwt_old.Windows.{FileDescr, handle}
use lwt_old.Windows.Process.{
  Machine, Startup, Kernel, on_mem, wait_for_process, val_int, get_exit_code, open_handle,
  close_handle, map_raise, get_handle, new_process, lwt_process_create_process, result_wait,
  result_system, waiting_job, wait_job, system_job,
}

-- A descriptor of a file, by its handle.
abbrev pub file : Option ℕ → Option FileDescr
file none = none
file (some h) = some (record { kind = handle; fd = h })

on_mem_ok :
    {A : Type 0} (f : M Mem A) (s : Machine) {a : A} {m : Mem}
    → f s.mem ≡ ok a m
    → on_mem f s ≡ ok a (record s { mem = m })
on_mem_ok f s e = rw (e, on_mem) refl

bind_assoc :
    {A B C : Type 0} (m : M Machine A) (f : A → M Machine B) (g : B → M Machine C) (s : Machine)
    → ((m >>= f) >>= g) s ≡ (m >>= λ a. f a >>= g) s
bind_assoc {A} {B} {C} m f g s = at_run (m s)
  where
    at_run :
        (r : Run Machine A)
        → (elim (elim r as (λ x. Run Machine B) [
          | ok a t ↦ f a t
          | raised e t ↦ raised e t
          | fault ↦ fault
        ])
            as (λ x. Run Machine C) [ ok b t ↦ g b t | raised e t ↦ raised e t | fault ↦ fault ])
          ≡ (elim r as (λ x. Run Machine C) [
            | ok a t ↦ (f a >>= g) t
            | raised e t ↦ raised e t
            | fault ↦ fault
          ])
    at_run (ok a t) = refl
    at_run (raised e t) = refl
    at_run fault = refl

get_handle-file : (kernel : Kernel) (i : Option ℕ) → get_handle kernel (file i) ≡ pure i
unfolding get_handle
get_handle-file kernel none = refl
get_handle-file kernel (some h) = refl

module _ (kernel : Kernel) (method : AsyncMethod) (s : Machine) where
  open kernel use {create_process, exit_code, maperr}

  -- The machine after two handles were opened and closed, a process was waited for and a job has
  -- ended.
  abbrev pub after : Machine
  after = record s {
    mem = ended method s.mem;
    ended = s.fresh_handle ∷ s.ended;
    fresh_handle = suc (suc s.fresh_handle);
  }

  -- By what the creation answers, and the question for the exit code.
  abbrev pub Exits : Sys ℕ → Sys ℕ → Run Machine ℤ → Type 0
  Exits (failed e) exit r = r ≡ raised (unix_error (maperr e) "CreateProcess" "") s
  Exits (done pid) (done code) r = r ≡ ok (val_int kernel code) after
  Exits (done pid) (failed e) r = r ≡ raised (unix_error (maperr e) "GetExitCodeProcess" "") after

  -- The machine with the handle of the process.
  abbrev running : Machine
  running = record s {
    handles = s.fresh_handle ∷ s.handles;
    fresh_handle = suc (suc s.fresh_handle);
  }

  -- The machine while the job waits, and when it has waited.
  abbrev waiting : Machine
  waiting = record running { mem = prepared method s.mem.fresh (allocated s.mem) }

  abbrev waited : Machine
  waited = record waiting { ended = s.fresh_handle ∷ s.ended }

  process_ended : wait_for_process s.fresh_handle waiting ≡ ok tt waited
  unfolding wait_for_process mem
  process_ended = ground arith

  -- The exit code can be had of the process that has ended.
  exit_code_of_ended :
      (m : Mem) (handles : List ℕ)
      → get_exit_code kernel s.fresh_handle (record waited { mem = m; handles = handles })
        ≡ ok (exit_code s.fresh_handle) (record waited { mem = m; handles = handles })
  unfolding get_exit_code mem
  exit_code_of_ended m handles = ground arith

  started :
      (result : ℕ → ℕ → M Machine ℤ) {r : Run Machine ℤ}
      → result s.mem.fresh s.fresh_handle waited ≡ r
      → waiting_job result s.fresh_handle method running ≡ r
  unfolding waiting_job malloc
  started result e =
      bind_ok (on_mem (prepare_job s.mem.fresh method)) _ (record running { mem = allocated s.mem })
        (on_mem_ok (prepare_job s.mem.fresh method) (record running { mem = allocated s.mem })
          (prepare_job_lem s.mem.fresh method (allocated s.mem)))
        (bind_ok (wait_for_process s.fresh_handle) (λ _. result s.mem.fresh s.fresh_handle) waiting
          process_ended e)

  freed :
      (handles : List ℕ)
      → on_mem (free_job s.mem.fresh) (record waited { handles = handles })
        ≡ ok tt (record after { handles = handles })
  freed handles =
      on_mem_ok (free_job s.mem.fresh) (record waited { handles = handles })
        (free_job_lem method s.mem.fresh s.mem (prepared method s.mem.fresh (allocated s.mem))
          (held method s.mem s.mem.roots s.mem.strings s.mem.bigarrays))

  closed_waited : close_handle s.fresh_handle waited ≡ ok tt (record waited { handles = s.handles })
  unfolding close_handle remove
  closed_waited = ground arith

  closed_after :
      close_handle s.fresh_handle (record after { handles = s.fresh_handle ∷ s.handles })
      ≡ ok tt after
  unfolding close_handle remove
  closed_after = ground arith

  thread_closed :
      close_handle (suc s.fresh_handle) (record s {
        handles = suc s.fresh_handle ∷ s.fresh_handle ∷ s.handles;
        fresh_handle = suc (suc s.fresh_handle);
      })
      ≡ ok tt running
  unfolding close_handle remove
  thread_closed = ground arith

  -- What both jobs give when they have closed the handle.
  abbrev answer_of : Sys ℕ → M Machine ℤ
  answer_of r = elim r [
    | failed e ↦ map_raise kernel e "GetExitCodeProcess"
    | done code ↦ pure (val_int kernel code)
  ]

  Exits-answer_of : (pid : ℕ) (r : Sys ℕ) → Exits (done pid) r (answer_of r after)
  unfolding map_raise
  Exits-answer_of pid (done code) = refl
  Exits-answer_of pid (failed e) = refl

  wait_end :
      result_wait kernel s.mem.fresh s.fresh_handle waited
      ≡ answer_of (exit_code s.fresh_handle) after
  unfolding result_wait
  wait_end =
      bind_ok (get_exit_code kernel s.fresh_handle)
        (λ answer.
          close_handle s.fresh_handle >> (on_mem (free_job s.mem.fresh) >> answer_of answer))
        waited (exit_code_of_ended waited.mem waited.handles)
        (bind_ok (close_handle s.fresh_handle)
          (λ _. on_mem (free_job s.mem.fresh) >> answer_of (exit_code s.fresh_handle)) waited
          closed_waited
          (bind_ok (on_mem (free_job s.mem.fresh)) (λ _. answer_of (exit_code s.fresh_handle))
            (record waited { handles = s.handles }) (freed s.handles) refl))

  system_end :
      result_system kernel s.mem.fresh s.fresh_handle waited
      ≡ answer_of (exit_code s.fresh_handle) after
  unfolding result_system
  system_end =
      bind_ok (on_mem (free_job s.mem.fresh))
        (λ _. get_exit_code kernel s.fresh_handle >>= λ answer.
          close_handle s.fresh_handle >> answer_of answer)
        waited (freed waited.handles)
        (bind_ok (get_exit_code kernel s.fresh_handle)
          (λ answer. close_handle s.fresh_handle >> answer_of answer)
          (record after { handles = s.fresh_handle ∷ s.handles })
          (exit_code_of_ended after.mem waited.handles)
          (bind_ok (close_handle s.fresh_handle) (λ _. answer_of (exit_code s.fresh_handle))
            (record after { handles = s.fresh_handle ∷ s.handles }) closed_after refl))

  Exits-wait :
      (pid : ℕ)
      → Exits (done pid) (exit_code s.fresh_handle) (wait_job kernel s.fresh_handle method running)
  unfolding wait_job
  Exits-wait pid =
      subst (Exits (done pid) (exit_code s.fresh_handle))
        (sym (started (result_wait kernel) wait_end))
        (Exits-answer_of pid (exit_code s.fresh_handle))

  Exits-system :
      (pid : ℕ)
      → Exits
          (done pid)
          (exit_code s.fresh_handle)
          (waiting_job (result_system kernel) s.fresh_handle method running)
  Exits-system pid =
      subst (Exits (done pid) (exit_code s.fresh_handle))
        (sym (started (result_system kernel) system_end))
        (Exits-answer_of pid (exit_code s.fresh_handle))

  -- What `CreateProcess` and the closing of the handle of the thread leave.
  created :
      (prog : Option String) (cmdline : String) (env : Option String) (si : Option Startup)
      (k : ℕ → ℕ → M Machine ℤ) (r exit : Sys ℕ)
      → create_process prog cmdline env si ≡ r
      → ((pid : ℕ) → r ≡ done pid → Exits (done pid) exit (k pid s.fresh_handle running))
      → Exits r exit
          ((new_process kernel prog cmdline env si >>= λ p. close_handle p.2 >> k p.0 p.1) s)
  unfolding new_process open_handle map_raise
  created prog cmdline env si k (failed e') exit e h = rw (e, new_process) refl
  created prog cmdline env si k (done pid) exit e h =
      subst (Exits (done pid) exit)
        (sym (
          rw (e, new_process)
            (bind_ok (close_handle (suc s.fresh_handle)) (λ _. k pid s.fresh_handle)
              (record s {
                handles = suc s.fresh_handle ∷ s.fresh_handle ∷ s.handles;
                fresh_handle = suc (suc s.fresh_handle);
              })
              thread_closed refl)))
        (h pid refl)

  -- A process that is created and waited for, by the job system, or by
  -- `lwt_process_create_process` with standard handles that are files or none and then the job
  -- wait: if it cannot be created the error is raised and nothing has changed. Else the process has
  -- ended, and the exit code that it has then is returned, as an integer of OCaml, or the error of
  -- `GetExitCodeProcess` is raised; every handle that was opened is closed, and the block of the job
  -- and its mutex are gone.
  pub process-Exits :
      (prog : Option String) (cmdline : String) (env : Option String) (i o e : Option ℕ)
      → Exits
          (create_process none cmdline none none)
          (exit_code s.fresh_handle)
          (system_job kernel cmdline method s)
        × Exits
            (create_process prog cmdline env
              (some (record { std_input = i; std_output = o; std_error = e })))
            (exit_code s.fresh_handle)
            ((lwt_process_create_process kernel prog cmdline env (file i) (file o) (file e) >>= λ p.
                wait_job kernel p.1 method)
              s)
  unfolding system_job lwt_process_create_process close_handle
  process-Exits prog cmdline env i o e = (
    created none cmdline none none
        (λ pid process. waiting_job (result_system kernel) process method)
        (create_process none cmdline none none) (exit_code s.fresh_handle) refl
        (λ pid h. Exits-system pid),
    rw (get_handle-file kernel i, get_handle-file kernel o, get_handle-file kernel e)
        (subst
          (Exits
            (create_process prog cmdline env
              (some (record { std_input = i; std_output = o; std_error = e })))
            (exit_code s.fresh_handle))
          (sym (
            bind_assoc
              (new_process kernel prog cmdline env
                (some (record { std_input = i; std_output = o; std_error = e })))
              (λ p. close_handle p.2 >> pure (val_int kernel p.0, p.1))
              (λ p. wait_job kernel p.1 method) s))
          (created prog cmdline env (some (record { std_input = i; std_output = o; std_error = e }))
            (λ pid process. wait_job kernel process method)
            (create_process prog cmdline env
              (some (record { std_input = i; std_output = o; std_error = e })))
            (exit_code s.fresh_handle) refl (λ pid h. Exits-wait pid))),
  )
