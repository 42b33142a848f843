-- ===== src/Windows/Process.antt =====
-- src/unix/lwt_process_stubs.c, and the jobs system and fsync and the stub is_socket of
-- src/unix/lwt_unix_windows.c.
pub mod Laws
mod Examples
use Prim.Native.String.{String}
use lwt_old.Base.{
  ℕ, suc, ◌+◌, ◌-◌, Bool, true, false, ◌==◌, if◌then◌else◌, Option, none, some, List, ◌∷◌,
}
use lwt_old.Base.Int.{ℤ}
use lwt_old.Base.Outcome.{
  Sys, done, failed, Run, ok, raised, fault, M, ◌>>=◌, ◌>>◌, pure, raise, modify, gets, unix_error,
  invalid_argument,
}
use lwt_old.Jobs.{Mem, AsyncMethod, malloc, prepare_job, free_job, mem, remove, life}
use lwt_old.Jobs.Stat.{wrap}
use lwt_old.Windows.{FileDescr, handle, socket}

-- Memory, the handles that are open, and those of processes that a thread has waited for, which
-- have ended.
pub record Machine : Type 0 where
  pub mem : Mem
  pub handles : List ℕ
  pub ended : List ℕ
  pub fresh_handle : ℕ

-- The standard handles of a process; `none` is INVALID_HANDLE_VALUE.
pub record Startup : Type 0 where
  pub std_input : Option ℕ
  pub std_output : Option ℕ
  pub std_error : Option ℕ

-- `create_process` gives the number of the process; `none` is a NULL. `invalid_handle` is
-- ERROR_INVALID_HANDLE, and `maperr` the error number into which `win32_maperr` turns one of
-- Windows. `exit_code` is the answer of `GetExitCodeProcess` for a process that has ended, and
-- `word` the number of bits of a word.
pub record Kernel : Type 0 where
  pub create_process : Option String → String → Option String → Option Startup → Sys ℕ
  pub exit_code : ℕ → Sys ℕ
  pub terminate_process : ℕ → ℕ → Sys (Unit {0})
  pub flush_file_buffers : ℕ → Sys (Unit {0})
  pub invalid_handle : ℕ
  pub maperr : ℕ → ℕ
  pub word : ℕ

abbrev pub on_mem : {A : Type 0} → M Mem A → M Machine A
on_mem f s = elim (f s.mem) [
  | ok a m ↦ ok a (record s { mem = m })
  | raised e m ↦ raised e (record s { mem = m })
  | fault ↦ fault
]

-- A new handle, of a process or of a thread.
pub open_handle : M Machine ℕ
open_handle s =
    ok s.fresh_handle
      (record s { handles = s.fresh_handle ∷ s.handles; fresh_handle = suc s.fresh_handle })

-- `CloseHandle`, whose answer is not looked at.
pub close_handle : ℕ → M Machine (Unit {0})
unfolding remove
close_handle h = modify (λ s. record s { handles = remove h s.handles })

pub is_socket : FileDescr → Bool
is_socket d = elim d.kind [ socket ↦ true | handle ↦ false ]

-- The code of a process that has not ended, STILL_ACTIVE.
pub still_active : ℕ
still_active = 259

-- `WaitForSingleObject` without a limit, whose answer is not looked at: where the handle is open it
-- returns when the process has ended.
pub wait_for_process : ℕ → M Machine (Unit {0})
unfolding mem
wait_for_process process =
    modify (λ s. if mem process s.handles then record s { ended = process ∷ s.ended } else s)

-- A job from its allocation to its result. Its worker waits for the process.
pub waiting_job : (ℕ → ℕ → M Machine ℤ) → ℕ → AsyncMethod → M Machine ℤ
unfolding wait_for_process
waiting_job result process method = do
  job ← on_mem malloc
  on_mem (prepare_job job method)
  wait_for_process process
  result job process

module _ (kernel : Kernel) where
  open kernel use {
    create_process, exit_code, terminate_process, flush_file_buffers, invalid_handle, maperr, word,
  }

  pub map_raise : {A : Type 0} → ℕ → String → M Machine A
  map_raise e name = raise (unix_error (maperr e) name "")

  -- `Val_int`, whose integers have one bit less than a word.
  pub val_int : ℕ → ℤ
  val_int n = wrap (word - 1) n

  -- `GetExitCodeProcess`
  pub get_exit_code : ℕ → M Machine (Sys ℕ)
  unfolding mem still_active
  get_exit_code process =
      gets (λ s. if mem process s.ended then exit_code process else done still_active)

  pub get_handle : Option FileDescr → M Machine (Option ℕ)
  unfolding map_raise
  get_handle none = pure none
  get_handle (some d) = elim d.kind [
    | socket ↦ map_raise invalid_handle "CreateProcess"
    | handle ↦ pure (some d.fd)
  ]

  -- `CreateProcess`, which opens a handle of the process and one of its thread, or an error.
  pub new_process : Option String → String → Option String → Option Startup → M Machine (ℕ × ℕ × ℕ)
  unfolding open_handle map_raise
  new_process prog cmdline env si = elim (create_process prog cmdline env si) [
    | failed e ↦ map_raise e "CreateProcess"
    | done pid ↦ (do process ← open_handle; thread ← open_handle; pure (pid, process, thread))
  ]

  -- The number of the process, and its handle.
  pub lwt_process_create_process :
      Option String
      → String
      → Option String
      → Option FileDescr
      → Option FileDescr
      → Option FileDescr
      → M Machine (ℤ × ℕ)
  unfolding get_handle new_process close_handle val_int
  lwt_process_create_process prog cmdline env fd0 fd1 fd2 = do
    std_input ← get_handle fd0
    std_output ← get_handle fd1
    std_error ← get_handle fd2
    process ←
        new_process prog cmdline env
          (some (record { std_input = std_input; std_output = std_output; std_error = std_error }))
    close_handle process.2
    pure (val_int process.0, process.1)

  pub result_wait : ℕ → ℕ → M Machine ℤ
  unfolding get_exit_code close_handle map_raise val_int
  result_wait job process = do
    answer ← get_exit_code process
    close_handle process
    on_mem (free_job job)
    elim answer [ failed e ↦ map_raise e "GetExitCodeProcess" | done code ↦ pure (val_int code) ]

  pub result_system : ℕ → ℕ → M Machine ℤ
  unfolding get_exit_code close_handle map_raise val_int
  result_system job process = do
    on_mem (free_job job)
    answer ← get_exit_code process
    close_handle process
    elim answer [ failed e ↦ map_raise e "GetExitCodeProcess" | done code ↦ pure (val_int code) ]

  pub wait_job : ℕ → AsyncMethod → M Machine ℤ
  unfolding waiting_job result_wait
  wait_job process method = waiting_job result_wait process method

  pub system_job : String → AsyncMethod → M Machine ℤ
  unfolding new_process close_handle waiting_job result_system
  system_job cmdline method = do
    process ← new_process none cmdline none none
    close_handle process.2
    waiting_job result_system process.1 method

  pub terminate : ℕ → ℕ → M Machine (Unit {0})
  unfolding map_raise
  terminate process code = elim (terminate_process process code) [
    | failed e ↦ map_raise e "TerminateProcess"
    | done u ↦ pure tt
  ]

  pub result_fsync : ℕ → Sys (Unit {0}) → M Mem (Unit {0})
  result_fsync job (failed e) =
      if e == 0
      then (do free_job job; pure tt)
      else (do free_job job; raise (unix_error (maperr e) "fsync" ""))
  result_fsync job (done u) = do free_job job; pure tt

  pub fsync_job : FileDescr → AsyncMethod → M Mem (Unit {0})
  unfolding result_fsync
  fsync_job d method = elim d.kind [
    | socket ↦ raise (invalid_argument "Lwt_unix.fsync")
    | handle ↦ life (λ job. pure (flush_file_buffers d.fd)) (λ j. pure j) result_fsync method
  ]
