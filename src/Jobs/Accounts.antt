-- ===== src/Jobs/Accounts.antt =====
-- src/unix/lwt_unix_unix.c, the jobs on users, groups and the machine: getlogin, those of
-- JOB_GET_ENTRY (getpwnam, getgrnam, getpwuid, getgrgid), and gethostname.
pub mod Laws
use Prim.Native.String.{String}
use lwt_old.Base.{
  ℕ, zero, suc, ◌*◌, ◌==◌, List, [], ◌∷◌, ◌++◌, if◌then◌else◌, true, Option, none, some,
}
use lwt_old.Base.Outcome.{
  Sys, done, failed, unix_error, not_found, M, ◌>>=◌, ◌>>◌, pure, raise, undefined,
}
use lwt_old.Jobs.{Mem, AsyncMethod, malloc, free, free_job, check_job, finish, life}
use lwt_old.Jobs.Directory.{c_string}

-- `struct passwd`
pub record Passwd : Type 0 where
  pub pw_name : List ℕ
  pub pw_passwd : List ℕ
  pub pw_uid : ℕ
  pub pw_gid : ℕ
  pub pw_gecos : List ℕ
  pub pw_dir : List ℕ
  pub pw_shell : List ℕ

-- The OCaml record, by its fields in their order.
abbrev pub PasswdEntry : Type 0
PasswdEntry = List ℕ × List ℕ × ℕ × ℕ × List ℕ × List ℕ × List ℕ

-- `struct group`
pub record Group : Type 0 where
  pub gr_name : List ℕ
  pub gr_passwd : List ℕ
  pub gr_gid : ℕ
  pub gr_mem : List (List ℕ)

abbrev pub GroupEntry : Type 0
GroupEntry = List ℕ × List ℕ × ℕ × List (List ℕ)

pub alloc_passwd_entry : Passwd → PasswdEntry
alloc_passwd_entry e =
    (e.pw_name, e.pw_passwd, e.pw_uid, e.pw_gid, e.pw_gecos, e.pw_dir, e.pw_shell)

pub alloc_group_entry : Group → GroupEntry
alloc_group_entry e = (e.gr_name, e.gr_passwd, e.gr_gid, e.gr_mem)

-- `getlogin_r` gives the bytes in a buffer of 1024, and `gethostname` those in a buffer of the size
-- it gets. A lookup of a buffer's size gives the entry, or none; `sysconf` may know no size.
pub record Library : Type 0 where
  pub getlogin_r : Sys (List ℕ)
  pub passwd_size : Option ℕ
  pub group_size : Option ℕ
  pub getpwnam_r : String → ℕ → Sys (Option Passwd)
  pub getgrnam_r : String → ℕ → Sys (Option Group)
  pub getpwuid_r : ℕ → ℕ → Sys (Option Passwd)
  pub getgrgid_r : ℕ → ℕ → Sys (Option Group)
  pub gethostname : ℕ → Sys (List ℕ)

abbrev pub size_of : Option ℕ → ℕ
size_of none = 16384
size_of (some n) = n

-- `worker_##FUNC`: the address of the buffer and the answer.
pub worker_entry : {A : Type 0} → Option ℕ → (ℕ → Sys (Option A)) → M Mem (ℕ × Sys (Option A))
worker_entry size lookup = do buffer ← malloc; pure (buffer, lookup (size_of size))

-- `result_##FUNC`
pub result_entry : {A B : Type 0} → String → String → (A → B) → ℕ → ℕ × Sys (Option A) → M Mem B
result_entry name arg convert job (buffer, failed e) = do
  free buffer
  free_job job
  raise (unix_error e name arg)
result_entry name arg convert job (buffer, done none) = do
  free buffer
  free_job job
  raise not_found
result_entry name arg convert job (buffer, done (some entry)) = do
  free buffer
  free_job job
  pure (convert entry)

-- JOB_GET_ENTRY
pub entry_job :
    {A B : Type 0}
    → String
    → String
    → (A → B)
    → Option ℕ
    → (ℕ → Sys (Option A))
    → AsyncMethod
    → M Mem B
unfolding worker_entry result_entry
entry_job name arg convert size lookup =
    life (λ job. pure (0, done none)) (λ j. worker_entry size lookup)
      (result_entry name arg convert)

module _ (library : Library) where
  open library use {
    getlogin_r, passwd_size, group_size, getpwnam_r, getgrnam_r, getpwuid_r, getgrgid_r,
    gethostname,
  }

  pub result_getlogin : ℕ → Sys (List ℕ) → M Mem (List ℕ)
  result_getlogin job outcome = finish "getlogin" "" c_string job outcome

  pub getlogin_job : AsyncMethod → M Mem (List ℕ)
  unfolding result_getlogin
  getlogin_job = life (λ job. pure (failed 0)) (λ j. pure getlogin_r) result_getlogin

  pub getpwnam_job : String → AsyncMethod → M Mem PasswdEntry
  unfolding entry_job
  getpwnam_job name = entry_job "getpwnam" name alloc_passwd_entry passwd_size (getpwnam_r name)

  pub getgrnam_job : String → AsyncMethod → M Mem GroupEntry
  unfolding entry_job
  getgrnam_job name = entry_job "getgrnam" name alloc_group_entry group_size (getgrnam_r name)

  pub getpwuid_job : ℕ → AsyncMethod → M Mem PasswdEntry
  unfolding entry_job
  getpwuid_job uid = entry_job "getpwuid" "" alloc_passwd_entry passwd_size (getpwuid_r uid)

  pub getgrgid_job : ℕ → AsyncMethod → M Mem GroupEntry
  unfolding entry_job
  getgrgid_job gid = entry_job "getgrgid" "" alloc_group_entry group_size (getgrgid_r gid)

  -- The loop of `worker_gethostname`, on fuel; ENAMETOOLONG is 36.
  pub read_name : ℕ → ℕ → M Mem (Sys (ℕ × List ℕ))
  read_name zero buffer_size = undefined
  read_name (suc fuel) buffer_size =
      let rest = read_name fuel (buffer_size * 2) in
      do
        buffer ← malloc
        elim (gethostname buffer_size) [
          | failed e ↦ (do free buffer; if e == 36 then rest else pure (failed e))
          | done bytes ↦ pure (done (buffer, bytes ++ 0 ∷ []))
        ]

  pub worker_gethostname : ℕ → M Mem (Sys (ℕ × List ℕ))
  unfolding read_name
  worker_gethostname fuel = read_name fuel 64

  pub result_gethostname : ℕ → Sys (ℕ × List ℕ) → M Mem (List ℕ)
  result_gethostname job (failed e) = do check_job job true e "gethostname" ""; undefined
  result_gethostname job (done (buffer, bytes)) = do
    free buffer
    free_job job
    pure (c_string bytes)

  pub gethostname_job : ℕ → AsyncMethod → M Mem (List ℕ)
  unfolding worker_gethostname result_gethostname
  gethostname_job fuel =
      life (λ job. pure (failed 0)) (λ j. worker_gethostname fuel) result_gethostname
