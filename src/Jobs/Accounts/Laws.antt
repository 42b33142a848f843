-- ===== src/Jobs/Accounts/Laws.antt =====
-- What the jobs on users and groups return, and the name of the machine.
use Prim.Native.String.{String}
use native.Mathlib.Nat.{pow-suc}
use lwt_old.Base.{
  ℕ, zero, suc, ◌*◌, ◌^◌, ◌<◌, ◌≡◌, refl, ap, inl, inr, true, false, List, [], ◌∷◌, ◌++◌,
  append_assoc, ◌∙◌, arith, length, ltb, Bool-cases, lt→ltb, update_self, if◌then◌else◌, Option,
  none, some,
}
use lwt_old.Base.Outcome.{
  Sys, done, failed, unix_error, not_found, Run, ok, raised, raise, bind_ok, M, ◌>>=◌, pure,
}
use lwt_old.Jobs.{Mem, AsyncMethod, free, free_job, malloc}
use lwt_old.Jobs.Balance.{allocated, prepared, ended, free-head, free_job_then, life_lem}
use lwt_old.Jobs.Directory.{c_string}
use lwt_old.Jobs.Directory.Links.{NoNul, c_string-append}
use lwt_old.Jobs.Accounts.{
  Library, size_of, alloc_passwd_entry, alloc_group_entry, worker_entry, result_entry, entry_job,
  getpwnam_job, getgrnam_job, getpwuid_job, getgrgid_job, read_name, gethostname_job,
  worker_gethostname, result_gethostname,
}

-- A run of a job with a buffer: it ends as the lookup answered.
abbrev Found :
    {A B : Type 0} → String → String → (A → B) → Mem → Sys (Option A) → Run Mem B → Type 0
Found name arg convert m (failed e) r = r ≡ raised (unix_error e name arg) m
Found name arg convert m (done none) r = r ≡ raised not_found m
Found name arg convert m (done (some entry)) r = r ≡ ok (convert entry) m

module _ (method : AsyncMethod) (m : Mem) where
  -- The job has ended, and one block was allocated beside its own.
  abbrev pub after : Mem
  after = record (ended method m) { fresh = suc (suc m.fresh) }

  -- The job runs, and has the block at `a`.
  abbrev with_buffer : ℕ → Mem
  with_buffer a = record (prepared method m.fresh (allocated m)) {
    live = a ∷ m.fresh ∷ m.live;
    fresh = suc a;
  }

  -- The end of such a job: it frees the block, and itself.
  released :
      {A : Type 0} (a : ℕ) (k : M Mem A) {r : Run Mem A}
      → k (record (ended method m) { fresh = suc a }) ≡ r
      → (free a >>= λ _. free_job m.fresh >>= λ _. k) (with_buffer a) ≡ r
  released a k e =
      bind_ok (free a) _ (with_buffer a) (free-head a (m.fresh ∷ m.live) (with_buffer a) refl) (
        free_job_then method m.fresh m
          (record (prepared method m.fresh (allocated m)) { fresh = suc a }) k
          (record {
            live = refl;
            mutexes = refl;
            async_method = update_self m.async_method m.fresh method;
          })
          e)

  entry_job-Found :
      {A B : Type 0} (name arg : String) (convert : A → B) (size : Option ℕ)
      (lookup : ℕ → Sys (Option A)) (answer : Sys (Option A))
      → lookup (size_of size) ≡ answer
      → Found name arg convert after answer (entry_job name arg convert size lookup method m)
  unfolding entry_job worker_entry result_entry malloc
  entry_job-Found name arg convert size lookup (failed e) h =
      life_lem _ _ _ method m {j' = (suc m.fresh, failed e)} {m2 = with_buffer (suc m.fresh)} refl
        (ap (λ r. ok (suc m.fresh, r) (with_buffer (suc m.fresh))) h)
        (released (suc m.fresh) (raise (unix_error e name arg)) refl)
  entry_job-Found name arg convert size lookup (done none) h =
      life_lem _ _ _ method m {j' = (suc m.fresh, done none)} {m2 = with_buffer (suc m.fresh)} refl
        (ap (λ r. ok (suc m.fresh, r) (with_buffer (suc m.fresh))) h)
        (released (suc m.fresh) (raise not_found) refl)
  entry_job-Found name arg convert size lookup (done (some entry)) h =
      life_lem _ _ _ method m {j' = (suc m.fresh, done (some entry))}
        {m2 = with_buffer (suc m.fresh)} refl
        (ap (λ r. ok (suc m.fresh, r) (with_buffer (suc m.fresh))) h)
        (released (suc m.fresh) (pure (convert entry)) refl)

  module _ (library : Library) where
    open library use {
      passwd_size, group_size, getpwnam_r, getgrnam_r, getpwuid_r, getgrgid_r, gethostname,
    }

    -- The jobs getpwnam, getgrnam, getpwuid and getgrgid look up with the buffer size that sysconf
    -- gives, or with 16384 where it gives none. They return the converted entry, raise Not_found
    -- where there is none, or raise the error of the lookup, with the name if one was looked up.
    -- All free their buffer, their block and their mutex.
    account_jobs-Found :
        (name : String) (id : ℕ)
        → Found "getpwnam" name alloc_passwd_entry after
            (getpwnam_r name (size_of passwd_size))
            (getpwnam_job library name method m)
          × Found "getgrnam" name alloc_group_entry after
              (getgrnam_r name (size_of group_size))
              (getgrnam_job library name method m)
          × Found "getpwuid" "" alloc_passwd_entry after
              (getpwuid_r id (size_of passwd_size))
              (getpwuid_job library id method m)
          × Found "getgrgid" "" alloc_group_entry after
              (getgrgid_r id (size_of group_size))
              (getgrgid_job library id method m)
    unfolding getpwnam_job getgrnam_job getpwuid_job getgrgid_job
    account_jobs-Found name id = (
      entry_job-Found "getpwnam" name alloc_passwd_entry passwd_size (getpwnam_r name) _ refl,
      entry_job-Found "getgrnam" name alloc_group_entry group_size (getgrnam_r name) _ refl,
      entry_job-Found "getpwuid" "" alloc_passwd_entry passwd_size (getpwuid_r id) _ refl,
      entry_job-Found "getgrgid" "" alloc_group_entry group_size (getgrgid_r id) _ refl,
    )

module _ (library : Library) (name : List ℕ) (garbage : ℕ → List ℕ) where
  open library use {gethostname}

  -- The C library stores the name with a 0 behind it where it fits, and refuses other buffers.
  abbrev Answers : Type 0
  Answers =
      (n : ℕ)
      → gethostname n ≡ (if ltb (length name) n then done (name ++ 0 ∷ garbage n) else failed 36)

  abbrev Fits : ℕ → ℕ → Mem → Type 0
  Fits fuel size m =
      (a : ℕ) × (n : ℕ) × (read_name library fuel size m
        ≡ ok (done (a, (name ++ 0 ∷ garbage n) ++ 0 ∷ []))
            (record m { live = a ∷ m.live; fresh = suc a }))

  -- A buffer longer than the name holds it.
  roomy :
      (fuel size : ℕ) (m : Mem) → Answers → ltb (length name) size ≡ true → Fits (suc fuel) size m
  unfolding read_name malloc
  roomy fuel size m law h = (m.fresh, size, rw (law size, h) refl)

  -- Another is freed, and one of twice the size is tried.
  refused :
      (fuel size : ℕ) (m : Mem)
      → Answers
      → ltb (length name) size ≡ false
      → Fits fuel (size * 2) (record m { fresh = suc m.fresh })
      → Fits (suc fuel) size m
  unfolding read_name malloc
  refused fuel size m law h (a, n, e) = (
    a,
    n,
    rw (law size, h)
        (bind_ok (free m.fresh) _ (allocated m) (free-head m.fresh m.live (allocated m) refl) e),
  )

  read_name-Fits :
      (fuel size : ℕ) (m : Mem) → Answers → length name < size * 2 ^ fuel → Fits (suc fuel) size m
  read_name-Fits zero size m law h = roomy zero size m law (lt→ltb _ _ (omega arith))
  read_name-Fits (suc fuel) size m law h = elim (Bool-cases (ltb (length name) size)) [
    | inl fits ↦ roomy (suc fuel) size m law fits
    | inr full ↦ refused (suc fuel) size m law full (
        read_name-Fits fuel (size * 2) (record m { fresh = suc m.fresh }) law
          (omega (arith, h, ap (λ (t : ℕ). size * t) (pow-suc 2 fuel))))
  ]

  -- The job gethostname returns the name of the machine, whole, if `k + 1` buffers are tried and
  -- the name is shorter than `64 * 2 ^ k` bytes, where the C library stores a name that fits with
  -- a 0 behind it and else fails with ENAMETOOLONG. Every buffer, the job and its mutex are freed.
  gethostname_job-name :
      (k : ℕ) (method : AsyncMethod) (m : Mem)
      → Answers
      → NoNul name
      → length name < 64 * 2 ^ k
      → (a : ℕ) × (gethostname_job library (suc k) method m
          ≡ ok name (record (ended method m) { fresh = a }))
  unfolding gethostname_job worker_gethostname result_gethostname
  gethostname_job-name k method m law text h =
      let (a, n, e) = read_name-Fits k 64 (prepared method m.fresh (allocated m)) law h in
      (
        suc a,
        life_lem _ _ _ method m refl e (
            released method m a (pure (c_string ((name ++ 0 ∷ garbage n) ++ 0 ∷ []))) (
              ap (λ t. ok t (record (ended method m) { fresh = suc a }))
                (ap c_string (append_assoc name (0 ∷ garbage n) (0 ∷ []))
                  ∙ c_string-append name (garbage n ++ 0 ∷ []) text))),
      )
