-- ===== src/Jobs/Lock/Laws.antt =====
-- The commands F_TEST and F_TLOCK of the job lockf, next to each other.
use lwt_old.Base.{ℕ, ◌≡◌, ◌≢◌, refl, ap, subst, ◌∙◌, arith}
use lwt_old.Base.Int.{ℤ, pos, negsuc, ◌+ℤ◌}
use lwt_old.Base.Outcome.{Sys, done, failed, ok, raised, unix_error, pure}
use lwt_old.Jobs.{Mem, AsyncMethod}
use lwt_old.Jobs.Balance.{Ends, ended, life-finish}
use lwt_old.Jobs.Lock.{
  LockType, f_unlck, f_rdlck, f_wrlck, f_setlk, f_getlk, Flock, Kernel, start_of, length_of,
  result_of, tested, worker_lockf, result_lockf, lockf_job,
}

-- The region from the position in the file on or, for a negative length, up to it, to be written.
abbrev region : ℤ → Flock
region length = record { l_type = f_wrlck; l_start = start_of length; l_len = length_of length }

-- The end of the region, counted from the position in the file.
abbrev end_of : ℤ → ℤ
end_of (pos n) = pos n
end_of (negsuc n) = pos 0

-- What POSIX says of F_GETLK where F_SETLK answers as given: it leaves F_UNLCK in the struct where
-- the lock can be had, and else a lock that is in the way.
abbrev Tells : Sys LockType → Sys LockType → Type 0
Tells (done l) r = r ≡ done f_unlck
Tells (failed e) r = (t : LockType) × (t ≢ f_unlck) × (r ≡ done t)

region_lem : (length : ℤ) → start_of length +ℤ length_of length ≡ end_of length
unfolding ◌+ℤ◌ start_of length_of
region_lem (pos n) = ground arith
region_lem (negsuc n) = ground arith

blocked : (unset : ℕ) (t : LockType) → t ≢ f_unlck → tested unset (done t) ≡ failed 13
unfolding tested
blocked unset f_unlck h = absurd (h refl)
blocked unset f_rdlck h = refl
blocked unset f_wrlck h = refl

module _ (kernel : Kernel) (fd : ℕ) (length : ℤ) (method : AsyncMethod) (m : Mem) where
  open kernel use {fcntl, unset}

  abbrev Locks : ℕ → Sys (Unit {0}) → Type 0
  Locks command r =
      Ends r (λ u. ok u (ended method m)) (λ e. raised (unix_error e "lockf" "") (ended method m))
        (lockf_job kernel fd command length method m)

  lockf_lem :
      (command : ℕ) {r : Sys (Unit {0})}
      → worker_lockf kernel fd command length ≡ r
      → Locks command r
  unfolding lockf_job result_lockf
  lockf_lem command h = subst (Locks command) h (
      life-finish "lockf" "" (λ u. u) (λ r. r) (λ job. pure (failed unset))
        (λ j. pure (worker_lockf kernel fd command length)) method m refl refl)

  tlock_lem : worker_lockf kernel fd 2 length ≡ result_of (fcntl fd f_setlk (region length))
  unfolding worker_lockf
  tlock_lem = refl

  test_lem : worker_lockf kernel fd 3 length ≡ tested unset (fcntl fd f_getlk (region length))
  unfolding worker_lockf
  test_lem = refl

  tlock_at :
      (s : Sys LockType)
      → fcntl fd f_setlk (region length) ≡ s
      → Ends s
          (λ l. ok tt (ended method m))
          (λ e. raised (unix_error e "lockf" "") (ended method m))
          (lockf_job kernel fd 2 length method m)
  unfolding result_of
  tlock_at (done l) h = lockf_lem 2 (tlock_lem ∙ ap result_of h)
  tlock_at (failed e) h = lockf_lem 2 (tlock_lem ∙ ap result_of h)

  test_at :
      (s : Sys LockType)
      → Tells s (fcntl fd f_getlk (region length))
      → Ends s
          (λ l. ok tt (ended method m))
          (λ e. raised (unix_error 13 "lockf" "") (ended method m))
          (lockf_job kernel fd 3 length method m)
  unfolding tested
  test_at (done l) h = lockf_lem 3 (test_lem ∙ ap (tested unset) h)
  test_at (failed e) (t, other, h) =
      lockf_lem 3 (test_lem ∙ ap (tested unset) h ∙ blocked unset t other)

  -- Where F_GETLK tells what F_SETLK would answer for the region: the region is from the position
  -- in the file to the length, in whichever direction; the job with F_TLOCK takes the lock or raises
  -- the kernel's error; with F_TEST it returns in just the case where F_TLOCK would, and else raises
  -- EACCES. Both free their block and their mutex.
  lockf_job-Tells :
      Tells (fcntl fd f_setlk (region length)) (fcntl fd f_getlk (region length))
      → (start_of length +ℤ length_of length ≡ end_of length)
        × Ends
            (fcntl fd f_setlk (region length))
            (λ l. ok tt (ended method m))
            (λ e. raised (unix_error e "lockf" "") (ended method m))
            (lockf_job kernel fd 2 length method m)
        × Ends
            (fcntl fd f_setlk (region length))
            (λ l. ok tt (ended method m))
            (λ e. raised (unix_error 13 "lockf" "") (ended method m))
            (lockf_job kernel fd 3 length method m)
  lockf_job-Tells tells = (region_lem length, tlock_at _ refl, test_at _ tells)
