-- ===== src/Jobs/Stat/Laws.antt =====
-- What the jobs stat, lstat and fstat return.
use Prim.Native.String.{String}
use lwt_old.Base.{ℕ, ◌≡◌, refl, ◌-◌, ◌<◌, ltb, if◌then◌else◌, Bool, true, false, arith}
use lwt_old.Base.Int.{pos, negsuc}
use lwt_old.Base.Outcome.{Sys, failed, unix_error, Run, ok, raised, pure}
use lwt_old.Jobs.{Mem, AsyncMethod, life, finish}
use lwt_old.Jobs.Balance.{Ends, ended, life-finish}
use lwt_old.Jobs.Stat.{
  Stat, Stats, Kernel, copy_stat, stat_job, stat_64_job, lstat_job, lstat_64_job, fstat_job,
  fstat_64_job, result_stat, result_stat_64, result_lstat, result_lstat_64, result_fstat,
  result_fstat_64, wrap,
}

module _ {Time Double : Type 0} (copy_double : Time → Double) (word : ℕ) (kernel : Kernel Time)
    (method : AsyncMethod) (m : Mem) where
  -- By the kernel's answer the job returns the converted record, or raises the error.
  abbrev Stated : Bool → String → String → Sys (Stat Time) → Run Mem (Stats Double) → Type 0
  Stated wide name arg answer =
      Ends answer (λ s. ok (copy_stat copy_double word wide s) (ended method m))
        (λ e. raised (unix_error e name arg) (ended method m))

  stated :
      (wide : Bool) (name arg : String) (answer : Sys (Stat Time))
      → Stated wide name arg answer (
          life
            (λ job. pure (failed 0))
            (λ j. pure answer)
            (finish name arg (copy_stat copy_double word wide))
            method
            m)
  stated wide name arg answer =
      life-finish name arg (copy_stat copy_double word wide) (λ r. r) (λ job. pure (failed 0))
        (λ j. pure answer) method m refl refl

  -- The jobs stat, lstat and fstat return the converted record that the kernel gives or raise its
  -- error, stat and lstat with the name of the file; those for sizes of 64 bits do the same with
  -- the wide conversion. The job and its mutex are freed.
  stat_jobs-Stated :
      (name : String) (fd : ℕ)
      → Stated false "stat" name (kernel.stat name) (stat_job copy_double word kernel name method m)
        × Stated true "stat" name
            (kernel.stat name)
            (stat_64_job copy_double word kernel name method m)
        × Stated false "lstat" name
            (kernel.lstat name)
            (lstat_job copy_double word kernel name method m)
        × Stated true "lstat" name
            (kernel.lstat name)
            (lstat_64_job copy_double word kernel name method m)
        × Stated false "fstat" "" (kernel.fstat fd) (fstat_job copy_double word kernel fd method m)
        × Stated true "fstat" ""
            (kernel.fstat fd)
            (fstat_64_job copy_double word kernel fd method m)
  unfolding stat_job stat_64_job lstat_job lstat_64_job fstat_job fstat_64_job result_stat
      result_stat_64 result_lstat result_lstat_64 result_fstat result_fstat_64
  stat_jobs-Stated name fd = (
    stated false "stat" name (kernel.stat name),
    stated true "stat" name (kernel.stat name),
    stated false "lstat" name (kernel.lstat name),
    stated true "lstat" name (kernel.lstat name),
    stated false "fstat" "" (kernel.fstat fd),
    stated true "fstat" "" (kernel.fstat fd),
  )

-- On a machine of 32 bits, for a file shorter than 2 ^ 31 bytes: the conversion for 64 bits gives
-- its size, and the plain one gives it if it is below 2 ^ 30 and else a negative number.
pub copy_stat-size :
    {Time : Type 0} (s : Stat Time)
    → s.st_size < 2147483648
    → ((copy_stat (λ t. t) 32 true s).size ≡ pos s.st_size)
      × ((copy_stat (λ t. t) 32 false s).size
          ≡ (if ltb s.st_size 1073741824 then pos s.st_size else negsuc (2147483647 - s.st_size)))
unfolding copy_stat wrap
copy_stat-size s h = (ground arith, ground arith)
