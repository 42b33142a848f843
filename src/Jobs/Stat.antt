-- ===== src/Jobs/Stat.antt =====
-- src/unix/lwt_unix_unix.c, the jobs stat, lstat and fstat with their variants for sizes of 64
-- bits, and isatty.
pub mod Laws
use Prim.Native.String.{String}
use lwt_old.Base.{
  ℕ, zero, suc, ◌+◌, ◌-◌, ◌/◌, ◌%◌, ◌^◌, Bool, true, false, if◌then◌else◌, ◌==◌, ltb,
}
use lwt_old.Base.Int.{ℤ, pos, negsuc}
use lwt_old.Base.Outcome.{Sys, done, failed, M, ◌>>=◌, ◌>>◌, pure}
use lwt_old.Jobs.{Mem, AsyncMethod, free_job, life, finish}

-- `struct stat` and the OCaml record, with times of these types.
pub record Stat (Time : Type 0) : Type 0 where
  pub st_dev : ℕ
  pub st_ino : ℕ
  pub st_mode : ℕ
  pub st_nlink : ℕ
  pub st_uid : ℕ
  pub st_gid : ℕ
  pub st_rdev : ℕ
  pub st_size : ℕ
  pub st_atime : Time
  pub st_mtime : Time
  pub st_ctime : Time

pub record Stats (Double : Type 0) : Type 0 where
  pub dev : ℤ
  pub ino : ℤ
  pub kind : ℕ
  pub perm : ℕ
  pub nlink : ℤ
  pub uid : ℤ
  pub gid : ℤ
  pub rdev : ℤ
  pub size : ℤ
  pub atime : Double
  pub mtime : Double
  pub ctime : Double

-- The kernel's answers; `isatty` gives its truth value.
pub record Kernel (Time : Type 0) : Type 0 where
  pub stat : String → Sys (Stat Time)
  pub lstat : String → Sys (Stat Time)
  pub fstat : ℕ → Sys (Stat Time)
  pub isatty : ℕ → Bool

-- The integer of `bits` bits in two's complement that a number becomes.
pub wrap : ℕ → ℕ → ℤ
wrap bits n =
    let r = n % 2 ^ bits in if ltb r (2 ^ (bits - 1)) then pos r else negsuc (2 ^ bits - r - 1)

-- The switch over `st_mode & S_IFMT`, with the values that Linux gives to the file types.
pub kind_of : ℕ → ℕ
kind_of mode =
    let t = mode / 4096 % 16 in
    if t == 8
    then 0
    else if t == 4
    then 1
    else if t == 2
    then 2
    else if t == 6
    then 3
    else if t == 10
    then 4
    else if t == 1
    then 5
    else if t == 12
    then 6
    else 0

-- `word` is the number of bits of a word, of which OCaml's integers have one less.
module _ {Time Double : Type 0} (copy_double : Time → Double) (word : ℕ) where
  pub copy_stat : Bool → Stat Time → Stats Double
  unfolding wrap kind_of
  copy_stat use_64 buf = record {
    dev = wrap (word - 1) buf.st_dev;
    ino = wrap (word - 1) buf.st_ino;
    kind = kind_of buf.st_mode;
    perm = buf.st_mode % 4096;
    nlink = wrap (word - 1) buf.st_nlink;
    uid = wrap (word - 1) buf.st_uid;
    gid = wrap (word - 1) buf.st_gid;
    rdev = wrap (word - 1) buf.st_rdev;
    size = if use_64 then wrap 64 buf.st_size else wrap (word - 1) buf.st_size;
    atime = copy_double buf.st_atime;
    mtime = copy_double buf.st_mtime;
    ctime = copy_double buf.st_ctime;
  }

  pub result_stat : String → ℕ → Sys (Stat Time) → M Mem (Stats Double)
  result_stat name = finish "stat" name (copy_stat false)

  pub result_stat_64 : String → ℕ → Sys (Stat Time) → M Mem (Stats Double)
  result_stat_64 name = finish "stat" name (copy_stat true)

  pub result_lstat : String → ℕ → Sys (Stat Time) → M Mem (Stats Double)
  result_lstat name = finish "lstat" name (copy_stat false)

  pub result_lstat_64 : String → ℕ → Sys (Stat Time) → M Mem (Stats Double)
  result_lstat_64 name = finish "lstat" name (copy_stat true)

  pub result_fstat : ℕ → Sys (Stat Time) → M Mem (Stats Double)
  result_fstat = finish "fstat" "" (copy_stat false)

  pub result_fstat_64 : ℕ → Sys (Stat Time) → M Mem (Stats Double)
  result_fstat_64 = finish "fstat" "" (copy_stat true)

  pub result_isatty : ℕ → Bool → M Mem Bool
  result_isatty job answer = do free_job job; pure answer

  module _ (kernel : Kernel Time) where
    pub stat_job : String → AsyncMethod → M Mem (Stats Double)
    unfolding result_stat
    stat_job name = life (λ job. pure (failed 0)) (λ j. pure (kernel.stat name)) (result_stat name)

    pub stat_64_job : String → AsyncMethod → M Mem (Stats Double)
    unfolding result_stat_64
    stat_64_job name =
        life (λ job. pure (failed 0)) (λ j. pure (kernel.stat name)) (result_stat_64 name)

    pub lstat_job : String → AsyncMethod → M Mem (Stats Double)
    unfolding result_lstat
    lstat_job name =
        life (λ job. pure (failed 0)) (λ j. pure (kernel.lstat name)) (result_lstat name)

    pub lstat_64_job : String → AsyncMethod → M Mem (Stats Double)
    unfolding result_lstat_64
    lstat_64_job name =
        life (λ job. pure (failed 0)) (λ j. pure (kernel.lstat name)) (result_lstat_64 name)

    pub fstat_job : ℕ → AsyncMethod → M Mem (Stats Double)
    unfolding result_fstat
    fstat_job fd = life (λ job. pure (failed 0)) (λ j. pure (kernel.fstat fd)) result_fstat

    pub fstat_64_job : ℕ → AsyncMethod → M Mem (Stats Double)
    unfolding result_fstat_64
    fstat_64_job fd = life (λ job. pure (failed 0)) (λ j. pure (kernel.fstat fd)) result_fstat_64

    pub isatty_job : ℕ → AsyncMethod → M Mem Bool
    unfolding result_isatty
    isatty_job fd = life (λ job. pure false) (λ j. pure (kernel.isatty fd)) result_isatty
