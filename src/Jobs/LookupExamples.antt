-- ===== src/Jobs/LookupExamples.antt =====
-- Tests of the jobs that look names and files up, and their theorems at concrete calls.
use Prim.Native.String.{String}
use lwt_old.Base.{ℕ, ◌<◌, ◌+◌, ◌*◌, ◌≡◌, ltb, refl, [], true, false, if◌then◌else◌, arith}
use lwt_old.Base.Int.{pos, negsuc}
use lwt_old.Base.Outcome.{fault}
use lwt_old.Jobs.{mem, Mem, synchronous, detach}
use lwt_old.Jobs.Netdb.{Lookup, too_small, error, get_entry_job}
use lwt_old.Jobs.Netdb.Entries.{IsFresh, get_entry_job-Finds}
use lwt_old.Jobs.Stat.{Stat, copy_stat}
use lwt_old.Jobs.Stat.Laws.{copy_stat-size}

abbrev empty : Mem
empty = record {
  live = [];
  fresh = 7;
  mutexes = [];
  async_method = λ job. synchronous;
  roots = [];
  strings = λ s. [];
  bigarrays = λ b. [];
}

empty-IsFresh : IsFresh empty
unfolding mem
empty-IsFresh a h = refl

-- A buffer of 1024 bytes is too small, and one of 2048 finds no server.
abbrev lookup : ℕ → Lookup String
lookup n = if ltb n 2000 then too_small else error 5

one_small : (i : ℕ) → i < 1 → lookup (1024 + i * 1024) ≡ too_small
one_small i h = ground arith

get_entry_job-Finds_example : get_entry_job lookup (λ name. name) 2 detach empty ≡ fault
get_entry_job-Finds_example =
    get_entry_job-Finds lookup (λ name. name) 1 detach empty empty-IsFresh one_small

-- A file of 2 ^ 30 bytes.
abbrev big : Stat ℕ
big = record {
  st_dev = 1;
  st_ino = 2;
  st_mode = 33188;
  st_nlink = 1;
  st_uid = 0;
  st_gid = 0;
  st_rdev = 0;
  st_size = 1073741824;
  st_atime = 5;
  st_mtime = 5;
  st_ctime = 5;
}

copy_stat-size_example :
    ((copy_stat (λ t. t) 32 true big).size ≡ pos 1073741824)
    × ((copy_stat (λ t. t) 32 false big).size ≡ negsuc 1073741823)
copy_stat-size_example = copy_stat-size big (omega arith)
