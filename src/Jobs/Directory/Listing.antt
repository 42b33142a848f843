-- ===== src/Jobs/Directory/Listing.antt =====
-- What readdir, readdir_n and closedir return, and what they leave in memory.
use Prim.Native.String.{String}
use lwt_old.Base.{ℕ, zero, suc, ◌≡◌, refl, false, List, [], ◌∷◌, ◌++◌, map, arith, ltb, update_self}
use lwt_old.Base.Outcome.{
  Sys, done, failed, unix_error, end_of_file, Run, ok, raised, M, ◌>>=◌, pure, bind_ok,
}
use lwt_old.Jobs.{Mem, AsyncMethod, free, free_job, malloc, check_job}
use lwt_old.Jobs.Balance.{
  allocated, prepared, ended, held, free-head, free_job_then, life_lem, with_mutex,
}
use lwt_old.Jobs.Directory.{
  Answer, entry, end, error, Kernel, worker_readdir, result_readdir, readdir_job, worker_closedir,
  result_closedir, closedir_job,
}
use lwt_old.Jobs.Directory.Blocks.{stack, Rising}

abbrev names : List (ℕ × String) → List String
names = map (λ x. x.1)

ltb-zero : (n : ℕ) → ltb n 0 ≡ false
ltb-zero n = ground arith

-- Nothing but the blocks and the next address differs.
pub record Kept (m m' : Mem) : Type 0 where
  pub mutexes : m'.mutexes ≡ m.mutexes
  pub async_method : m'.async_method ≡ m.async_method
  pub roots : m'.roots ≡ m.roots
  pub strings : m'.strings ≡ m.strings
  pub bigarrays : m'.bigarrays ≡ m.bigarrays

-- One more entry at the front of what is still read.
abbrev pub cons : String → Sys (List String) → Sys (List String)
cons name (failed e) = failed e
cons name (done ns) = done (name ∷ ns)

module _ (kernel : Kernel) where
  open kernel use {readdir_r, closedir}

  -- What `left` more calls give, from the `i`-th on: the names up to the end of the directory, or
  -- the first error.
  pub listing : ℕ → ℕ → ℕ → Sys (List String)
  listing dir zero i = done []
  listing dir (suc left) i = elim (readdir_r dir i) [
    | error e ↦ failed e
    | end ↦ done []
    | entry name ↦ cons name (listing dir left (suc i))
  ]

  abbrev Reads :
      List ℕ
      → ℕ
      → List (ℕ × String)
      → Mem
      → Sys (List String)
      → Run Mem (Sys (List (ℕ × String)))
      → Type 0
  Reads rest lo entries m (done ns) r =
      (entries' : List (ℕ × String)) × (m' : Mem) × (r ≡ ok (done entries') m')
      × (m'.live ≡ stack entries' rest)
      × Rising lo entries' m'.fresh
      × (names entries' ≡ names entries ++ ns)
      × Kept m m'
  Reads rest lo entries m (failed e) r =
      (m' : Mem) × (r ≡ ok (failed e) m') × (m'.live ≡ rest) × Kept m m'

  abbrev same :
      (m : Mem) (live : List ℕ) (fresh : ℕ) → Kept m (record m { live = live; fresh = fresh })
  same m live fresh = record {
    mutexes = refl;
    async_method = refl;
    roots = refl;
    strings = refl;
    bigarrays = refl;
  }

  -- By the answers of the directory.
  abbrev pub Lists : AsyncMethod → Mem → Sys (List String) → Run Mem (List String) → Type 0
  Lists method m (done ns) r =
      (m' : Mem) × (r ≡ ok ns m')
      × (m'.live ≡ m.fresh ∷ m.live)
      × (m'.mutexes ≡ with_mutex method m.fresh m.mutexes)
      × (m'.roots ≡ m.roots)
  Lists method m (failed e) r =
      (m' : Mem) × (r ≡ raised (unix_error e "readdir" "") m')
      × (m'.live ≡ m.live)
      × (m'.mutexes ≡ m.mutexes)
      × (m'.roots ≡ m.roots)

  abbrev start : AsyncMethod → Mem → Mem
  start method m = prepared method m.fresh (allocated m)

  -- What readdir does by the answer.
  abbrev Gives : AsyncMethod → Mem → Answer → Run Mem String → Type 0
  Gives method m (entry name) r =
      r ≡ ok name (record (ended method m) { fresh = suc (suc m.fresh) })
  Gives method m end r =
      r ≡ raised end_of_file (record (ended method m) { fresh = suc (suc m.fresh) })
  Gives method m (error e) r =
      r ≡ raised (unix_error e "readdir" "") (record (ended method m) { fresh = suc (suc m.fresh) })

  abbrev allocated' : AsyncMethod → Mem → Mem
  allocated' method m = record (start method m) {
    live = suc m.fresh ∷ m.fresh ∷ m.live;
    fresh = suc (suc m.fresh);
  }

  -- After `free` of the entry the job is freed and the rest follows.
  after_free :
      {A : Type 0} (method : AsyncMethod) (m : Mem) (k : M Mem A) {r : Run Mem A}
      → k (record (ended method m) { fresh = suc (suc m.fresh) }) ≡ r
      → (free (suc m.fresh) >>= λ _. free_job m.fresh >>= λ _. k) (allocated' method m) ≡ r
  after_free method m k e =
      bind_ok (free (suc m.fresh)) _ _ (free-head (suc m.fresh) (m.fresh ∷ m.live) _ refl) (
        free_job_then method m.fresh m (record (start method m) { fresh = suc (suc m.fresh) }) k
          (record {
            live = refl;
            mutexes = refl;
            async_method = update_self m.async_method m.fresh method;
          })
          e)

  readdir_at :
      (dir : ℕ) (method : AsyncMethod) (m : Mem) (a : Answer)
      → readdir_r dir 0 ≡ a
      → Gives method m a (readdir_job kernel dir method m)
  unfolding readdir_job worker_readdir result_readdir malloc
  readdir_at dir method m (error e) q =
      life_lem _ _ _ method m refl refl (rw q (after_free method m _ refl))
  readdir_at dir method m end q =
      life_lem _ _ _ method m refl refl (rw q (after_free method m _ refl))
  readdir_at dir method m (entry name) q =
      life_lem _ _ _ method m refl refl (rw q (after_free method m _ refl))

  -- The job readdir returns the name that `readdir_r` gives, or raises `End_of_file` at the end
  -- of the directory and the error if there is one, and frees the entry and the job in all
  -- three cases.
  readdir_job-Gives :
      (dir : ℕ) (method : AsyncMethod) (m : Mem)
      → Gives method m (readdir_r dir 0) (readdir_job kernel dir method m)
  readdir_job-Gives dir method m = readdir_at dir method m (readdir_r dir 0) refl

  -- The job closedir returns and frees the job whatever the kernel answers: an error of
  -- `closedir` is never raised, since the test looks at the address of the directory.
  closedir_job-ok :
      (dir : ℕ) (method : AsyncMethod) (m : Mem)
      → closedir_job kernel dir method m ≡ ok tt (ended method m)
  unfolding closedir_job worker_closedir result_closedir check_job
  closedir_job-ok dir method m = life_lem _ _ _ method m refl refl (
      rw (ltb-zero dir) (
        free_job_then method m.fresh m _ (pure tt) (held method m m.roots m.strings m.bigarrays)
          refl))
