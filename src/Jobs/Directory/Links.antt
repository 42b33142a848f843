-- ===== src/Jobs/Directory/Links.antt =====
-- The job readlink returns the whole target, however long.
use Prim.Native.String.{String}
use native.Mathlib.Nat.{pow-suc}
use lwt_old.Base.{
  ℕ, zero, suc, ◌*◌, ◌^◌, ◌<◌, ◌≡◌, refl, ap, ◌≢◌, inl, inr, true, false, List, [], ◌∷◌, ◌++◌,
  arith, length, take, take_all, length-take, ltb, Bool-cases, lt→ltb, ltb→lt, update_self,
}
use lwt_old.Base.Outcome.{
  done, failed, unix_error, ok, raised, raise, undefined, bind_ok, bind_raised,
}
use lwt_old.Jobs.{Mem, AsyncMethod, free, malloc, check_job}
use lwt_old.Jobs.Balance.{allocated, prepared, ended, free-head, free_job_then, life_lem}
use lwt_old.Jobs.Directory.{
  Kernel, c_string, read_link, worker_readlink, result_readlink, readlink_job,
}

-- A text of C holds no 0.
abbrev pub NoNul : List ℕ → Type 0
NoNul [] = Unit {0}
NoNul (c ∷ bytes) = (c ≢ 0) × NoNul bytes

pub c_string-append : (bytes rest : List ℕ) → NoNul bytes → c_string (bytes ++ 0 ∷ rest) ≡ bytes
unfolding c_string
c_string-append [] rest h = refl
c_string-append (zero ∷ bytes) rest h = absurd (h.0 refl)
c_string-append (suc c ∷ bytes) rest h = ap (λ r. suc c ∷ r) (c_string-append bytes rest h.1)

module _ (kernel : Kernel) where
  open kernel use {readlink}

  abbrev Stops : ℕ → String → List ℕ → ℕ → Mem → Type 0
  Stops fuel name target size m =
      (a : ℕ) × (read_link kernel fuel name size m
        ≡ ok (done (a, target ++ 0 ∷ [])) (record m { live = a ∷ m.live; fresh = suc a }))

  -- A buffer longer than the target holds all of it.
  fitting :
      (fuel : ℕ) (name : String) (target : List ℕ) (size : ℕ) (m : Mem)
      → readlink name size ≡ done (take size target)
      → length target < size
      → Stops (suc fuel) name target size m
  unfolding read_link malloc
  fitting fuel name target size m law h =
      (m.fresh, rw (law, take_all size target (omega arith), lt→ltb _ _ h) refl)

  -- One that the target fills is freed, and a buffer of twice the size is tried.
  doubling :
      (fuel : ℕ) (name : String) (target : List ℕ) (size : ℕ) (m : Mem)
      → readlink name size ≡ done (take size target)
      → ltb (length target) size ≡ false
      → Stops fuel name target (size * 2) (record m { fresh = suc m.fresh })
      → Stops (suc fuel) name target size m
  unfolding read_link malloc
  doubling fuel name target size m law h (a, e) =
      let full : ltb (length (take size target)) size ≡ false =
        ground (arith, length-take size target) in
      (
        a,
        rw (law, full)
            (bind_ok (free m.fresh) _ (allocated m) (free-head m.fresh m.live (allocated m) refl)
              e),
      )

  -- The loop stops at the first buffer that is longer than the target, and holds only that one.
  read_link-Stops :
      (fuel : ℕ) (name : String) (target : List ℕ) (size : ℕ) (m : Mem)
      → ((n : ℕ) → readlink name n ≡ done (take n target))
      → length target < size * 2 ^ fuel
      → Stops (suc fuel) name target size m
  read_link-Stops zero name target size m law h =
      fitting zero name target size m (law size) (omega arith)
  read_link-Stops (suc fuel) name target size m law h =
      elim (Bool-cases (ltb (length target) size)) [
        | inl fits ↦
            fitting (suc fuel) name target size m (law size) (ltb→lt (length target) size fits)
        | inr full ↦ doubling (suc fuel) name target size m (law size) full (
            read_link-Stops fuel name target (size * 2) (record m { fresh = suc m.fresh }) law
              (omega (arith, h, ap (λ (t : ℕ). size * t) (pow-suc 2 fuel))))
      ]

  -- The job readlink returns the target of the link, whole, if `k + 1` buffers are tried and the
  -- target is shorter than `1024 * 2 ^ k` bytes, where the kernel stores as much of it as fits
  -- into a buffer. Every buffer, the job and its mutex are freed.
  pub readlink_job-target :
      (k : ℕ) (name : String) (target : List ℕ) (method : AsyncMethod) (m : Mem)
      → ((n : ℕ) → readlink name n ≡ done (take n target))
      → NoNul target
      → length target < 1024 * 2 ^ k
      → (a : ℕ) × (readlink_job kernel (suc k) name method m
          ≡ ok target (record (ended method m) { fresh = a }))
  unfolding readlink_job worker_readlink result_readlink
  readlink_job-target k name target method m law text h =
      let start : Mem = prepared method m.fresh (allocated m) in
      let (a, e) = read_link-Stops k name target 1024 start law h in
      (
        suc a,
        life_lem _ _ _ method m refl (bind_ok (read_link kernel (suc k) name 1024) _ _ e refl) (
            bind_ok (free a) _ _ (free-head a (m.fresh ∷ m.live) _ refl) (
              free_job_then method m.fresh m (record start { fresh = suc a }) _
                (record {
                  live = refl;
                  mutexes = refl;
                  async_method = update_self m.async_method m.fresh method;
                })
                (ap (λ t. ok t (record (ended method m) { fresh = suc a }))
                  (c_string-append target [] text)))),
      )

  refused :
      (k e : ℕ) (name : String) (size : ℕ) (m : Mem)
      → readlink name size ≡ failed e
      → read_link kernel (suc k) name size m ≡ ok (failed e) (record m { fresh = suc m.fresh })
  unfolding read_link malloc
  refused k e name size m law =
      rw law
        (bind_ok (free m.fresh) _ (allocated m) (free-head m.fresh m.live (allocated m) refl) refl)

  -- If the kernel fails at once, the job raises the error with the name of the link, and frees
  -- all it has allocated.
  readlink_job-failed :
      (k e : ℕ) (name : String) (method : AsyncMethod) (m : Mem)
      → readlink name 1024 ≡ failed e
      → readlink_job kernel (suc k) name method m
        ≡ raised
            (unix_error e "readlink" name)
            (record (ended method m) { fresh = suc (suc m.fresh) })
  unfolding readlink_job worker_readlink result_readlink check_job
  readlink_job-failed k e name method m law =
      let start : Mem = prepared method m.fresh (allocated m) in
      life_lem _ _ _ method m refl
        (bind_ok (read_link kernel (suc k) name 1024) _ start (refused k e name 1024 start law)
          refl)
        (bind_raised (check_job m.fresh true e "readlink" name) (λ _. undefined)
          (record start { fresh = suc (suc m.fresh) })
          (free_job_then method m.fresh m (record start { fresh = suc (suc m.fresh) })
            (raise {A = Unit {0}} (unix_error e "readlink" name))
            (record {
              live = refl;
              mutexes = refl;
              async_method = update_self m.async_method m.fresh method;
            })
            refl))
