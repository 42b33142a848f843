-- ===== src/Calls/Pages/Resident.antt =====
-- Which pages are in memory.
use lwt_old.Base.{
  ℕ, zero, suc, [], ◌%◌, ◌==◌, ◌<◌, ◌≤◌, ◌≡◌, refl, Bool, le→leb, List, ◌∷◌, map, drop,
  length as measure, arith, append-nil,
}
use lwt_old.Base.Outcome.{done, failed, ok, pure}
use lwt_old.Jobs.{Mem, AsyncMethod}
use lwt_old.Jobs.Balance.{ended, allocated, prepared, held, life_lem, free_job_then}
use lwt_old.Calls.Pages.{
  Kernel, filled, lwt_mincore, worker_wait_mincore, result_wait_mincore, wait_mincore_job,
}

-- Whether the pages are in memory, by the lowest bit of their bytes.
abbrev pub resident : List ℕ → List Bool
resident = map (λ cell. cell % 2 == 1)

nothing_left : (xs : List ℕ) (n : ℕ) → measure xs ≤ n → drop n xs ≡ []
nothing_left [] zero h = refl
nothing_left [] (suc n) h = refl
nothing_left (x ∷ xs) zero h = absurd (omega (arith, h))
nothing_left (x ∷ xs) (suc n) h = nothing_left xs n (omega (arith, h))

module _ (kernel : Kernel) (m : Mem) (buffer offset length : ℕ) where
  open kernel use {mincore}

  -- Where there is a state for each page, mincore tells of each page whether it is in memory.
  mincore-resident :
      (vec pages : List ℕ)
      → mincore buffer offset length ≡ done pages
      → measure vec ≡ measure pages
      → lwt_mincore kernel buffer offset length vec m ≡ ok (resident pages) m
  unfolding lwt_mincore filled
  mincore-resident vec pages e same =
      rw (e, lwt_mincore, filled)
        (rw
          (
            le→leb (measure pages) (measure vec) (omega (arith, same)),
            nothing_left vec (measure pages) (omega (arith, same)),
            append-nil,
          )
          refl)

  -- Where the call fails, no error is raised, and the states are those of whatever was on the stack.
  mincore-failed :
      (vec : List ℕ) {e : ℕ}
      → mincore buffer offset length ≡ failed e
      → lwt_mincore kernel buffer offset length vec m ≡ ok (resident vec) m
  unfolding lwt_mincore filled
  mincore-failed vec e = rw (e, lwt_mincore, filled) refl

-- The job wait_mincore for a byte of the bigarray returns, and frees its block and its mutex.
wait_mincore_job-ended :
    (buffer offset : ℕ) (method : AsyncMethod) (m : Mem)
    → offset < measure (m.bigarrays buffer)
    → wait_mincore_job buffer offset method m ≡ ok tt (ended method m)
unfolding wait_mincore_job worker_wait_mincore result_wait_mincore
wait_mincore_job-ended buffer offset method m h =
    life_lem _ _ _ method m {j' = (buffer, offset)} {m2 = prepared method m.fresh (allocated m)}
      refl (rw (le→leb _ _ h) refl)
      (free_job_then method m.fresh m _ (pure tt) (held method m m.roots m.strings m.bigarrays)
        refl)
