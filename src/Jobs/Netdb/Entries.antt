-- ===== src/Jobs/Netdb/Entries.antt =====
-- The loop of JOB_GET_ENTRY2 over the sizes of its buffer, and what its result does after it.
use lwt_old.Base.{
  ℕ, zero, suc, ◌+◌, ◌*◌, ◌<◌, ◌≤◌, ◌≡◌, refl, sym, subst, ◌∷◌, false, Option, none, some, arith,
  update_self,
}
use lwt_old.Base.Outcome.{Run, ok, raised, fault, not_found, raise, pure, bind_ok, bind_fault}
use lwt_old.Jobs.{Mem, AsyncMethod, mem, malloc, free}
use lwt_old.Jobs.Balance.{IsHeld, allocated, prepared, ended, free-head, free_job_then, life_lem}
use lwt_old.Jobs.Netdb.{
  Lookup, found, missing, too_small, error, get_entry, result_get_entry, get_entry_job,
}

module _ {E : Type 0} (lookup : ℕ → Lookup E) where
  -- The loop with a buffer that is not too small, the first free address being `a`.
  abbrev Stops : Lookup E → ℕ → Mem → Run Mem (ℕ × Option E) → Type 0
  Stops (found e) a m r = r ≡ ok (a, some e) (record m { live = a ∷ m.live; fresh = suc a })
  Stops missing a m r = r ≡ ok (a, none) (record m { live = a ∷ m.live; fresh = suc a })
  Stops too_small a m r = Unit {0}
  Stops (error e) a m r = r ≡ ok (a, none) (record m { fresh = suc a })

  stop_now :
      (fuel size : ℕ) (m : Mem) (answer : Lookup E)
      → lookup size ≡ answer
      → Stops answer m.fresh m (get_entry lookup (suc fuel) size m)
  unfolding get_entry malloc
  stop_now fuel size m (found e) h = rw h refl
  stop_now fuel size m missing h = rw h refl
  stop_now fuel size m too_small h = tt
  stop_now fuel size m (error e) h =
      rw h
        (bind_ok (free m.fresh) _ (allocated m) (free-head m.fresh m.live (allocated m) refl) refl)

  -- What the loop leaves does not depend on where the free addresses begin.
  forget_fresh :
      (answer : Lookup E) (a : ℕ) (m : Mem) (r : Run Mem (ℕ × Option E))
      → Stops answer a (record m { fresh = suc m.fresh }) r
      → Stops answer a m r
  forget_fresh (found e) a m r h = h
  forget_fresh missing a m r h = h
  forget_fresh too_small a m r h = h
  forget_fresh (error e) a m r h = h

  -- A buffer that is too small is freed.
  goes_on :
      (fuel size : ℕ) (m : Mem)
      → lookup size ≡ too_small
      → get_entry lookup (suc fuel) size m
        ≡ get_entry lookup fuel (size + 1024) (record m { fresh = suc m.fresh })
  unfolding get_entry malloc
  goes_on fuel size m h =
      rw h
        (bind_ok (free m.fresh) _ (allocated m) (free-head m.fresh m.live (allocated m) refl) refl)

  -- All buffers before the k-th, counted from 0, are too small and are freed.
  get_entry-Stops :
      (k size a : ℕ) (m : Mem) (answer : Lookup E)
      → ((i : ℕ) → i < k → lookup (size + i * 1024) ≡ too_small)
      → lookup (size + k * 1024) ≡ answer
      → a ≡ m.fresh + k
      → Stops answer a m (get_entry lookup (suc k) size m)
  get_entry-Stops zero size a m answer small h e =
      subst (λ b. Stops answer b m (get_entry lookup 1 size m)) (omega (arith, e))
        (stop_now 0 size m answer (subst (λ n. lookup n ≡ answer) (omega arith) h))
  get_entry-Stops (suc k) size a m answer small h e =
      subst (λ r. Stops answer a m r)
        (sym (
          goes_on (suc k) size m
            (subst (λ n. lookup n ≡ too_small) (omega arith) (small 0 (omega arith)))))
        (forget_fresh answer a m _ (
          get_entry-Stops k (size + 1024) a (record m { fresh = suc m.fresh }) answer
            (λ i l. subst (λ n. lookup n ≡ too_small) (omega arith) (small (suc i) (omega arith)))
            (subst (λ n. lookup n ≡ answer) (omega arith) h) (omega (arith, e))))

-- Memory where the addresses from the first free one on are not in use.
abbrev pub IsFresh : Mem → Type 0
IsFresh m = (a : ℕ) → m.fresh ≤ a → mem a m.live ≡ false

-- What a job of JOB_GET_ENTRY2 does by the answer that ended its loop, after `k` buffers that were
-- too small.
abbrev pub Finds : {E A : Type 0} → (E → A) → ℕ → AsyncMethod → Mem → Lookup E → Run Mem A → Type 0
Finds alloc k method m (found e) r =
    r ≡ ok (alloc e) (record (ended method m) { fresh = suc (suc m.fresh + k) })
Finds alloc k method m missing r =
    r ≡ raised not_found (record (ended method m) { fresh = suc (suc m.fresh + k) })
Finds alloc k method m too_small r = Unit {0}
Finds alloc k method m (error e) r = r ≡ fault

-- The address of the buffer that was freed is not in use, so its second `free` is undefined.
free-absent : (a : ℕ) (m : Mem) → mem a m.live ≡ false → free a m ≡ fault
unfolding free
free-absent a m h = ground arith

absent :
    (k : ℕ) (m : Mem)
    → mem (suc m.fresh + k) m.live ≡ false
    → mem (suc m.fresh + k) (m.fresh ∷ m.live) ≡ false
unfolding mem
absent k m h = ground arith

at_job :
    (k : ℕ) (method : AsyncMethod) (m : Mem)
    → IsHeld method m.fresh m
        (record (prepared method m.fresh (allocated m)) { fresh = suc (suc m.fresh + k) })
at_job k method m = record {
  live = refl;
  mutexes = refl;
  async_method = update_self m.async_method m.fresh method;
}

module _ {E A : Type 0} (lookup : ℕ → Lookup E) (alloc : E → A) where
  get_entry_at :
      (k : ℕ) (method : AsyncMethod) (m : Mem) (answer : Lookup E)
      → IsFresh m
      → Stops lookup answer
          (suc m.fresh + k)
          (prepared method m.fresh (allocated m))
          (get_entry lookup (suc k) 1024 (prepared method m.fresh (allocated m)))
      → Finds alloc k method m answer (get_entry_job lookup alloc (suc k) method m)
  unfolding get_entry_job result_get_entry
  get_entry_at k method m (found e) fresh h = life_lem _ _ _ method m refl h (
      bind_ok (free (suc m.fresh + k)) _ _ (free-head (suc m.fresh + k) (m.fresh ∷ m.live) _ refl)
        (free_job_then method m.fresh m _ (pure (alloc e)) (at_job k method m) refl))
  get_entry_at k method m missing fresh h = life_lem _ _ _ method m refl h (
      bind_ok (free (suc m.fresh + k)) _ _ (free-head (suc m.fresh + k) (m.fresh ∷ m.live) _ refl)
        (free_job_then method m.fresh m _ (raise not_found) (at_job k method m) refl))
  get_entry_at k method m too_small fresh h = tt
  get_entry_at k method m (error e) fresh h = life_lem _ _ _ method m refl h (
      bind_fault (free (suc m.fresh + k)) _ _
        (free-absent (suc m.fresh + k) _ (absent k m (fresh (suc m.fresh + k) (omega arith)))))

  -- A job of JOB_GET_ENTRY2 whose first `k` buffers are too small and whose `k + 1`-st is not, in
  -- a memory where no address from the first free one on is in use. If there is an entry the job
  -- returns it, if there is none it raises `Not_found`, and in both cases frees every buffer and
  -- itself. If the lookup fails with another error the buffer is freed a second time, which is
  -- undefined.
  pub get_entry_job-Finds :
      (k : ℕ) (method : AsyncMethod) (m : Mem)
      → IsFresh m
      → ((i : ℕ) → i < k → lookup (1024 + i * 1024) ≡ too_small)
      → Finds alloc k method m
          (lookup (1024 + k * 1024))
          (get_entry_job lookup alloc (suc k) method m)
  get_entry_job-Finds k method m fresh small =
      get_entry_at k method m (lookup (1024 + k * 1024)) fresh (
        get_entry-Stops lookup k 1024 (suc m.fresh + k) (prepared method m.fresh (allocated m))
          (lookup (1024 + k * 1024)) small refl refl)
