-- ===== src/Windows/Calm.antt =====
-- Freeing a job raises no exception.
use lwt_old.Base.{ℕ, refl, sym, subst, Bool-cases, inl, inr}
use lwt_old.Base.Outcome.{Run, ok, raised, fault, bind_ok, bind_fault, ◌>>◌}
use lwt_old.Jobs.{
  Mem, AsyncMethod, free_job, free, mutex_destroy, release_job, mem, remove, synchronous, detach,
  switch,
}

-- The run raises nothing.
abbrev pub IsCalm : {A : Type 0} → Run Mem A → Type 0
IsCalm (ok a s) = Unit {0}
IsCalm fault = Unit {0}
IsCalm (raised e s) = ⊥

free-IsCalm : (a : ℕ) (m : Mem) → IsCalm (free a m)
unfolding free
free-IsCalm a m = elim (Bool-cases (mem a m.live)) [ inl e ↦ rw e tt | inr e ↦ rw e tt ]

destroyed : (job : ℕ) (m : Mem) → IsCalm ((mutex_destroy job >> free job) m)
unfolding mutex_destroy
destroyed job m = elim (Bool-cases (mem job m.mutexes)) [
  | inl e ↦
      let after : Mem = record m { mutexes = remove job m.mutexes } in
      subst IsCalm
        (sym (bind_ok (mutex_destroy job) (λ u. free job) m {s' = after} (rw e refl) refl))
        (free-IsCalm job after)
  | inr e ↦ subst IsCalm (sym (bind_fault (mutex_destroy job) (λ u. free job) m (rw e refl))) tt
]

released : (method : AsyncMethod) (job : ℕ) (m : Mem) → IsCalm (release_job method job m)
unfolding release_job
released synchronous job m = free-IsCalm job m
released detach job m = destroyed job m
released switch job m = destroyed job m

pub free_job-IsCalm : (job : ℕ) (m : Mem) → IsCalm (free_job job m)
unfolding free_job
free_job-IsCalm job m = released (m.async_method job) job m
