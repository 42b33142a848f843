-- ===== src/Calls/Affinity.antt =====
-- src/unix/lwt_unix_unix.c, `lwt_unix_get_affinity` and `lwt_unix_set_affinity`.
pub mod Order
use lwt_old.Base.{ℕ, zero, suc, Bool, true, false, List, [], ◌∷◌, ltb, if◌then◌else◌, update}
use lwt_old.Base.Outcome.{Sys, done, failed, M, pure, raise, unix_error}
use lwt_old.Jobs.{Mem}

-- `cpu_set_t`, with a truth value for each of its bits.
abbrev pub CpuSet : Type 0
CpuSet = ℕ → Bool

-- The number of its bits, `sizeof(cpu_set_t) * 8`, and the calls of the kernel.
pub record Kernel : Type 0 where
  pub bits : ℕ
  pub sched_getaffinity : ℕ → Sys CpuSet
  pub sched_setaffinity : ℕ → CpuSet → Sys (Unit {0})

-- The loop of `lwt_unix_get_affinity`, from the highest bit down.
pub cpu_list : ℕ → CpuSet → List ℕ → List ℕ
cpu_list zero cpus list = list
cpu_list (suc i) cpus list = cpu_list i cpus (if cpus i then i ∷ list else list)

-- `CPU_ZERO`, and `CPU_SET` for each number, which does nothing for one out of range.
pub cpu_set : ℕ → List ℕ → CpuSet → CpuSet
cpu_set bits [] cpus = cpus
cpu_set bits (i ∷ is) cpus = cpu_set bits is (if ltb i bits then update cpus i true else cpus)

module _ (kernel : Kernel) where
  open kernel use {bits, sched_getaffinity, sched_setaffinity}

  pub get_affinity : ℕ → M Mem (List ℕ)
  unfolding cpu_list
  get_affinity pid = elim (sched_getaffinity pid) [
    | failed e ↦ raise (unix_error e "sched_getaffinity" "")
    | done cpus ↦ pure (cpu_list bits cpus [])
  ]

  pub set_affinity : ℕ → List ℕ → M Mem (Unit {0})
  unfolding cpu_set
  set_affinity pid list = elim (sched_setaffinity pid (cpu_set bits list (λ i. false))) [
    | failed e ↦ raise (unix_error e "sched_setaffinity" "")
    | done u ↦ pure tt
  ]
