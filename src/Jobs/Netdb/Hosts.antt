-- ===== src/Jobs/Netdb/Hosts.antt =====
-- What the jobs gethostbyname and gethostbyaddr return.
use Prim.Native.String.{String}
use lwt_old.Base.{ℕ, ◌≡◌, refl, sym, subst, List, Option, none, some}
use lwt_old.Base.Outcome.{Run, ok, raised, not_found, raise, pure}
use lwt_old.Jobs.{Mem, AsyncMethod}
use lwt_old.Jobs.Balance.{allocated, prepared, ended, held, free_job_then, life_lem}
use lwt_old.Jobs.Netdb.{
  Hostent, HostEntry, Resolver, alloc_host_entry, result_gethost, gethostbyname_job,
  gethostbyaddr_job,
}

-- What a job on hosts does by the answer.
abbrev Known : AsyncMethod → Mem → Option Hostent → Run Mem HostEntry → Type 0
Known method m (some e) r = r ≡ ok (alloc_host_entry e) (ended method m)
Known method m none r = r ≡ raised not_found (ended method m)

result_gethost-Known :
    (method : AsyncMethod) (m : Mem) (answer : Option Hostent)
    → Known method m answer (result_gethost m.fresh answer (prepared method m.fresh (allocated m)))
unfolding result_gethost
result_gethost-Known method m (some e) =
    free_job_then method m.fresh m _ (pure (alloc_host_entry e))
      (held method m m.roots m.strings m.bigarrays) refl
result_gethost-Known method m none =
    free_job_then method m.fresh m _ (raise not_found) (held method m m.roots m.strings m.bigarrays)
      refl

module _ (resolver : Resolver) where
  open resolver use {gethostbyname, gethostbyaddr}

  -- The jobs gethostbyname and gethostbyaddr return the converted entry of the host, or raise
  -- `Not_found` where there is none. Either way the job and its mutex are freed and nothing else
  -- in memory has changed.
  gethost_jobs-Known :
      (name : String) (addr : List ℕ) (method : AsyncMethod) (m : Mem)
      → Known method m (gethostbyname name) (gethostbyname_job resolver name method m)
        × Known method m (gethostbyaddr addr) (gethostbyaddr_job resolver addr method m)
  unfolding gethostbyname_job gethostbyaddr_job
  gethost_jobs-Known name addr method m = (
    subst (Known method m (gethostbyname name)) (sym (life_lem _ _ _ method m refl refl refl))
        (result_gethost-Known method m (gethostbyname name)),
    subst (Known method m (gethostbyaddr addr)) (sym (life_lem _ _ _ method m refl refl refl))
        (result_gethost-Known method m (gethostbyaddr addr)),
  )
