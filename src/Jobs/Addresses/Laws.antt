-- ===== src/Jobs/Addresses/Laws.antt =====
-- What the jobs getaddrinfo and getnameinfo return, and what they leave in memory.
use Prim.Native.String.{String}
use mathlib.Core.List.{reverse, reverse-cons}
use lwt_old.Base.{
  ℕ, ◌≡◌, refl, List, [], ◌∷◌, ◌++◌, map, Option, none, some, ap, append_assoc, append-nil, ◌∙◌,
}
use lwt_old.Base.Outcome.{Run, ok, raised, not_found, raise, pure}
use lwt_old.Jobs.{Mem, AsyncMethod}
use lwt_old.Jobs.Balance.{allocated, prepared, ended, held, free_job_then, life_lem}
use lwt_old.Jobs.Addresses.{
  Addrinfo, AddrInfo, Resolver, convert_addrinfo, collect_addrinfo, set_hints, no_hints, node_arg,
  getaddrinfo_job, result_getaddrinfo, worker_getaddrinfo, getnameinfo_job, result_getnameinfo,
  Hint,
}

-- What getnameinfo does by the answer.
abbrev Named : AsyncMethod → Mem → Option (String × String) → Run Mem (String × String) → Type 0
Named method m (some names) r = r ≡ ok names (prepared method m.fresh (allocated m))
Named method m none r = r ≡ raised not_found (ended method m)

module _ (resolver : Resolver) where
  open resolver use {getaddrinfo, getnameinfo}

  collect-reverse :
      (info : List Addrinfo) (vres : List AddrInfo)
      → collect_addrinfo resolver info vres ≡ reverse (map (convert_addrinfo resolver) info) ++ vres
  unfolding collect_addrinfo
  collect-reverse [] vres = refl
  collect-reverse (r ∷ info) vres =
      rw (collect-reverse info, reverse-cons (convert_addrinfo resolver r), append_assoc) refl

  converted : Option (List Addrinfo) → List AddrInfo
  converted info = elim info [ none ↦ [] | some list ↦ collect_addrinfo resolver list [] ]

  converted-reverse :
      (info : Option (List Addrinfo))
      → converted info
        ≡ (elim info [ none ↦ [] | some list ↦ reverse (map (convert_addrinfo resolver) list) ])
  unfolding converted
  converted-reverse none = refl
  converted-reverse (some list) =
      collect-reverse list [] ∙ append-nil (reverse (map (convert_addrinfo resolver) list))

  -- The job getaddrinfo returns the converted addresses in the reverse of the order in which the
  -- C library gives them, and no address where it fails; it never raises. The call gets the text
  -- of the node and of the service, or the null pointer for one that is empty, and the hints in
  -- which a later one takes the place of an earlier one. The job is freed.
  getaddrinfo_job-reverse :
      (node service : List ℕ) (hints : List Hint) (method : AsyncMethod) (m : Mem)
      → getaddrinfo_job resolver node service hints method m
        ≡ ok
            (elim (getaddrinfo
              (node_arg resolver node)
              (node_arg resolver service)
              (set_hints resolver hints (no_hints resolver))) [
                | none ↦ []
                | some info ↦ reverse (map (convert_addrinfo resolver) info)
              ])
            (ended method m)
  unfolding getaddrinfo_job worker_getaddrinfo result_getaddrinfo converted
  getaddrinfo_job-reverse node service hints method m =
      let answer =
        getaddrinfo (node_arg resolver node) (node_arg resolver service)
          (set_hints resolver hints (no_hints resolver)) in
      life_lem _ _ _ method m refl refl (
        free_job_then method m.fresh m _ (pure (converted answer))
          (held method m m.roots m.strings m.bigarrays) refl)
      ∙ ap (λ r. ok r (ended method m)) (converted-reverse answer)

  getnameinfo_at :
      (addr : List ℕ) (opts : ℕ) (method : AsyncMethod) (m : Mem)
      (answer : Option (String × String))
      → getnameinfo addr opts ≡ answer
      → Named method m answer (getnameinfo_job resolver addr opts method m)
  unfolding getnameinfo_job result_getnameinfo
  getnameinfo_at addr opts method m (some names) h = life_lem _ _ _ method m refl refl (rw h refl)
  getnameinfo_at addr opts method m none h = life_lem _ _ _ method m refl refl (
      rw h (
        free_job_then method m.fresh m _ (raise not_found)
          (held method m m.roots m.strings m.bigarrays) refl))

  -- On success the job getnameinfo returns both names and leaks its block and its mutex; if the
  -- lookup fails it raises `Not_found` and frees them.
  getnameinfo_job-Gives :
      (addr : List ℕ) (opts : ℕ) (method : AsyncMethod) (m : Mem)
      → Named method m (getnameinfo addr opts) (getnameinfo_job resolver addr opts method m)
  getnameinfo_job-Gives addr opts method m =
      getnameinfo_at addr opts method m (getnameinfo addr opts) refl
