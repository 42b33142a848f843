-- ===== src/Jobs/Addresses.antt =====
-- src/unix/lwt_unix_unix.c, the jobs getaddrinfo and getnameinfo.
pub mod Laws
use Prim.Native.String.{String}
use lwt_old.Base.{
  ℕ, zero, suc, ◌+◌, List, [], ◌∷◌, Bool, true, false, if◌then◌else◌, ◌==◌, Option, none, some,
}
use lwt_old.Base.Outcome.{not_found, M, ◌>>=◌, ◌>>◌, pure, raise}
use lwt_old.Jobs.{Mem, AsyncMethod, free_job, life}

-- An element of the list that `getaddrinfo` makes.
pub record Addrinfo : Type 0 where
  pub ai_family : ℕ
  pub ai_socktype : ℕ
  pub ai_protocol : ℕ
  pub ai_addr : List ℕ
  pub ai_canonname : Option String

-- The flags are `AI_NUMERICHOST`, `AI_CANONNAME` and `AI_PASSIVE`.
pub record Hints : Type 0 where
  pub family : ℕ
  pub socktype : ℕ
  pub protocol : ℕ
  pub numerichost : Bool
  pub canonname : Bool
  pub passive : Bool

pub data Hint : Type 0 where
  ai_family ai_socktype ai_protocol : ℕ → Hint
  ai_numerichost ai_canonname ai_passive : Hint

-- The functions of the C library and the tables of the OCaml runtime. `none` is an answer that is
-- not 0.
pub record Resolver : Type 0 where
  pub pf_unspec : ℕ
  pub getaddrinfo : Option (List ℕ) → Option (List ℕ) → Hints → Option (List Addrinfo)
  pub getnameinfo : List ℕ → ℕ → Option (String × String)
  pub socket_domain_table : ℕ → ℕ
  pub socket_type_table : ℕ → ℕ

-- The record of OCaml.
pub record AddrInfo : Type 0 where
  pub domain : ℕ
  pub kind : ℕ
  pub protocol : ℕ
  pub addr : List ℕ
  pub canonname : String

-- `cst_to_constr`: the index of `n` in the first `size` places of a table, from `i` on.
pub cst_to_constr : ℕ → (ℕ → ℕ) → ℕ → ℕ → ℕ → ℕ
cst_to_constr n tbl zero i deflt = deflt
cst_to_constr n tbl (suc left) i deflt =
    let rest = cst_to_constr n tbl left (suc i) deflt in if n == tbl i then i else rest

module _ (resolver : Resolver) where
  open resolver use {pf_unspec, getaddrinfo, getnameinfo, socket_domain_table, socket_type_table}

  pub convert_addrinfo : Addrinfo → AddrInfo
  unfolding cst_to_constr
  convert_addrinfo a = record {
    domain = cst_to_constr a.ai_family socket_domain_table 3 0 0;
    kind = cst_to_constr a.ai_socktype socket_type_table 4 0 0;
    protocol = a.ai_protocol;
    addr = a.ai_addr;
    canonname = elim a.ai_canonname [ none ↦ "" | some name ↦ name ];
  }

  -- The loop over the hints: a later one takes the place of an earlier one of its kind.
  pub set_hints : List Hint → Hints → Hints
  set_hints [] h = h
  set_hints (ai_family n ∷ hints) h = set_hints hints (record h { family = socket_domain_table n })
  set_hints (ai_socktype n ∷ hints) h =
      set_hints hints (record h { socktype = socket_type_table n })
  set_hints (ai_protocol n ∷ hints) h = set_hints hints (record h { protocol = n })
  set_hints (ai_numerichost ∷ hints) h = set_hints hints (record h { numerichost = true })
  set_hints (ai_canonname ∷ hints) h = set_hints hints (record h { canonname = true })
  set_hints (ai_passive ∷ hints) h = set_hints hints (record h { passive = true })

  pub no_hints : Hints
  no_hints = record {
    family = pf_unspec;
    socktype = 0;
    protocol = 0;
    numerichost = false;
    canonname = false;
    passive = false;
  }

  -- The loop of `result_getaddrinfo`: each address is put before those that were converted.
  pub collect_addrinfo : List Addrinfo → List AddrInfo → List AddrInfo
  unfolding convert_addrinfo
  collect_addrinfo [] vres = vres
  collect_addrinfo (r ∷ info) vres = collect_addrinfo info (convert_addrinfo r ∷ vres)

  -- `job->node[0] ? job->node : NULL`, on the bytes before the terminating 0.
  pub node_arg : List ℕ → Option (List ℕ)
  node_arg [] = none
  node_arg (zero ∷ bytes) = none
  node_arg (suc c ∷ bytes) = some (suc c ∷ bytes)

  pub worker_getaddrinfo : List ℕ → List ℕ → Hints → M Mem (Option (List Addrinfo))
  unfolding node_arg
  worker_getaddrinfo node service hints =
      pure (getaddrinfo (node_arg node) (node_arg service) hints)

  -- `freeaddrinfo` gives back what `getaddrinfo` took, which is not among the blocks of `Mem`.
  pub result_getaddrinfo : ℕ → Option (List Addrinfo) → M Mem (List AddrInfo)
  unfolding collect_addrinfo
  result_getaddrinfo job info = do
    let vres : List AddrInfo = elim info [ none ↦ [] | some list ↦ collect_addrinfo list [] ]
    free_job job
    pure vres

  pub getaddrinfo_job : List ℕ → List ℕ → List Hint → AsyncMethod → M Mem (List AddrInfo)
  unfolding worker_getaddrinfo result_getaddrinfo set_hints no_hints
  getaddrinfo_job node service hints =
      life (λ job. pure none) (λ j. worker_getaddrinfo node service (set_hints hints no_hints))
        result_getaddrinfo

  -- On success the job is not freed.
  pub result_getnameinfo : ℕ → Option (String × String) → M Mem (String × String)
  result_getnameinfo job none = do free_job job; raise not_found
  result_getnameinfo job (some names) = pure names

  pub getnameinfo_job : List ℕ → ℕ → AsyncMethod → M Mem (String × String)
  unfolding result_getnameinfo
  getnameinfo_job addr opts =
      life (λ job. pure none) (λ j. pure (getnameinfo addr opts)) result_getnameinfo
