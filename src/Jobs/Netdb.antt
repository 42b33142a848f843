-- ===== src/Jobs/Netdb.antt =====
-- src/unix/lwt_unix_unix.c, the jobs that look names up: gethostbyname, gethostbyaddr and
-- the four jobs of the macro JOB_GET_ENTRY2, where HAVE_NETDB_REENTRANT is defined.
pub mod Entries
pub mod Hosts
use Prim.Native.String.{String}
use lwt_old.Base.{
  ℕ, zero, suc, ◌+◌, List, [], ◌∷◌, map, take, Bool, true, false, if◌then◌else◌, ◌==◌, Option, none,
  some, update,
}
use lwt_old.Base.Outcome.{not_found, M, ◌>>=◌, ◌>>◌, pure, raise, undefined}
use lwt_old.Jobs.{Mem, AsyncMethod, malloc, free, free_job, life}

-- The fields of `struct hostent`; `pf_other` is any other address type.
pub data AddrType : Type 0 where
  pf_unix pf_inet : AddrType
  pf_other : ℕ → AddrType

pub record Hostent : Type 0 where
  pub h_name : String
  pub h_aliases : Option (List String)
  pub h_addrtype : AddrType
  pub h_length : ℕ
  pub h_addr_list : List (List ℕ)

pub record Protoent : Type 0 where
  pub p_name : String
  pub p_aliases : List String
  pub p_proto : ℕ

pub record Servent : Type 0 where
  pub s_name : String
  pub s_aliases : List String
  pub s_port : ℕ
  pub s_proto : String

-- What a function that ends in `_r` gives: 0 with an entry or with the null pointer, `ERANGE`, or
-- another error.
pub data Lookup (E : Type 0) : Type 0 where
  found : E → Lookup E
  missing : Lookup E
  too_small : Lookup E
  error : ℕ → Lookup E

-- The functions of the C library. `none` is the null pointer; the last argument of a function with
-- buffer is the size of the buffer.
pub record Resolver : Type 0 where
  pub gethostbyname : String → Option Hostent
  pub gethostbyaddr : List ℕ → Option Hostent
  pub getprotobyname : String → ℕ → Lookup Protoent
  pub getprotobynumber : ℕ → ℕ → Lookup Protoent
  pub getservbyname : String → String → ℕ → Lookup Servent
  pub getservbyport : ℕ → String → ℕ → Lookup Servent
  pub ntohs : ℕ → ℕ

-- The OCaml records: a host entry, a protocol and a service.
pub record HostEntry : Type 0 where
  pub name : String
  pub aliases : List String
  pub addrtype : ℕ
  pub addr_list : List (List ℕ)

pub addr_type : AddrType → ℕ
addr_type pf_unix = 0
addr_type pf_inet = 1
addr_type (pf_other n) = 2

-- `alloc_one_addr6` takes 16 bytes of an address, `alloc_one_addr` takes 4.
pub alloc_host_entry : Hostent → HostEntry
unfolding addr_type
alloc_host_entry e = record {
  name = e.h_name;
  aliases = elim e.h_aliases [ none ↦ [] | some names ↦ names ];
  addrtype = addr_type e.h_addrtype;
  addr_list = map (λ a. if e.h_length == 16 then take 16 a else take 4 a) e.h_addr_list;
}

pub alloc_protoent : Protoent → String × List String × ℕ
alloc_protoent e = (e.p_name, e.p_aliases, e.p_proto)

pub alloc_servent : (ℕ → ℕ) → Servent → String × List String × ℕ × String
alloc_servent ntohs e = (e.s_name, e.s_aliases, ntohs e.s_port, e.s_proto)

-- `result_gethostbyname` and `result_gethostbyaddr`, on the field `ptr`.
pub result_gethost : ℕ → Option Hostent → M Mem HostEntry
result_gethost job none = do free_job job; raise not_found
result_gethost job (some e) = do let entry = alloc_host_entry e; free_job job; pure entry

-- The loop of the worker of JOB_GET_ENTRY2, on fuel. It gives the fields `buffer` and `ptr`.
pub get_entry : {E : Type 0} → (ℕ → Lookup E) → ℕ → ℕ → M Mem (ℕ × Option E)
get_entry lookup zero size = undefined
get_entry lookup (suc fuel) size =
    let rest = get_entry lookup fuel (size + 1024) in
    do
      buffer ← malloc
      elim (lookup size) [
        | found e ↦ pure (buffer, some e)
        | missing ↦ pure (buffer, none)
        | too_small ↦ (do free buffer; rest)
        | error e ↦ (do free buffer; pure (buffer, none))
      ]

-- Its result.
pub result_get_entry : {E A : Type 0} → (E → A) → ℕ → ℕ × Option E → M Mem A
result_get_entry alloc job (buffer, none) = do free buffer; free_job job; raise not_found
result_get_entry alloc job (buffer, some e) = do
  let res = alloc e
  free buffer
  free_job job
  pure res

pub get_entry_job : {E A : Type 0} → (ℕ → Lookup E) → (E → A) → ℕ → AsyncMethod → M Mem A
unfolding get_entry result_get_entry
get_entry_job lookup alloc fuel =
    life (λ job. pure (0, none)) (λ j. get_entry lookup fuel 1024) (result_get_entry alloc)

module _ (resolver : Resolver) where
  open resolver use {
    gethostbyname, gethostbyaddr, getprotobyname, getprotobynumber, getservbyname, getservbyport,
    ntohs,
  }

  pub gethostbyname_job : String → AsyncMethod → M Mem HostEntry
  unfolding result_gethost
  gethostbyname_job name = life (λ job. pure none) (λ j. pure (gethostbyname name)) result_gethost

  pub gethostbyaddr_job : List ℕ → AsyncMethod → M Mem HostEntry
  unfolding result_gethost
  gethostbyaddr_job addr = life (λ job. pure none) (λ j. pure (gethostbyaddr addr)) result_gethost

  pub getprotobyname_job : ℕ → String → AsyncMethod → M Mem (String × List String × ℕ)
  unfolding get_entry_job alloc_protoent
  getprotobyname_job fuel name = get_entry_job (getprotobyname name) alloc_protoent fuel

  pub getprotobynumber_job : ℕ → ℕ → AsyncMethod → M Mem (String × List String × ℕ)
  unfolding get_entry_job alloc_protoent
  getprotobynumber_job fuel num = get_entry_job (getprotobynumber num) alloc_protoent fuel

  pub getservbyname_job :
      ℕ → String → String → AsyncMethod → M Mem (String × List String × ℕ × String)
  unfolding get_entry_job alloc_servent
  getservbyname_job fuel name proto =
      get_entry_job (getservbyname name proto) (alloc_servent ntohs) fuel

  pub getservbyport_job : ℕ → ℕ → String → AsyncMethod → M Mem (String × List String × ℕ × String)
  unfolding get_entry_job alloc_servent
  getservbyport_job fuel port proto =
      get_entry_job (getservbyport port proto) (alloc_servent ntohs) fuel
