-- ===== src/Windows/Sockets.antt =====
-- src/unix/lwt_unix_stubs.c: the pair of connected sockets on Windows.
pub mod Pair
mod Examples
use Prim.Native.String.{String}
use lwt_old.Base.{ℕ, suc, List, [], ◌∷◌, Option, none, some, get_elem?}
use lwt_old.Base.Outcome.{
  Sys, undefined, done, failed, ok, M, ◌>>=◌, ◌>>◌, pure, raise, modify, gets, unix_error,
}
use lwt_old.Jobs.{remove}

-- The sockets that are open.
pub record Net : Type 0 where
  pub sockets : List ℕ
  pub fresh : ℕ

-- `struct sockaddr_in`, with its numbers in the byte order of the machine.
pub record Address : Type 0 where
  pub family : ℕ
  pub addr : ℕ
  pub port : ℕ

-- `socket` and `accept` are told the number of the socket that they would open, so that they can
-- answer each call in its own way. `accept` gets the listener as well. `maperr` is the error number
-- into which `win32_maperr` turns one of Windows.
pub record Kernel : Type 0 where
  pub socket : ℕ → ℕ → ℕ → ℕ → Sys (Unit {0})
  pub set_reuse : ℕ → Sys (Unit {0})
  pub bind : ℕ → Address → Sys (Unit {0})
  pub getsockname : ℕ → Sys Address
  pub listen : ℕ → ℕ → Sys (Unit {0})
  pub connect : ℕ → Address → Sys (Unit {0})
  pub accept : ℕ → ℕ → Sys (Unit {0})
  pub maperr : ℕ → ℕ

-- INADDR_LOOPBACK and AF_INET; PF_UNIX and PF_INET; SOCK_STREAM, SOCK_DGRAM, SOCK_RAW and
-- SOCK_SEQPACKET.
abbrev pub inaddr_loopback : ℕ
inaddr_loopback = 2130706433

abbrev pub af_inet : ℕ
af_inet = 2

abbrev pub socket_domain_table : List ℕ
socket_domain_table = 1 ∷ 2 ∷ []

abbrev pub socket_type_table : List ℕ
socket_type_table = 1 ∷ 2 ∷ 3 ∷ 5 ∷ []

unfoldable pub open_socket : M Net ℕ
open_socket s = ok s.fresh (record s { sockets = s.fresh ∷ s.sockets; fresh = suc s.fresh })

-- `closesocket`, whose answer is not looked at; `none` is INVALID_SOCKET.
unfoldable pub closesocket : Option ℕ → M Net (Unit {0})
unfolding remove
closesocket none = pure tt
closesocket (some h) = modify (λ s. record s { sockets = remove h s.sockets })

module _ (kernel : Kernel) where
  open kernel use {socket, set_reuse, bind, getsockname, listen, connect, accept, maperr}

  -- What stands behind the label `failure`.
  pub give_up : Option ℕ → Option ℕ → Option ℕ → ℕ → M Net (ℕ × ℕ)
  unfolding closesocket
  give_up listener socket0 socket1 e = do
    closesocket listener
    closesocket socket0
    closesocket socket1
    raise (unix_error (maperr e) "socketpair" "")

  -- A call, and the jump to the label if it fails.
  abbrev pub or_failure :
      {A : Type 0} → Sys A → (ℕ → M Net (ℕ × ℕ)) → (A → M Net (ℕ × ℕ)) → M Net (ℕ × ℕ)
  or_failure (failed e) failure k = failure e
  or_failure (done a) failure k = k a

  -- From `socket` for the first end on.
  pub connect_ends : ℕ → Address → ℕ → ℕ → ℕ → M Net (ℕ × ℕ)
  unfolding open_socket closesocket give_up
  connect_ends listener a domain kind protocol = do
    new0 ← gets (λ s. s.fresh)
    or_failure (socket new0 domain kind protocol) (give_up (some listener) none none) (λ _. do
      socket0 ← open_socket
      or_failure (connect socket0 a) (give_up (some listener) (some socket0) none) (λ _. do
        new1 ← gets (λ s. s.fresh)
        or_failure (accept listener new1) (give_up (some listener) (some socket0) none)
            (λ _. do socket1 ← open_socket; closesocket (some listener); pure (socket0, socket1))))

  pub socketpair : ℕ → ℕ → ℕ → M Net (ℕ × ℕ)
  unfolding open_socket give_up connect_ends
  socketpair domain kind protocol = do
    new ← gets (λ s. s.fresh)
    or_failure (socket new domain kind protocol) (give_up none none none) (λ _. do
      listener ← open_socket
      or_failure (set_reuse listener) (give_up (some listener) none none) (λ _.
          or_failure (bind listener (record { family = domain; addr = inaddr_loopback; port = 0 }))
            (give_up (some listener) none none)
            (λ _. or_failure (getsockname listener) (give_up (some listener) none none) (λ a.
              or_failure (listen listener 1) (give_up (some listener) none none) (λ _.
                connect_ends listener (record a { addr = inaddr_loopback; family = af_inet }) domain
                  kind protocol)))))

  -- The domain and the kind are constructors of OCaml, by their numbers. To read past the end of a
  -- table is undefined: PF_INET6 has no place in the first.
  pub socketpair_stub : ℕ → ℕ → ℕ → M Net (ℕ × ℕ)
  unfolding socketpair
  socketpair_stub domain kind protocol = elim (get_elem? socket_domain_table domain) [
    | none ↦ undefined
    | some d ↦ elim (get_elem? socket_type_table kind) [
      | none ↦ undefined
      | some k ↦ socketpair d k protocol
    ]
  ]
