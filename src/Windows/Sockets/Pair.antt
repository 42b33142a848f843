-- ===== src/Windows/Sockets/Pair.antt =====
-- What the stub leaves open.
use lwt_old.Base.{
  ℕ, zero, suc, List, [], length, ◌<◌, ◌≤◌, ◌≡◌, ◌≢◌, refl, ◌⊎◌, inl, inr, ◌∷◌, none, some, arith,
  get_elem?,
}
use lwt_old.Base.Outcome.{done, Sys-cases, Run, ok, raised, fault, unix_error}
use lwt_old.Jobs.{remove}
use lwt_old.Windows.Sockets.{
  Net, Address, Kernel, inaddr_loopback, af_inet, open_socket, closesocket, give_up, or_failure,
  connect_ends, socketpair, socketpair_stub, socket_domain_table, socket_type_table,
}

in_table : (table : List ℕ) (i : ℕ) → i < length table → (x : ℕ) × (get_elem? table i ≡ some x)
in_table [] i h = absurd (omega (arith, h))
in_table (x ∷ table) zero h = (x, refl)
in_table (x ∷ table) (suc i) h = in_table table i (omega (arith, h))

module _ (kernel : Kernel) (s : Net) where
  open kernel use {getsockname, connect, accept, maperr}

  -- Two new sockets are open, and the first is connected to the port of the listener, which has
  -- accepted the second; or an error is raised and no other socket is open than before.
  abbrev pub Leaves : Run Net (ℕ × ℕ) → Type 0
  Leaves r =
      ((a : ℕ) × (b : ℕ) × (l : ℕ) × (t : Net) × (name : Address) × (r ≡ ok (a, b) t)
        × (t.sockets ≡ b ∷ a ∷ s.sockets)
        × (a ≢ b)
        × ((s.fresh ≤ a) × (a < t.fresh))
        × ((s.fresh ≤ b) × (b < t.fresh))
        × (getsockname l ≡ done name)
        × (connect a (record { family = af_inet; addr = inaddr_loopback; port = name.port })
            ≡ done tt)
        × (accept l b ≡ done tt))
      ⊎ ((e : ℕ) × (t : Net) × (r ≡ raised (unix_error (maperr e) "socketpair" "") t)
          × (t.sockets ≡ s.sockets))

  -- The states with the listener, and with the first end too.
  abbrev listening : Net
  listening = record s { sockets = s.fresh ∷ s.sockets; fresh = suc s.fresh }

  abbrev connecting : Net
  connecting = record s { sockets = suc s.fresh ∷ s.fresh ∷ s.sockets; fresh = suc (suc s.fresh) }

  none_left : (e : ℕ) → Leaves (give_up kernel none none none e s)
  unfolding give_up closesocket
  none_left e = inr (e, s, refl, refl)

  listener_left : (e : ℕ) → Leaves (give_up kernel (some s.fresh) none none e listening)
  unfolding give_up closesocket remove
  listener_left e = inr (e, _, refl, ground arith)

  both_left :
      (e : ℕ) → Leaves (give_up kernel (some s.fresh) (some (suc s.fresh)) none e connecting)
  unfolding give_up closesocket remove
  both_left e = inr (e, _, refl, ground arith)

  connect_ends-Leaves :
      (name : Address) (domain kind protocol : ℕ)
      → getsockname s.fresh ≡ done name
      → Leaves (
          connect_ends kernel s.fresh
            (record name { addr = inaddr_loopback; family = af_inet })
            domain
            kind
            protocol
            listening)
  unfolding connect_ends open_socket closesocket remove
  connect_ends-Leaves name domain kind protocol named =
      let new0 : ℕ = suc s.fresh in
      let new1 : ℕ = suc new0 in
      let a : Address = record name { addr = inaddr_loopback; family = af_inet } in
      elim (Sys-cases (kernel.socket new0 domain kind protocol)) [
        | inr (e, h) ↦ rw (h, connect_ends) (listener_left e)
        | inl (_, h) ↦
            rw (h, connect_ends)
              (elim (Sys-cases (connect new0 a)) [
                | inr (e, h1) ↦ rw h1 (both_left e)
                | inl (_, h1) ↦ rw h1 (elim (Sys-cases (accept s.fresh new1)) [
                  | inr (e, h2) ↦ rw h2 (both_left e)
                  | inl (_, h2) ↦ rw h2 (
                      inl (
                        new0,
                        new1,
                        s.fresh,
                        _,
                        name,
                        refl,
                        ground arith,
                        omega arith,
                        (omega arith, omega arith),
                        (omega arith, omega arith),
                        named,
                        h1,
                        h2,
                      ))
                ])
              ])
      ]

  -- From `bind` on.
  bound :
      (domain kind protocol : ℕ)
      → Leaves (
          or_failure kernel
            (kernel.bind s.fresh (record { family = domain; addr = inaddr_loopback; port = 0 }))
            (give_up kernel (some s.fresh) none none)
            (λ _.
              or_failure kernel
                (getsockname s.fresh)
                (give_up kernel (some s.fresh) none none)
                (λ a.
                  or_failure kernel
                    (kernel.listen s.fresh 1)
                    (give_up kernel (some s.fresh) none none)
                    (λ _.
                      connect_ends kernel s.fresh
                        (record a { addr = inaddr_loopback; family = af_inet })
                        domain
                        kind
                        protocol)))
            listening)
  bound domain kind protocol =
      elim (Sys-cases
        (kernel.bind s.fresh (record { family = domain; addr = inaddr_loopback; port = 0 }))) [
          | inr (e, h) ↦ rw (h, or_failure) (listener_left e)
          | inl (_, h) ↦
              rw (h, or_failure)
                (elim (Sys-cases (getsockname s.fresh)) [
                  | inr (e, h1) ↦ rw h1 (listener_left e)
                  | inl (name, h1) ↦ rw h1 (elim (Sys-cases (kernel.listen s.fresh 1)) [
                    | inr (e, h2) ↦ rw h2 (listener_left e)
                    | inl (_, h2) ↦ rw h2 (connect_ends-Leaves name domain kind protocol h1)
                  ])
                ])
        ]

  -- `lwt_unix_socketpair`, with the numbers of the system.
  pub socketpair-Leaves :
      (domain kind protocol : ℕ) → Leaves (socketpair kernel domain kind protocol s)
  unfolding socketpair open_socket
  socketpair-Leaves domain kind protocol =
      elim (Sys-cases (kernel.socket s.fresh domain kind protocol)) [
        | inr (e, h) ↦ rw (h, socketpair) (none_left e)
        | inl (_, h) ↦
            rw (h, socketpair)
              (elim (Sys-cases (kernel.set_reuse s.fresh)) [
                | inr (e, h1) ↦ rw h1 (listener_left e)
                | inl (_, h1) ↦ rw h1 (bound domain kind protocol)
              ])
      ]

  -- On Windows, for a domain and a kind that the tables have, PF_UNIX or PF_INET and any kind of
  -- socket, and whatever the calls answer: socketpair returns two different new sockets, which are
  -- open beside those that were, and the first was connected to the port of the loopback address
  -- that the listener has, which accepted the second; or it raises an error that is named
  -- "socketpair", and the sockets that are open are those of before. With PF_INET6 it does what is
  -- undefined.
  pub socketpair_stub-Leaves :
      (domain kind protocol : ℕ)
      → domain < 2
      → kind < 4
      → Leaves (socketpair_stub kernel domain kind protocol s)
        × (socketpair_stub kernel 2 kind protocol s ≡ fault)
  unfolding socketpair_stub
  socketpair_stub-Leaves domain kind protocol h h' =
      let (d, e) = in_table socket_domain_table domain h in
      let (k, e') = in_table socket_type_table kind h' in
      (rw (e, e', socketpair_stub) (socketpair-Leaves d k protocol), refl)
