-- ===== src/Calls/Message/Rights.antt =====
-- The descriptors that a message carries arrive in their order.
use lwt_old.Base.{
  ℕ, zero, suc, ◌<◌, ◌≤◌, ◌≡◌, refl, ap, ◌∙◌, false, ◌&&◌, ◌==◌, List, [], ◌∷◌, ◌++◌, map, Option,
  none, some, get_or, take, take_all, append-nil, length, arith,
}
use lwt_old.Base.Outcome.{done, ok, bind_ok}
use lwt_old.Jobs.{Mem}
use lwt_old.Calls.Message.{
  IoVec, Base, in_string, in_bigarray, Vector, cells_of, bytes_send_msg, bytes_recv_msg, Cmsg,
  sol_socket, scm_rights, store, control, fds_loop, received_fds, Kernel, recv_msg, send_msg,
  wrapper_recv_msg, wrapper_send_msg, scatter,
}
use lwt_old.Calls.Message.Scatter.{vector_of, AllFit, total, Filled, scatter-Filled}

-- A list that fits exactly is stored as it is.
store_all {ℓ} : {A : Type ℓ} (a : A) (xs : List A) → store a (length xs) xs ≡ some xs
unfolding store
store_all a [] = refl
store_all a (x ∷ xs) = rw (store_all a xs, store) refl

store-map :
    {A B : Type 0} (b : B) (f : A → B) (xs : List A)
    → store b (length xs) (map f xs) ≡ some (map f xs)
unfolding store
store-map b f [] = refl
store-map b f (x ∷ xs) = rw (store-map b f xs, store) refl

control_all :
    (fd : ℕ) (fds : List ℕ)
    → control (length (fd ∷ fds)) (fd ∷ fds)
      ≡ some (record { level = sol_socket; kind = scm_rights; fds = fd ∷ fds } ∷ [])
unfolding control
control_all fd fds = rw (store_all 0 (fd ∷ fds), control) refl

take-suc :
    (n : ℕ) (xs list : List ℕ)
    → n < length xs
    → take n xs ++ get_or xs n 0 ∷ list ≡ take (suc n) xs ++ list
take-suc n [] list h = absurd (omega (arith, h))
take-suc zero (x ∷ xs) list h = refl
take-suc (suc n) (x ∷ xs) list h = ap (λ r. x ∷ r) (take-suc n xs list (omega (arith, h)))

fds_loop-take : (n : ℕ) (xs list : List ℕ) → n ≤ length xs → fds_loop n xs list ≡ take n xs ++ list
unfolding fds_loop
fds_loop-take zero xs list h = refl
fds_loop-take (suc n) xs list h =
    fds_loop-take n xs (get_or xs n 0 ∷ list) (omega (arith, h))
    ∙ take-suc n xs list (omega (arith, h))

fds_loop_all : (xs : List ℕ) → fds_loop (length xs) xs [] ≡ xs
fds_loop_all xs =
    fds_loop-take (length xs) xs [] (omega arith)
    ∙ append-nil (take (length xs) xs)
    ∙ take_all (length xs) xs (omega arith)

-- A control message that carries no descriptors.
abbrev pub OtherKind : List Cmsg → Type 0
OtherKind [] = Unit {0}
OtherKind (cm ∷ msgs) = ((cm.level == sol_socket && cm.kind == scm_rights) ≡ false) × OtherKind msgs

received_fds-first :
    (others msgs : List Cmsg) (fds : List ℕ)
    → OtherKind others
    → received_fds (others ++ record { level = sol_socket; kind = scm_rights; fds = fds } ∷ msgs)
      ≡ fds
unfolding received_fds
received_fds-first [] msgs fds h = fds_loop_all fds
received_fds-first (cm ∷ others) msgs fds h =
    rw (h.0, received_fds) (received_fds-first others msgs fds h.1)

-- The control message with the descriptors.
abbrev pub rights : ℕ → List ℕ → Cmsg
rights fd fds = record { level = sol_socket; kind = scm_rights; fds = fd ∷ fds }

stored :
    (kind : ℕ → Base) (iovs : List IoVec)
    → store none (length iovs) (cells_of kind iovs) ≡ some (cells_of kind iovs)
stored kind iovs = store-map none _ iovs

sending :
    (sender : Kernel) (m : Mem) (out fd : ℕ) (fds : List ℕ) (cells : List (Option Vector))
    {sent : ℕ}
    → sender.sendmsg out cells (rights fd fds ∷ []) ≡ done sent
    → wrapper_send_msg sender out cells (length (fd ∷ fds)) (fd ∷ fds) m ≡ ok sent m
unfolding wrapper_send_msg
sending sender m out fd fds cells s = rw (control_all fd fds, wrapper_send_msg) (rw s refl)

receiving :
    (receiver : Kernel) (m : Mem) (into fd : ℕ) (fds : List ℕ) (others msgs : List Cmsg)
    (kind : ℕ → Base) (iovs : List IoVec) (bytes : List ℕ)
    → receiver.recvmsg into (cells_of kind iovs) ≡ done (bytes, others ++ rights fd fds ∷ msgs)
    → OtherKind others
    → AllFit m (map (vector_of kind) iovs)
    → length bytes ≤ total (map (vector_of kind) iovs)
    → (m' : Mem) × (wrapper_recv_msg receiver into (cells_of kind iovs) m
        ≡ ok (length bytes, fd ∷ fds) m')
      × Filled (map (vector_of kind) iovs) bytes m m'
unfolding wrapper_recv_msg
receiving receiver m into fd fds others msgs kind iovs bytes r o fits short =
    let (m', e, filled) = scatter-Filled kind iovs bytes m fits short in
    (
      m',
      rw (r, wrapper_recv_msg)
          (bind_ok (scatter (cells_of kind iovs) bytes) _ m e
            (ap (λ l. ok (length bytes, l) m') (received_fds-first others msgs (fd ∷ fds) o))),
      filled,
    )

module _ (sender receiver : Kernel) (m : Mem) (out into fd : ℕ) (fds : List ℕ)
    (iovs iovs' : List IoVec) (others msgs : List Cmsg) (sent sent' : ℕ)
    (bytes bytes' : List ℕ) where
  -- A process sends at least one descriptor, with the number of them, and as many vectors as it
  -- says, with strings and with bigarrays, where `sendmsg` with these vectors and the descriptors
  -- in their order succeeds. Another receives the same control message, behind others that carry no
  -- descriptors and before any, and no more bytes than there is room for in its ranges, which lie
  -- in its strings and in its bigarrays. Then send_msg and its variant on bigarrays return the
  -- answers of `sendmsg`, and recv_msg and its variant return the number of the bytes with exactly
  -- the descriptors; the bytes stand in the ranges of the vectors, one behind the other, and
  -- nothing else in memory has changed.
  pub recv_msg-send_msg :
      sender.sendmsg out (cells_of in_string iovs) (rights fd fds ∷ []) ≡ done sent
      → sender.sendmsg out (cells_of in_bigarray iovs) (rights fd fds ∷ []) ≡ done sent'
      → receiver.recvmsg into (cells_of in_string iovs')
        ≡ done (bytes, others ++ rights fd fds ∷ msgs)
      → receiver.recvmsg into (cells_of in_bigarray iovs')
        ≡ done (bytes', others ++ rights fd fds ∷ msgs)
      → OtherKind others
      → AllFit m (map (vector_of in_string) iovs')
      → AllFit m (map (vector_of in_bigarray) iovs')
      → length bytes ≤ total (map (vector_of in_string) iovs')
      → length bytes' ≤ total (map (vector_of in_bigarray) iovs')
      → (send_msg sender out (length iovs) iovs (length (fd ∷ fds)) (fd ∷ fds) m ≡ ok sent m)
        × (bytes_send_msg sender out (length iovs) iovs (length (fd ∷ fds)) (fd ∷ fds) m
            ≡ ok sent' m)
        × ((m' : Mem) × (recv_msg receiver into (length iovs') iovs' m
              ≡ ok (length bytes, fd ∷ fds) m')
            × Filled (map (vector_of in_string) iovs') bytes m m')
        × ((m' : Mem) × (bytes_recv_msg receiver into (length iovs') iovs' m
              ≡ ok (length bytes', fd ∷ fds) m')
            × Filled (map (vector_of in_bigarray) iovs') bytes' m m')
  unfolding send_msg bytes_send_msg recv_msg bytes_recv_msg
  recv_msg-send_msg s s' r r' o fits fits' short short' =
      let (m1, e1, f1) =
        receiving receiver m into fd fds others msgs in_string iovs' bytes r o fits short in
      let (m2, e2, f2) =
        receiving receiver m into fd fds others msgs in_bigarray iovs' bytes' r' o fits' short' in
      (
        rw (stored in_string iovs, send_msg) (sending sender m out fd fds _ s),
        rw (stored in_bigarray iovs, bytes_send_msg) (sending sender m out fd fds _ s'),
        (m1, rw (stored in_string iovs', recv_msg) e1, f1),
        (m2, rw (stored in_bigarray iovs', bytes_recv_msg) e2, f2),
      )
