-- ===== src/Windows/Wakeup/Reinit.antt =====
-- Which sockets are open after the notifications were initialized.
use lwt_old.Base.{ℕ, suc, ◌<◌, ◌≡◌, ◌≢◌, refl, sym, ap, subst, ◌∙◌, ◌⊎◌, inl, inr, List, ◌∷◌, arith}
use lwt_old.Base.Outcome.{Sys, Sys-cases, Run, ok, raised, M, ◌>>=◌, Exn, bind_ok, bind_raised}
use lwt_old.Jobs.{remove}
use lwt_old.Notify.{not_initialized, none_yet, windows, init_notifications}
use lwt_old.Windows.Sockets.{Net, Kernel, af_inet, open_socket, closesocket, socketpair}
use lwt_old.Windows.Sockets.Pair.{Leaves, socketpair-Leaves}
use lwt_old.Windows.Wakeup.{
  Wake, on_net, sock_stream, ipproto_tcp, set_close_on_exec, leave_mode, keep_ends,
  init_notification,
}

-- Beside `others`, the two sockets of the notifications are open, and they are two.
pub record IsOpen (others : List ℕ) (s : Wake) : Type 0 where
  pub mode : s.notification_mode ≡ windows
  pub distinct : s.notification_fds.0 ≢ s.notification_fds.1
  pub sockets : s.chan.sockets ≡ s.notification_fds.1 ∷ s.notification_fds.0 ∷ others

-- The notifications have no sockets, and `others` are open.
pub record IsClosed (others : List ℕ) (s : Wake) : Type 0 where
  pub mode : (s.notification_mode ≡ none_yet) ⊎ (s.notification_mode ≡ not_initialized)
  pub sockets : s.chan.sockets ≡ others

on_net_ok :
    {A : Type 0} (f : M Net A) (s : Wake) {a : A} {n : Net}
    → f s.chan ≡ ok a n
    → on_net f s ≡ ok a (record s { chan = n })
on_net_ok f s e = rw (e, on_net) refl

on_net_raised :
    {A : Type 0} (f : M Net A) (s : Wake) {x : Exn} {n : Net}
    → f s.chan ≡ raised x n
    → on_net f s ≡ raised x (record s { chan = n })
on_net_raised f s e = rw (e, on_net) refl

module _ (kernel : Kernel) (duplicate : ℕ → ℕ → Sys (Unit {0})) (others : List ℕ) where
  -- It returns, and the sockets are open; or it raises an error with the mode NONE, and then no
  -- other socket is open than `others`, or two more are.
  abbrev pub Ends : Run Wake ℕ → Type 0
  Ends r =
      ((t : Wake) × (r ≡ ok t.notification_fds.0 t) × IsOpen others t)
      ⊎ ((e : Exn) × (t : Wake) × (r ≡ raised e t)
          × (t.notification_mode ≡ none_yet)
          × ((t.chan.sockets ≡ others) ⊎ ((a : ℕ) × (b : ℕ) × (t.chan.sockets ≡ a ∷ b ∷ others))))

  remove_second : (x a : ℕ) (l : List ℕ) → x ≢ a → remove a (x ∷ a ∷ l) ≡ x ∷ l
  unfolding remove
  remove_second x a l n = ground (arith, n)

  remove_head : (w : ℕ) (l : List ℕ) → remove w (w ∷ l) ≡ l
  unfolding remove
  remove_head w l = ground arith

  remove_third : (x y a : ℕ) (l : List ℕ) → x ≢ a → y ≢ a → remove a (x ∷ y ∷ a ∷ l) ≡ x ∷ y ∷ l
  unfolding remove
  remove_third x y a l n n' = ground (arith, n, n')

  keep_ends-Ends :
      (a b : ℕ) (s : Wake)
      → s.notification_mode ≡ none_yet
      → s.chan.sockets ≡ b ∷ a ∷ others
      → a ≢ b
      → a < s.chan.fresh
      → b < s.chan.fresh
      → Ends (keep_ends kernel duplicate (a, b) s)
  unfolding keep_ends set_close_on_exec open_socket closesocket
  keep_ends-Ends a b s mode open_ n la lb =
      let c : ℕ = s.chan.fresh in
      let d : ℕ = suc c in
      let first : remove a (c ∷ s.chan.sockets) ≡ c ∷ b ∷ others =
        ap (λ l. remove a (c ∷ l)) open_
        ∙ remove_third c b a others (omega (arith, la)) (omega (arith, n)) in
      let second : remove b (d ∷ remove a (c ∷ s.chan.sockets)) ≡ d ∷ c ∷ others =
        ap (λ l. remove b (d ∷ l)) first
        ∙ remove_third d c b others (omega (arith, lb)) (omega (arith, lb)) in
      elim (Sys-cases (duplicate a c)) [
        | inr (e, h) ↦
            rw (h, keep_ends, set_close_on_exec) (inr (_, s, refl, mode, inr (b, a, open_)))
        | inl (_, h) ↦
            rw (h, keep_ends, set_close_on_exec)
              (elim (Sys-cases (duplicate b d)) [
                | inr (e, h1) ↦ rw h1 (inr (_, _, refl, mode, inr (c, b, first)))
                | inl (_, h1) ↦ rw h1 (
                    inl (_, refl, record { mode = refl; distinct = omega arith; sockets = second }))
              ])
      ]

  -- What `leave_mode` leaves, by the mode.
  Left : Wake → Run Wake (Unit {0}) → Type 0
  Left s r =
      (s' : Wake) × (r ≡ ok tt s') × (s'.notification_mode ≡ none_yet) × (s'.chan.sockets ≡ others)

  leave_mode-Left :
      (s : Wake) → IsOpen others s ⊎ IsClosed others s → Left s (leave_mode s.notification_mode s)
  unfolding Left leave_mode init_notifications closesocket
  leave_mode-Left s (inl o) =
      let r : ℕ = s.notification_fds.0 in
      let w : ℕ = s.notification_fds.1 in
      rw (o.mode, leave_mode)
        (
          _,
          refl,
          refl,
          ap (λ l. remove w (remove r l)) o.sockets
              ∙ ap (remove w) (remove_second w r others (λ e. o.distinct (sym e)))
              ∙ remove_head w others,
        )
  leave_mode-Left s (inr c) = elim c.mode [
    | inl e ↦ rw (e, leave_mode) (_, refl, refl, c.sockets)
    | inr e ↦ rw (e, leave_mode) (_, refl, refl, c.sockets)
  ]

  connected-Ends :
      (s : Wake)
      → s.notification_mode ≡ none_yet
      → s.chan.sockets ≡ others
      → Leaves kernel s.chan (socketpair kernel af_inet sock_stream ipproto_tcp s.chan)
      → Ends (
          (on_net (socketpair kernel af_inet sock_stream ipproto_tcp)
              >>= keep_ends kernel duplicate)
            s)
  connected-Ends s mode same (inl (a, b, l, t, name, e, open_, n, la, lb, named, c, acc)) =
      let pair : M Net (ℕ × ℕ) = socketpair kernel af_inet sock_stream ipproto_tcp in
      subst Ends
        (sym (bind_ok (on_net pair) (keep_ends kernel duplicate) s (on_net_ok pair s e) refl))
        (keep_ends-Ends a b (record s { chan = t }) mode (open_ ∙ ap (λ l. b ∷ a ∷ l) same) n la.1
          lb.1)
  connected-Ends s mode same (inr (e, t, h, open_)) =
      let pair : M Net (ℕ × ℕ) = socketpair kernel af_inet sock_stream ipproto_tcp in
      inr (
        _,
        _,
        bind_raised (on_net pair) (keep_ends kernel duplicate) s (on_net_raised pair s h),
        mode,
        inl (open_ ∙ same),
      )

  -- On Windows, where the notifications have their two sockets beside some others, or have none
  -- yet, and whatever the calls answer: lwt_unix_init_notification returns the socket to read from,
  -- and of the sockets of the notifications just two are open beside the others, which it stores;
  -- or it raises an error, the mode is NONE, in which it can be called again, and open are the
  -- others alone, or two more that nothing closes.
  pub init_notification-Ends :
      (s : Wake) → IsOpen others s ⊎ IsClosed others s → Ends (init_notification kernel duplicate s)
  unfolding init_notification Left
  init_notification-Ends s h =
      let (s', left, mode, sockets) = leave_mode-Left s h in
      subst Ends (sym (bind_ok (leave_mode s.notification_mode) _ s left refl)) (
        connected-Ends s' mode sockets
          (socketpair-Leaves kernel s'.chan af_inet sock_stream ipproto_tcp))
