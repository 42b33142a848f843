-- ===== src/Windows/Wakeup.antt =====
-- src/unix/lwt_unix_stubs.c: `lwt_unix_init_notification` for Windows, where the main thread is woken
-- through a pair of sockets.
pub mod Reinit
mod Examples
use Prim.Native.String.{String}
use lwt_old.Base.{ℕ, ◌∷◌, Option, none, some, List}
use lwt_old.Base.Outcome.{
  Sys, done, failed, Run, ok, raised, fault, M, ◌>>=◌, ◌>>◌, pure, raise, modify, gets, unix_error,
  failure,
}
use lwt_old.Notify.{
  Mode, not_initialized, none_yet, eventfd, pipe, windows, Notify, init_notifications,
}
use lwt_old.Windows.Sockets.{Net, Kernel, af_inet, open_socket, closesocket, socketpair}

-- SOCK_STREAM and IPPROTO_TCP.
abbrev pub sock_stream : ℕ
sock_stream = 1

abbrev pub ipproto_tcp : ℕ
ipproto_tcp = 6

-- The state of the notifications, with the sockets that are open as the objects of the kernel;
-- `notification_fds` are `socket_r` and `socket_w`.
abbrev pub Wake : Type 0
Wake = Notify Net

abbrev pub on_net : {A : Type 0} → M Net A → M Wake A
on_net f s = elim (f s.chan) [
  | ok a n ↦ ok a (record s { chan = n })
  | raised e n ↦ raised e (record s { chan = n })
  | fault ↦ fault
]

abbrev pub set_mode : Mode → M Wake (Unit {0})
set_mode m = modify (λ s. record s { notification_mode = m })

-- The `switch` on the current mode.
pub leave_mode : Mode → M Wake (Unit {0})
unfolding init_notifications closesocket
leave_mode not_initialized = do set_mode none_yet; modify init_notifications
leave_mode windows = do
  set_mode none_yet
  socket_r ← gets (λ s. s.notification_fds.0)
  on_net (closesocket (some socket_r))
  socket_w ← gets (λ s. s.notification_fds.1)
  on_net (closesocket (some socket_w))
leave_mode none_yet = pure tt
leave_mode _ = raise (failure "notification system in unknown state")

module _ (kernel : Kernel) (duplicate : ℕ → ℕ → Sys (Unit {0})) where
  -- `DuplicateHandle` is told the socket and the number that its copy would have.
  pub set_close_on_exec : ℕ → M Wake ℕ
  unfolding open_socket closesocket
  set_close_on_exec socket = do
    new ← gets (λ s. s.chan.fresh)
    elim (duplicate socket new) [
      | failed e ↦ raise (unix_error (kernel.maperr e) "set_close_on_exec" "")
      | done _ ↦ (do
        new_socket ← on_net open_socket
        on_net (closesocket (some socket))
        pure new_socket)
    ]

  -- From the first call of `set_close_on_exec` on.
  pub keep_ends : ℕ × ℕ → M Wake ℕ
  unfolding set_close_on_exec
  keep_ends sockets = do
    socket_r ← set_close_on_exec sockets.0
    modify (λ s. record s { notification_fds = (socket_r, s.notification_fds.1) })
    socket_w ← set_close_on_exec sockets.1
    modify (λ s. record s { notification_fds = (s.notification_fds.0, socket_w) })
    set_mode windows
    gets (λ s. s.notification_fds.0)

  pub init_notification : M Wake ℕ
  unfolding leave_mode keep_ends
  init_notification = do
    mode ← gets (λ s. s.notification_mode)
    leave_mode mode
    sockets ← on_net (socketpair kernel af_inet sock_stream ipproto_tcp)
    keep_ends sockets
