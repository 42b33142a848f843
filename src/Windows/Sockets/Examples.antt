-- ===== src/Windows/Sockets/Examples.antt =====
-- The theorem on pairs of sockets where the connection is refused.
use lwt_old.Base.{◌≡◌, arith, [], ◌∷◌, ◌+◌}
use lwt_old.Base.Outcome.{done, failed, fault}
use lwt_old.Windows.Sockets.{Net, Kernel, socketpair_stub}
use lwt_old.Windows.Sockets.Pair.{Leaves, socketpair_stub-Leaves}

abbrev kernel : Kernel
kernel = record {
  socket = λ new domain kind protocol. done tt;
  set_reuse = λ l. done tt;
  bind = λ l a. done tt;
  getsockname = λ l. done (record { family = 2; addr = 0; port = 4000 });
  listen = λ l n. done tt;
  connect = λ s a. failed 10061;
  accept = λ l new. done tt;
  maperr = λ e. e + 1000;
}

abbrev net : Net
net = record { sockets = 3 ∷ []; fresh = 8 }

socketpair_stub-Leaves_example :
    Leaves kernel net (socketpair_stub kernel 1 0 0 net)
    × (socketpair_stub kernel 2 0 0 net ≡ fault)
socketpair_stub-Leaves_example = socketpair_stub-Leaves kernel net 1 0 0 (omega arith) (omega arith)
