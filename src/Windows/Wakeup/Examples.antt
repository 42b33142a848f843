-- ===== src/Windows/Wakeup/Examples.antt =====
-- A second initialization in which the second socket cannot be duplicated.
use lwt_old.Base.{[], ◌∷◌, false, ◌+◌, ◌==◌, if◌then◌else◌, ℕ, inl, refl, arith}
use lwt_old.Base.Outcome.{Sys, done, failed}
use lwt_old.Notify.{windows}
use lwt_old.Windows.Sockets.{Kernel}
use lwt_old.Windows.Wakeup.{Wake, init_notification}
use lwt_old.Windows.Wakeup.Reinit.{IsOpen, Ends, init_notification-Ends}

abbrev kernel : Kernel
kernel = record {
  socket = λ new domain kind protocol. done tt;
  set_reuse = λ l. done tt;
  bind = λ l a. done tt;
  getsockname = λ l. done (record { family = 2; addr = 0; port = 4000 });
  listen = λ l n. done tt;
  connect = λ s a. done tt;
  accept = λ l new. done tt;
  maperr = λ e. e + 1000;
}

abbrev duplicate : ℕ → ℕ → Sys (Unit {0})
duplicate socket new = if new == 12 then failed 8 else done tt

-- The sockets 6 and 7 are those of the notifications.
abbrev wake : Wake
wake = record {
  notifications = [];
  notification_count = 0;
  notification_index = 0;
  notification_mode = windows;
  notification_mutex = false;
  notification_fd = 0;
  notification_fds = (6, 7);
  mask = 0;
  chan = record { sockets = 7 ∷ 6 ∷ 3 ∷ []; fresh = 8 };
}

wake-IsOpen : IsOpen (3 ∷ []) wake
wake-IsOpen = record { mode = refl; distinct = omega arith; sockets = refl }

init_notification-Ends_example :
    Ends kernel duplicate (3 ∷ []) (init_notification kernel duplicate wake)
init_notification-Ends_example =
    init_notification-Ends kernel duplicate (3 ∷ []) wake (inl wake-IsOpen)
