-- ===== src/Notify/Examples.antt =====
-- Tests of the notification system over a pipe, and its theorems at concrete states.
use lwt_old.Base.{
  ◌==◌, ℕ, ◌+◌, ◌-◌, ◌≡◌, refl, inl, false, true, none, some, [], ◌∷◌, arith, ltb, if◌then◌else◌,
}
use lwt_old.Base.Int.{pos, negsuc}
use lwt_old.Base.Outcome.{Sys, done, failed, unix_error, ok, raised, ◌>>=◌}
use lwt_old.Notify.{
  Channel, pipe, Notify, send_notification, recv_notifications, store, resize_notifications,
}
use lwt_old.Notify.Invariant.{
  Holds, IsValid, Sent, Received, send_notification-Sent, recv_notifications-Received,
}
use lwt_old.Notify.Wakeup.{send_all, recv-send_all, IsStuck, send_all-IsStuck}
use lwt_old.Notify.Init.{Setup, IsFresh, Works, init_notification, send_all-init_notification}

-- A pipe holds so many bytes; a read of an empty one would block, and fails here.
abbrev write_byte : ℕ → Sys ℕ
write_byte n = if ltb n 65536 then done (n + 1) else failed 11

abbrev read_byte : ℕ → Sys ℕ
read_byte n = if ltb 0 n then done (n - 1) else failed 11

write_byte-pending : (c d : ℕ) → c ≡ 0 → write_byte c ≡ done d → d ≡ 1
write_byte-pending c d h e = ground arith

read_byte-pending : (c d : ℕ) → c ≡ 1 → read_byte c ≡ done d → d ≡ 0
read_byte-pending c d h e = ground arith

abbrev pipe_channel : Channel
pipe_channel = record {
  State = ℕ;
  send = write_byte;
  recv = read_byte;
  pending = λ n. n;
  pending-send = write_byte-pending;
  pending-recv = read_byte-pending;
}

-- An object that refuses wakeups in the state 2, and takes one in the state 0.
abbrev take_wakeup : ℕ → Sys ℕ
take_wakeup n = if n == 0 then done 1 else failed 32

abbrev give_wakeup : ℕ → Sys ℕ
give_wakeup n = if n == 1 then done 0 else failed 11

abbrev readable_of : ℕ → ℕ
readable_of n = if n == 1 then 1 else 0

take_wakeup-readable : (c d : ℕ) → readable_of c ≡ 0 → take_wakeup c ≡ done d → readable_of d ≡ 1
take_wakeup-readable c d h e = ground arith

give_wakeup-readable : (c d : ℕ) → readable_of c ≡ 1 → give_wakeup c ≡ done d → readable_of d ≡ 0
give_wakeup-readable c d h e = ground arith

abbrev broken_channel : Channel
broken_channel = record {
  State = ℕ;
  send = take_wakeup;
  recv = give_wakeup;
  pending = readable_of;
  pending-send = take_wakeup-readable;
  pending-recv = give_wakeup-readable;
}

abbrev full_mask : ℕ
full_mask = 0xffff

abbrev quiet : Notify ℕ
quiet = record {
  notifications = none ∷ none ∷ [];
  notification_count = 2;
  notification_index = 0;
  notification_mode = pipe;
  notification_mutex = false;
  notification_fd = 0;
  notification_fds = (3, 4);
  mask = 5;
  chan = 0;
}

abbrev waiting : Notify ℕ
waiting = record quiet {
  notifications = some (pos 7) ∷ some (negsuc 0) ∷ [];
  notification_index = 2;
  chan = 1;
}

quiet-Holds : Holds quiet []
quiet-Holds = record {
  sized = refl;
  positive = omega arith;
  index = refl;
  room = omega arith;
  held = refl;
}

waiting-Holds : Holds waiting (pos 7 ∷ negsuc 0 ∷ [])
waiting-Holds = record {
  sized = refl;
  positive = omega arith;
  index = refl;
  room = omega arith;
  held = refl;
}

quiet-IsValid : IsValid pipe_channel full_mask quiet []
quiet-IsValid = record { buffer = quiet-Holds; unlocked = refl; woken = refl }

waiting-IsValid : IsValid pipe_channel full_mask waiting (pos 7 ∷ negsuc 0 ∷ [])
waiting-IsValid = record { buffer = waiting-Holds; unlocked = refl; woken = refl }

-- The third id makes the buffer grow.
grows :
    send_notification pipe_channel full_mask (pos 9) waiting
    ≡ ok tt (record waiting {
      notifications = some (pos 7) ∷ some (negsuc 0) ∷ some (pos 9) ∷ none ∷ [];
      notification_count = 4;
      notification_index = 3;
    })
unfolding send_notification store resize_notifications
grows = refl

send_notification-Sent_example :
    Sent pipe_channel full_mask waiting
      (pos 7 ∷ negsuc 0 ∷ [])
      (pos 9)
      (send_notification pipe_channel full_mask (pos 9) waiting)
send_notification-Sent_example =
    send_notification-Sent pipe_channel full_mask waiting (pos 7 ∷ negsuc 0 ∷ []) (pos 9)
      waiting-IsValid

recv_notifications-Received_example :
    Received pipe_channel full_mask waiting
      (pos 7 ∷ negsuc 0 ∷ [])
      (recv_notifications pipe_channel full_mask waiting)
recv_notifications-Received_example =
    recv_notifications-Received pipe_channel full_mask waiting (pos 7) (negsuc 0 ∷ [])
      waiting-IsValid

open_end : (c : ℕ) → c ≡ 0 → (d : ℕ) × (write_byte c ≡ done d)
open_end c h = (1, ground arith)

readable : (c : ℕ) → c ≡ 1 → (d : ℕ) × (read_byte c ≡ done d)
readable c h = (0, ground arith)

recv-send_all_example :
    (s' : Notify ℕ) × ((send_all pipe_channel full_mask (pos 1 ∷ pos 2 ∷ pos 3 ∷ []) >>= λ _.
    recv_notifications pipe_channel full_mask)
        quiet
      ≡ ok (pos 1 ∷ pos 2 ∷ pos 3 ∷ []) s')
    × IsValid pipe_channel full_mask s' []
    × (s'.mask ≡ 5)
recv-send_all_example =
    recv-send_all pipe_channel full_mask open_end readable quiet (pos 1) (pos 2 ∷ pos 3 ∷ [])
      quiet-IsValid

abbrev refusing : Notify ℕ
refusing = record quiet { chan = 2 }

refusing-Holds : Holds refusing []
refusing-Holds = record {
  sized = refl;
  positive = quiet-Holds.positive;
  index = quiet-Holds.index;
  room = quiet-Holds.room;
  held = quiet-Holds.held;
}

send_all-IsStuck_example :
    (s1 s2 : Notify ℕ) × (send_notification broken_channel full_mask (pos 1) refusing
      ≡ raised (unix_error 32 "send_notification" "") s1)
    × (send_all broken_channel full_mask (pos 2 ∷ []) (record s1 { chan = 0 }) ≡ ok tt s2)
    × (◌≡◌ {A = ℕ} s2.chan 0)
    × IsStuck broken_channel full_mask s2 (pos 1 ∷ pos 2 ∷ [])
send_all-IsStuck_example =
    send_all-IsStuck broken_channel full_mask refusing (pos 1) 32 (pos 2 ∷ []) 0
      (record { buffer = refusing-Holds; unlocked = refl; woken = refl }) refl refl

abbrev setup : Setup ℕ
setup = record {
  have_eventfd = true;
  close = λ fd. done tt;
  get_fd_flags = λ fd. done 0;
  set_fd_flags = λ fd f. done tt;
  new_eventfd = failed 38;
  new_pipe = done (5, 6, 0);
}

setup-IsFresh : IsFresh pipe_channel full_mask setup
setup-IsFresh = record { fresh_eventfd = λ fd c h. cc; fresh_pipe = λ r w c h. ground arith }

setup-Works : Works pipe_channel full_mask setup
setup-Works = record {
  closes = λ fd. refl;
  flags = λ fd. 0;
  flags_read = λ fd. refl;
  flags_written = λ fd f. refl;
  ends = (5, 6, 0);
  pipe_opened = refl;
}

send_all-init_notification_example :
    (fd : ℕ) × (s1 s2 : Notify ℕ) × (init_notification setup waiting ≡ ok fd s1)
    × (send_all pipe_channel full_mask (pos 8 ∷ []) s1 ≡ ok tt s2)
    × IsStuck pipe_channel full_mask s2 (pos 7 ∷ negsuc 0 ∷ pos 8 ∷ [])
send_all-init_notification_example =
    send_all-init_notification pipe_channel full_mask setup setup-Works setup-IsFresh waiting
      (pos 7) (negsuc 0 ∷ []) (pos 8 ∷ []) waiting-IsValid (inl refl)
