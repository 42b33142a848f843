-- ===== src/Notify/Init.antt =====
-- `lwt_unix_init_notification` and `set_close_on_exec` (the code for systems other than Windows):
-- called once at the start, and again in the child after a fork.
use Prim.Native.Nat.{bit_or}
use lwt_old.Base.{
  ℕ, ◌≡◌, refl, sym, ap, ◌∙◌, ◌⊎◌, inl, inr, false, true, Bool, List, [], ◌∷◌, ◌++◌, if◌then◌else◌,
  length, length-replicate, arith, Option, none,
}
use Prim.Native.String.{String}
use lwt_old.Base.Int.{ℤ}
use lwt_old.Base.Outcome.{
  Sys, done, failed, unix_error, failure, Run, ok, raised, M, ◌>>=◌, ◌>>◌, pure, raise, gets,
  modify, bind_ok,
}
use lwt_old.Notify.{
  Channel, Mode, not_initialized, none_yet, eventfd, pipe, windows, Notify, init_notifications,
}
use lwt_old.Notify.Invariant.{Holds, IsValid}
use lwt_old.Notify.Wakeup.{IsStuck, send_all, IsStuck-send_all}

-- What the kernel answers to the calls made here. A new eventfd or pipe comes with the object
-- behind it.
pub record Setup (C : Type 0) : Type 0 where
  pub have_eventfd : Bool
  pub close : ℕ → Sys (Unit {0})
  pub get_fd_flags : ℕ → Sys ℕ
  pub set_fd_flags : ℕ → ℕ → Sys (Unit {0})
  pub new_eventfd : Sys (ℕ × C)
  pub new_pipe : Sys (ℕ × ℕ × C)

abbrev pub fd_cloexec : ℕ
fd_cloexec = 1

module _ {C : Type 0} (setup : Setup C) where
  open setup use {have_eventfd, close, get_fd_flags, set_fd_flags, new_eventfd, new_pipe}

  pub check : String → Sys (Unit {0}) → M (Notify C) (Unit {0})
  check name (done _) = pure tt
  check name (failed e) = raise (unix_error e name "")

  pub set_close_on_exec : ℕ → M (Notify C) (Unit {0})
  unfolding check
  set_close_on_exec fd s = elim (get_fd_flags fd) [
    | done flags ↦ check "set_close_on_exec" (set_fd_flags fd (bit_or flags fd_cloexec)) s
    | failed e ↦ raise (unix_error e "set_close_on_exec" "") s
  ]

  abbrev set_mode : Mode → M (Notify C) (Unit {0})
  set_mode m = modify (λ s. record s { notification_mode = m })

  -- The `switch` on the current mode. A mode whose case is not compiled in meets the default.
  pub leave_mode : Mode → M (Notify C) (Unit {0})
  unfolding check init_notifications
  leave_mode eventfd =
      if have_eventfd
      then (do set_mode none_yet; fd ← gets (λ s. s.notification_fd); check "close" (close fd))
      else raise (failure "notification system in unknown state")
  leave_mode pipe = do
    set_mode none_yet
    fds ← gets (λ s. s.notification_fds)
    check "close" (close fds.0)
    check "close" (close fds.1)
  leave_mode not_initialized = do set_mode none_yet; modify init_notifications
  leave_mode none_yet = pure tt
  leave_mode windows = raise (failure "notification system in unknown state")

  pub open_pipe : M (Notify C) ℕ
  unfolding set_close_on_exec
  open_pipe s = elim new_pipe [
    | failed e ↦ raised (unix_error e "pipe" "") s
    | done (r, w, c) ↦
        (do
          set_close_on_exec r
          set_close_on_exec w
          set_mode pipe
          modify (λ t. record t { chan = c })
          pure r)
          (record s { notification_fds = (r, w) })
  ]

  pub open_eventfd : Sys (ℕ × C) → M (Notify C) ℕ
  unfolding set_close_on_exec open_pipe
  open_eventfd (failed e) = open_pipe
  open_eventfd (done (fd, c)) = do
    modify (λ t. record t { notification_fd = fd; notification_mode = eventfd; chan = c })
    set_close_on_exec fd
    pure fd

  pub init_notification : M (Notify C) ℕ
  unfolding leave_mode open_eventfd
  init_notification = do
    mode ← gets (λ s. s.notification_mode)
    leave_mode mode
    if have_eventfd then open_eventfd new_eventfd else open_pipe

module _ (channel : Channel) (full_mask : ℕ) (setup : Setup channel.State) where
  open channel use {State, pending}
  open setup use {have_eventfd, close, get_fd_flags, set_fd_flags, new_eventfd, new_pipe}

  -- No wakeup is readable from a new object.
  pub record IsFresh : Type 0 where
    pub fresh_eventfd : (fd : ℕ) (c : State) → new_eventfd ≡ done (fd, c) → pending c ≡ 0
    pub fresh_pipe : (r w : ℕ) (c : State) → new_pipe ≡ done (r, w, c) → pending c ≡ 0

  -- Every call succeeds, but that of `eventfd` may fail.
  pub record Works : Type 0 where
    pub closes : (fd : ℕ) → close fd ≡ done tt
    pub flags : ℕ → ℕ
    pub flags_read : (fd : ℕ) → get_fd_flags fd ≡ done (flags fd)
    pub flags_written : (fd f : ℕ) → set_fd_flags fd f ≡ done tt
    pub ends : ℕ × ℕ × State
    pub pipe_opened : new_pipe ≡ done ends

  module _ (works : Works) (fresh : IsFresh) where
    open works use {closes, flags, flags_read, flags_written, ends, pipe_opened}

    -- The object is new, and the rest of the state is as before.
    abbrev Opened : Notify State → Run (Notify State) ℕ → Type 0
    Opened s r =
        (fd : ℕ) × (s' : Notify State) × (r ≡ ok fd s')
        × (pending s'.chan ≡ 0)
        × (s'.notifications ≡ s.notifications)
        × (s'.notification_index ≡ s.notification_index)
        × (s'.notification_count ≡ s.notification_count)
        × (s'.notification_mutex ≡ s.notification_mutex)

    open_pipe-Opened : (s : Notify State) → Opened s (open_pipe setup s)
    unfolding open_pipe
    open_pipe-Opened s = (
      ends.0,
      record s { notification_fds = (ends.0, ends.1); notification_mode = pipe; chan = ends.2 },
      ground (
        arith,
        pipe_opened,
        flags_read ends.0,
        flags_read ends.1,
        flags_written ends.0 (bit_or (flags ends.0) fd_cloexec),
        flags_written ends.1 (bit_or (flags ends.1) fd_cloexec),
      ),
      fresh.fresh_pipe ends.0 ends.1 ends.2 pipe_opened,
      refl,
      refl,
      refl,
      refl,
    )

    open_eventfd-Opened :
        (r : Sys (ℕ × State)) (s : Notify State)
        → new_eventfd ≡ r
        → Opened s (open_eventfd setup r s)
    unfolding open_eventfd
    open_eventfd-Opened (failed e) s h = open_pipe-Opened s
    open_eventfd-Opened (done (fd, c)) s h = (
      fd,
      record s { notification_fd = fd; notification_mode = eventfd; chan = c },
      ground (arith, flags_read fd, flags_written fd (bit_or (flags fd) fd_cloexec)),
      fresh.fresh_eventfd fd c h,
      refl,
      refl,
      refl,
      refl,
    )

    -- A mode in which the call does not fail.
    abbrev Leaves : Mode → Type 0
    Leaves eventfd = have_eventfd ≡ true
    Leaves windows = ⊥
    Leaves _ = Unit

    left_state : Mode → Notify State → Notify State
    unfolding init_notifications
    left_state not_initialized s = init_notifications (record s { notification_mode = none_yet })
    left_state _ s = record s { notification_mode = none_yet }

    leave_mode-left :
        (m : Mode) (s : Notify State)
        → s.notification_mode ≡ m
        → Leaves m
        → leave_mode setup m s ≡ ok tt (left_state m s)
    unfolding leave_mode left_state
    leave_mode-left not_initialized s e h = refl
    leave_mode-left none_yet s e h = rw e refl
    leave_mode-left eventfd s e h = ground (arith, closes s.notification_fd)
    leave_mode-left pipe s e h =
        ground (arith, closes s.notification_fds.0, closes s.notification_fds.1)
    leave_mode-left windows s e h = absurd h

    open_new :
        (b : Bool) (s : Notify State)
        → Opened s ((if b then open_eventfd setup new_eventfd else open_pipe setup) s)
    open_new true s = open_eventfd-Opened new_eventfd s refl
    open_new false s = open_pipe-Opened s

    init_Opened :
        (m : Mode) (s : Notify State)
        → s.notification_mode ≡ m
        → Leaves m
        → Opened (left_state m s) (init_notification setup s)
    unfolding init_notification
    init_Opened m s e h =
        let (fd, s', opened, p, c, i, n, b) = open_new have_eventfd (left_state m s) in
        (
          fd,
          s',
          bind_ok (leave_mode setup s.notification_mode) _ s
              (ap (λ k. leave_mode setup k s) e ∙ leave_mode-left m s e h) opened,
          p,
          c,
          i,
          n,
          b,
        )

    -- The first initialization leaves an empty buffer of 4096 cells.
    first_init-IsValid :
        (s : Notify State)
        → s.notification_mode ≡ not_initialized
        → s.notification_index ≡ 0
        → (fd : ℕ) × (s' : Notify State) × (init_notification setup s ≡ ok fd s')
          × IsValid channel full_mask s' []
          × (s'.notification_count ≡ 4096)
    unfolding left_state init_notifications
    first_init-IsValid s m e =
        let (fd, s', r, asleep, cells, index, count, mutex) = init_Opened not_initialized s m tt in
        (
          fd,
          s',
          r,
          record {
            buffer = record {
              sized = ap length cells ∙ length-replicate {A = Option ℤ} 4096 none ∙ sym count;
              positive = omega (arith, count);
              index = index ∙ e;
              room = omega (arith, index, e);
              held = rw (index, e) refl;
            };
            unlocked = mutex;
            woken = asleep;
          },
          count,
        )

    -- An eventfd or a pipe is in use, as after a fork.
    abbrev pub IsOpen : Mode → Type 0
    IsOpen m = (m ≡ pipe) ⊎ ((m ≡ eventfd) × (have_eventfd ≡ true))

    left_open :
        (s : Notify State)
        → IsOpen s.notification_mode
        → Leaves s.notification_mode
          × (left_state s.notification_mode s ≡ record s { notification_mode = none_yet })
    unfolding left_state
    left_open s (inl e) = rw e (tt, refl)
    left_open s (inr (e, h)) = rw e (h, refl)

    reopened :
        (s : Notify State) (ids : List ℤ)
        → IsValid channel full_mask s ids
        → IsOpen s.notification_mode
        → (fd : ℕ) × (s' : Notify State) × (init_notification setup s ≡ ok fd s')
          × Holds s' ids
          × (s'.notification_mutex ≡ false)
          × (pending s'.chan ≡ 0)
    reopened s ids v open_mode =
        let (leaves, same) = left_open s open_mode in
        let (fd, s', r, asleep, cells, index, count, mutex) =
          init_Opened s.notification_mode s refl leaves in
        let cells' = cells ∙ ap (λ t. t.notifications) same in
        let index' = index ∙ ap (λ t. t.notification_index) same in
        let count' = count ∙ ap (λ t. t.notification_count) same in
        (
          fd,
          s',
          r,
          record {
            sized = ap length cells' ∙ v.buffer.sized ∙ sym count';
            positive = omega (arith, count', v.buffer.positive);
            index = index' ∙ v.buffer.index;
            room = omega (arith, index', count', v.buffer.room);
            held = rw (index', cells') v.buffer.held;
          },
          mutex ∙ ap (λ t. t.notification_mutex) same ∙ v.unlocked,
          asleep,
        )

    -- With nothing pending, initializing anew in the child of a fork keeps the state well-formed.
    init_notification-IsValid :
        (s : Notify State)
        → IsValid channel full_mask s []
        → IsOpen s.notification_mode
        → (fd : ℕ) × (s' : Notify State) × (init_notification setup s ≡ ok fd s')
          × IsValid channel full_mask s' []
    init_notification-IsValid s v open_mode =
        let (fd, s', r, buffer, unlocked, asleep) = reopened s [] v open_mode in
        (fd, s', r, record { buffer = buffer; unlocked = unlocked; woken = asleep })

    -- With ids pending, it leaves them in the buffer beside an object from which no wakeup is
    -- readable, and no later send wakes the main thread: each succeeds without a call of the
    -- kernel, and all ids stay in the buffer.
    pub send_all-init_notification :
        (s : Notify State) (i : ℤ) (ids sent : List ℤ)
        → IsValid channel full_mask s (i ∷ ids)
        → IsOpen s.notification_mode
        → (fd : ℕ) × (s1 s2 : Notify State) × (init_notification setup s ≡ ok fd s1)
          × (send_all channel full_mask sent s1 ≡ ok tt s2)
          × IsStuck channel full_mask s2 ((i ∷ ids) ++ sent)
    send_all-init_notification s i ids sent v open_mode =
        let (fd, s1, r, buffer, unlocked, asleep) = reopened s (i ∷ ids) v open_mode in
        let stuck : IsStuck channel full_mask s1 (i ∷ ids) = record {
          buffer = buffer;
          unlocked = unlocked;
          some_pending = refl;
          asleep = asleep;
        } in
        let (s2, r2, stuck2, _) = IsStuck-send_all channel full_mask sent s1 (i ∷ ids) stuck in
        (fd, s1, s2, r, r2, stuck2)
