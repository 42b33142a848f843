-- ===== src/Notify.antt =====
-- src/unix/lwt_unix_stubs.c, "Notifications": ids are stored in a buffer that grows, under a
-- mutex and with all signals blocked, and the main thread is woken through an eventfd or a pipe
-- when the buffer stops being empty.
pub mod Invariant
pub mod Wakeup
pub mod Init
mod Examples
use lwt_old.Base.{
  ℕ, zero, suc, ◌+◌, ◌*◌, ◌≡◌, Bool, true, false, Option, none, some, List, [], ◌∷◌, ◌++◌, take,
  replicate, length, set, ltb, ◌==◌, if◌then◌else◌,
}
use Prim.Native.String.{String}
use lwt_old.Base.Int.{ℤ}
use lwt_old.Base.Outcome.{
  Sys, done, failed, unix_error, ok, fault, M, ◌>>=◌, ◌>>◌, pure, raise, gets, modify, undefined,
}

pub data Mode : Type 0 where
  not_initialized none_yet eventfd pipe windows : Mode

-- The kernel's object behind `notification_send` and `notification_recv`. `pending` counts the
-- wakeups that can be read: an eventfd's counter, the bytes in a pipe.
pub record Channel : Type 1 where
  pub State : Type 0
  pub send : State → Sys State
  pub recv : State → Sys State
  pub pending : State → ℕ
  pub pending-send : (c d : State) → pending c ≡ 0 → send c ≡ done d → pending d ≡ 1
  pub pending-recv : (c d : State) → pending c ≡ 1 → recv c ≡ done d → pending d ≡ 0

-- `none` is a cell that has not been written yet.
pub record Notify (C : Type 0) : Type 0 where
  pub notifications : List (Option ℤ)
  pub notification_count : ℕ
  pub notification_index : ℕ
  pub notification_mode : Mode
  pub notification_mutex : Bool
  pub notification_fd : ℕ
  pub notification_fds : ℕ × ℕ
  pub mask : ℕ
  pub chan : C

pub read_cells : ℕ → List (Option ℤ) → Option (List ℤ)
read_cells zero cells = some []
read_cells (suc n) [] = none
read_cells (suc n) (none ∷ cells) = none
read_cells (suc n) (some id ∷ cells) = elim (read_cells n cells) [
  | none ↦ none
  | some ids ↦ some (id ∷ ids)
]

module _ {C : Type 0} where
  abbrev pub lock : M (Notify C) (Unit {0})
  lock s = elim s.notification_mutex [
    | true ↦ fault
    | false ↦ ok tt (record s { notification_mutex = true })
  ]

  abbrev pub unlock : M (Notify C) (Unit {0})
  unlock = modify (λ s. record s { notification_mutex = false })

  abbrev pub set_mask : ℕ → M (Notify C) (Unit {0})
  set_mask m = modify (λ s. record s { mask = m })

  unfoldable pub init_notifications : Notify C → Notify C
  init_notifications s = record s {
    notification_mutex = false;
    notification_count = 4096;
    notifications = replicate 4096 none;
  }

  -- The old buffer is copied to the first half of the new one.
  pub resize_notifications : Notify C → Notify C
  resize_notifications s = record s {
    notifications =
        take s.notification_count s.notifications ++ replicate s.notification_count none;
    notification_count = s.notification_count * 2;
  }

  -- `notifications[notification_index++] = id`
  pub store : ℤ → M (Notify C) (Unit {0})
  store id s =
      if ltb s.notification_index (length s.notifications)
      then ok tt (record s {
        notifications = set s.notifications s.notification_index (some id);
        notification_index = s.notification_index + 1;
      })
      else fault

module _ (channel : Channel) (full_mask : ℕ) where
  open channel use {State, send, recv}

  -- `ret < 0` is `failed`.
  pub call : (State → Sys State) → M (Notify State) (Option ℕ)
  call f s = elim (f s.chan) [ done d ↦ ok none (record s { chan = d }) | failed e ↦ ok (some e) s ]

  pub leave : {A : Type 0} → ℕ → A → M (Notify State) A
  leave old a = do unlock; set_mask old; pure a

  pub give_up : {A : Type 0} → ℕ → String → Option ℕ → M (Notify State) A → M (Notify State) A
  give_up old name none k = k
  give_up old name (some e) k = do unlock; set_mask old; raise (unix_error e name "")

  pub send_notification : ℤ → M (Notify State) (Unit {0})
  unfolding call leave give_up
  send_notification id = do
    old ← gets (λ s. s.mask)
    set_mask full_mask
    lock
    waiting ← gets (λ s. ltb 0 s.notification_index)
    if waiting
        then (do
          full ← gets (λ s. s.notification_index == s.notification_count)
          modify (λ s. if full then resize_notifications s else s)
          store id
          leave old tt)
        else (do store id; ret ← call send; give_up old "send_notification" ret (leave old tt))

  pub recv_notifications : M (Notify State) (List ℤ)
  unfolding call leave give_up read_cells
  recv_notifications = do
    old ← gets (λ s. s.mask)
    set_mask full_mask
    lock
    ret ← call recv
    give_up old "recv_notifications" ret (do
      result ← gets (λ s. read_cells s.notification_index s.notifications)
      modify (λ s. record s { notification_index = 0 })
      elim result [ none ↦ undefined | some ids ↦ leave old ids ])
