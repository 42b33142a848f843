-- ===== src/Condition.antt =====
-- src/unix/lwt_unix_stubs.c, the condition variables for Windows: `lwt_unix_condition_wait`,
-- `lwt_unix_condition_signal` and `lwt_unix_condition_broadcast`. The sections under the mutex of
-- the condition are single steps but for the loop of the broadcast, which sets events that other
-- threads wait for without the mutex.
pub mod Waiters
pub mod Dangling
mod Examples
use lwt_old.Base.{ℕ, ◌≡◌, Bool, true, false, Option, none, some, update}

-- A thread is outside the functions, or waits for the event of its node, or is in the loop of the
-- broadcast: at the test for a node, or behind `SetEvent` for one.
pub data Thread : Type 0 where
  outside : Thread
  waiting : Thread
  broadcasting : Option ℕ → Thread
  advancing : ℕ → Thread

-- A node is on the stack of the thread that waits, so it is known by the thread, and is there while
-- the thread waits. `event` tells whether the event of a node is set; `busy`, whether a broadcast
-- has the mutex.
pub record Condition : Type 0 where
  pub threads : ℕ → Thread
  pub waiters : Option ℕ
  pub next : ℕ → Option ℕ
  pub event : ℕ → Bool
  pub busy : Bool

-- `lwt_unix_condition_wait` and `lwt_unix_condition_signal`, in the thread `i`.
pub data Step (i : ℕ) (s : Condition) : Condition → Type 0 where
  wait :
      s.threads i ≡ outside
      → s.busy ≡ false
      → Step i s (record s {
        threads = update s.threads i waiting;
        event = update s.event i false;
        next = update s.next i s.waiters;
        waiters = some i;
      })
  wake :
      s.threads i ≡ waiting
      → s.event i ≡ true
      → Step i s (record s { threads = update s.threads i outside })
  signal :
      (node : ℕ)
      → s.threads i ≡ outside
      → s.busy ≡ false
      → s.waiters ≡ some node
      → Step i s (record s { waiters = s.next node; event = update s.event node true })
  signal_none : s.threads i ≡ outside → s.busy ≡ false → s.waiters ≡ none → Step i s s

-- `lwt_unix_condition_broadcast`
pub data BroadcastStep (i : ℕ) (s : Condition) : Condition → Type 0 where
  enter :
      s.threads i ≡ outside
      → s.busy ≡ false
      → BroadcastStep i s
          (record s { threads = update s.threads i (broadcasting s.waiters); busy = true })
  set_event :
      {node : ℕ}
      → s.threads i ≡ broadcasting (some node)
      → BroadcastStep i s (record s {
        threads = update s.threads i (advancing node);
        event = update s.event node true;
      })
  advance :
      {node : ℕ}
      → s.threads i ≡ advancing node
      → BroadcastStep i s (record s { threads = update s.threads i (broadcasting (s.next node)) })
  leave :
      s.threads i ≡ broadcasting none
      → BroadcastStep i s
          (record s { threads = update s.threads i outside; waiters = none; busy = false })

-- `lwt_unix_condition_init`
abbrev pub init : Condition
init = record {
  threads = λ i. outside;
  waiters = none;
  next = λ i. none;
  event = λ i. false;
  busy = false;
}

-- The states that are reached by waiting and by signals.
pub data Calm : Condition → Type 0 where
  start : Calm init
  later : {s t : Condition} (i : ℕ) → Calm s → Step i s t → Calm t

-- The states that are reached with broadcasts as well.
pub data Reach : Condition → Type 0 where
  initial : Reach init
  calm : {s t : Condition} (i : ℕ) → Reach s → Step i s t → Reach t
  broadcast : {s t : Condition} (i : ℕ) → Reach s → BroadcastStep i s t → Reach t
