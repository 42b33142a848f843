-- ===== src/Signals.antt =====
-- src/unix/lwt_unix_stubs.c, the signals that are watched: `signal_notifications` and the
-- functions on it, for systems other than Windows.
pub mod Watch
mod Examples
use lwt_old.Base.{
  ℕ, zero, suc, Bool, true, false, List, [], ◌∷◌, Option, none, some, ltb, if◌then◌else◌, replicate,
  set, get_elem?, update,
}
use lwt_old.Base.Int.{ℤ, pos, negsuc}
use lwt_old.Base.Outcome.{
  Sys, done, failed, M, ◌>>=◌, ◌>>◌, pure, raise, modify, undefined, invalid_argument, unix_error,
}
use lwt_old.Notify.{Notify, Channel, send_notification}

-- The table, and the signals for which `handle_signal` is installed.
pub record Signals : Type 0 where
  pub signal_notifications : List ℤ
  pub handlers : ℕ → Bool

-- The number of a signal if it is one of the table's: `signum >= 0 && signum < NSIG`.
pub index : ℕ → ℤ → Option ℕ
index nsig (pos n) = if ltb n nsig then some n else none
index nsig (negsuc n) = none

-- An id that is not -1.
pub id_of : ℤ → Option ℤ
id_of (pos n) = some (pos n)
id_of (negsuc zero) = none
id_of (negsuc (suc n)) = some (negsuc (suc n))

-- The id in a place of the table.
pub cell : Option ℤ → Option ℤ
unfolding id_of
cell none = none
cell (some id) = id_of id

-- A function of the number, where there is one.
abbrev pub on_index : {A : Type 0} → Option ℕ → A → (ℕ → A) → A
on_index none a f = a
on_index (some n) a f = f n

pub assign : ℕ → ℤ → M Signals (Unit {0})
assign n id = modify (λ s. record s { signal_notifications = set s.signal_notifications n id })

pub handle_by : ℕ → Bool → M Signals (Unit {0})
handle_by n handler = modify (λ s. record s { handlers = update s.handlers n handler })

-- What `set_signal` and `remove_signal` do by the answer of `sigaction`, which the second does not
-- look at.
pub after_set : ℕ → Sys (Unit {0}) → M Signals (Unit {0})
unfolding assign handle_by
after_set n (failed e) = do assign n (negsuc 0); raise (unix_error e "sigaction" "")
after_set n (done u) = handle_by n true

pub after_remove : ℕ → Sys (Unit {0}) → M Signals (Unit {0})
unfolding handle_by
after_remove n (failed e) = pure tt
after_remove n (done u) = handle_by n false

-- `sigaction` installs `handle_signal`, or the default handler.
module _ (nsig : ℕ) (sigaction : ℕ → Bool → Sys (Unit {0})) where
  pub set_signal : ℤ → ℤ → M Signals (Unit {0})
  unfolding index assign after_set
  set_signal signum notification =
      on_index (index nsig signum)
        (raise (invalid_argument "Lwt_unix.on_signal: unavailable signal"))
        (λ n. do assign n notification; after_set n (sigaction n true))

  -- The number is one that `set_signal` took.
  pub remove_signal : ℤ → M Signals (Unit {0})
  unfolding index assign after_remove
  remove_signal signum =
      on_index (index nsig signum) undefined
        (λ n. do assign n (negsuc 0); after_remove n (sigaction n false))

module _ (nsig : ℕ) where
  pub init_signals : Signals → Signals
  init_signals s = record s { signal_notifications = replicate nsig (negsuc 0) }

  -- The id that `handle_signal` sends, if it sends one.
  pub watched : ℤ → Signals → Option ℤ
  unfolding index cell
  watched signum s =
      on_index (index nsig signum) none (λ n. cell (get_elem? s.signal_notifications n))

  pub handle_signal : (channel : Channel) → ℕ → ℤ → Signals → M (Notify channel.State) (Unit {0})
  unfolding watched
  handle_signal channel full_mask signum s = elim (watched signum s) [
    | none ↦ pure tt
    | some id ↦ send_notification channel full_mask id
  ]
