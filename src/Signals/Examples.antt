-- ===== src/Signals/Examples.antt =====
-- The theorems on signals at a table of two signals.
use lwt_old.Base.{true, [], ◌∷◌}
use lwt_old.Base.Int.{pos}
use lwt_old.Signals.{Signals}

abbrev table : Signals
table = record { signal_notifications = pos 8 ∷ pos 9 ∷ []; handlers = λ n. true }
