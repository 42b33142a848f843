-- ===== src/Condition/Examples.antt =====
-- A condition for which threads wait, and the theorems at it.
use lwt_old.Base.{ℕ, ◌≡◌, true, false, refl}
use lwt_old.Condition.{outside, waiting, Condition, Step, wait, Calm, start, later}
use lwt_old.Condition.Waiters.{Calm-signal}

-- The threads 1 and 2 wait.
two_wait :
    (s : Condition) × Calm s
    × (s.threads 1 ≡ waiting)
    × (s.event 1 ≡ false)
    × (s.threads 0 ≡ outside)
two_wait = (_, later 2 (later 1 start (wait refl refl)) (wait refl refl), refl, refl, refl)

Calm-signal_example :
    (node : ℕ) × (t : Condition) × (two_wait.0.threads node ≡ waiting)
    × (two_wait.0.event node ≡ false)
    × Step 0 two_wait.0 t
    × (t.event node ≡ true)
Calm-signal_example = Calm-signal two_wait.1 two_wait.2 two_wait.3 two_wait.4
