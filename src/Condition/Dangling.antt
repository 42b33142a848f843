-- ===== src/Condition/Dangling.antt =====
-- The broadcast reads a node whose thread has gone on.
use lwt_old.Base.{ℕ, ◌≡◌, ◌≢◌, refl, arith}
use lwt_old.Condition.{
  outside, advancing, Condition, wait, wake, enter, set_event, Reach, initial, calm, broadcast,
}

-- For any two threads a state is reachable in which the loop of a broadcast in the one is about to
-- read the link of the node of the other, and that other thread has left
-- `lwt_unix_condition_wait`, so that its node is not there any more.
Reach-dangling :
    (i j : ℕ)
    → i ≢ j
    → (s : Condition) × Reach s × (s.threads j ≡ advancing i) × (s.threads i ≡ outside)
Reach-dangling i j n = (
  _,
  calm i
      (broadcast j (broadcast j (calm i initial (wait refl refl)) (enter (ground (arith, n)) refl))
        (set_event {node = i} (ground arith)))
      (wake (ground (arith, n)) (ground arith)),
  ground (arith, n),
  ground arith,
)
