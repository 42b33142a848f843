-- ===== src/Pool/Counts.antt =====
-- Sums over the workers, and how often a job occurs in a list.
use lwt_old.Base.{
  ℕ, suc, ◌+◌, ◌≤◌, ◌≡◌, ◌≢◌, refl, sym, ap, ◌∙◌, List, [], ◌∷◌, ◌++◌, ltb, ◌==◌, if◌then◌else◌,
  arith, length,
}
use lwt_old.JobQueue.Links.{Fresh}
use lwt_old.Pool.{Worker, executing, entering, asleep, woken, MainPc, idle, inside, passed, jobs_of}

unfoldable pub total : (Worker → ℕ) → List Worker → ℕ
total f [] = 0
total f (w ∷ ws) = f w + total f ws

total-append : (f : Worker → ℕ) (xs ys : List Worker) → total f (xs ++ ys) ≡ total f xs + total f ys
unfolding total
total-append f [] ys = omega arith
total-append f (x ∷ xs) ys = omega (arith, total-append f xs ys)

pub total-snoc :
    (f : Worker → ℕ) (ws : List Worker) (w : Worker) → total f (ws ++ w ∷ []) ≡ total f ws + f w
unfolding total
total-snoc f ws w = omega (arith, total-append f ws (w ∷ []))

-- One worker goes from `w` to `w'`.
pub total-replace :
    (f : Worker → ℕ) (ws before after : List Worker) (w w' : Worker)
    → ws ≡ before ++ w ∷ after
    → total f (before ++ w' ∷ after) + f w ≡ total f ws + f w'
unfolding total
total-replace f ws before after w w' e =
    omega
      (arith, ap (total f) e, total-append f before (w ∷ after), total-append f before (w' ∷ after))

pub length-replace :
    (ws before after : List Worker) (w w' : Worker)
    → ws ≡ before ++ w ∷ after
    → length (before ++ w' ∷ after) ≡ length ws
length-replace ws [] after w w' e = rw e refl
length-replace ws (x ∷ before) after w w' e =
    ap suc (length-replace (before ++ w ∷ after) before after w w' refl) ∙ sym (ap length e)

-- The waiting threads, those that no signal has reached, and the others.
abbrev pub waits : Worker → ℕ
waits asleep = 1
waits woken = 1
waits _ = 0

abbrev pub sleeps : Worker → ℕ
sleeps asleep = 1
sleeps _ = 0

abbrev pub wakes : Worker → ℕ
wakes woken = 1
wakes _ = 0

-- 1 if the numbers are the same.
pub same : ℕ → ℕ → ℕ
same a b = if a == b then 1 else 0

-- 1 for the numbers of the jobs that were started.
pub born : ℕ → ℕ → ℕ
born n job = if ltb job n then 1 else 0

pub born-suc : (n job : ℕ) → born (suc n) job ≡ born n job + same n job
unfolding born same
born-suc n job = ground arith

pub born_zero : (job : ℕ) → born 0 job ≡ 0
unfolding born
born_zero job = ground arith

born_self : (n : ℕ) → born n n ≡ 0
unfolding born
born_self n = ground arith

abbrev pub carries : ℕ → Worker → ℕ
carries job (executing k) = same k job
carries job _ = 0

abbrev pub in_main : ℕ → MainPc → ℕ
in_main job idle = 0
in_main job (inside k) = same k job
in_main job (passed k) = same k job

pub occurs : ℕ → List ℕ → ℕ
occurs job [] = 0
occurs job (k ∷ ks) = same k job + occurs job ks

pub occurs-cons : (job k : ℕ) (ks : List ℕ) → occurs job (k ∷ ks) ≡ same k job + occurs job ks
unfolding occurs
occurs-cons job k ks = refl

pub occurs_nil : (job : ℕ) → occurs job [] ≡ 0
unfolding occurs
occurs_nil job = refl

pub occurs-append :
    (job : ℕ) (xs ys : List ℕ) → occurs job (xs ++ ys) ≡ occurs job xs + occurs job ys
unfolding occurs
occurs-append job [] ys = omega arith
occurs-append job (x ∷ xs) ys = omega (arith, occurs-append job xs ys)

pub occurs-snoc :
    (job : ℕ) (xs : List ℕ) (k : ℕ) → occurs job (xs ++ k ∷ []) ≡ occurs job xs + same k job
unfolding occurs
occurs-snoc job xs k = omega (arith, occurs-append job xs (k ∷ []))

pub occurs-jobs_of : (job : ℕ) (ws : List Worker) → occurs job (jobs_of ws) ≡ total (carries job) ws
unfolding occurs jobs_of total
occurs-jobs_of job [] = refl
occurs-jobs_of job (executing k ∷ ws) = omega (arith, occurs-jobs_of job ws)
occurs-jobs_of job (entering ∷ ws) = omega (arith, occurs-jobs_of job ws)
occurs-jobs_of job (asleep ∷ ws) = omega (arith, occurs-jobs_of job ws)
occurs-jobs_of job (woken ∷ ws) = omega (arith, occurs-jobs_of job ws)

pub same_self : (a : ℕ) → same a a ≡ 1
unfolding same
same_self a = ground arith

same-zero : (a b : ℕ) → same a b ≡ 0 → b ≢ a
unfolding same
same-zero a b h e = ground arith

pub Fresh-occurs : (job : ℕ) (xs : List ℕ) → occurs job xs ≡ 0 → Fresh job xs
unfolding occurs
Fresh-occurs job [] h = tt
Fresh-occurs job (x ∷ xs) h =
    (same-zero x job (omega (arith, h)), Fresh-occurs job xs (omega (arith, h)))

pub total_nil : (f : Worker → ℕ) → total f [] ≡ 0
unfolding total
total_nil f = refl

pub born-le-one : (n job : ℕ) → born n job ≤ 1
unfolding born
born-le-one n job = ground arith

pub waits-le-length : (ws : List Worker) → total waits ws ≤ length ws
unfolding total
waits-le-length [] = omega arith
waits-le-length (executing job ∷ ws) = omega (arith, waits-le-length ws)
waits-le-length (entering ∷ ws) = omega (arith, waits-le-length ws)
waits-le-length (asleep ∷ ws) = omega (arith, waits-le-length ws)
waits-le-length (woken ∷ ws) = omega (arith, waits-le-length ws)

abbrev NoneSleeps : List Worker → Type 0
NoneSleeps ws = (before after : List Worker) → ws ≢ before ++ asleep ∷ after

NoneSleeps-tail : (w : Worker) (ws : List Worker) → NoneSleeps (w ∷ ws) → NoneSleeps ws
NoneSleeps-tail w ws h before after e = h (w ∷ before) after (ap (λ r. w ∷ r) e)

pub sleeps_none : (ws : List Worker) → NoneSleeps ws → total sleeps ws ≡ 0
unfolding total
sleeps_none [] h = refl
sleeps_none (executing job ∷ ws) h = omega (arith, sleeps_none ws (NoneSleeps-tail _ ws h))
sleeps_none (entering ∷ ws) h = omega (arith, sleeps_none ws (NoneSleeps-tail _ ws h))
sleeps_none (asleep ∷ ws) h = absurd (h [] ws refl)
sleeps_none (woken ∷ ws) h = omega (arith, sleeps_none ws (NoneSleeps-tail _ ws h))
