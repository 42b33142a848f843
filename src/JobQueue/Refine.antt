-- ===== src/JobQueue/Refine.antt =====
-- The circular list is a first-in first-out queue.
use lwt_old.Base.{
  ℕ, ◌≡◌, refl, sym, ap, ap₂, ◌∙◌, ◌≢◌, Option, none, some, List, [], ◌∷◌, ◌++◌, update,
  update_self, update_ne, arith,
}
use lwt_old.JobQueue.{Queue, enqueue, dequeue, Op, add, take, step}
use lwt_old.JobQueue.Links.{
  Links, Fresh, Distinct, Distinct-append, Links-append, Links-ne_last, Links-update-Fresh,
  Links-update_last,
}

abbrev pub HoldsAt : Option ℕ → (ℕ → ℕ) → List ℕ → Type 0
HoldsAt none next xs = xs ≡ []
HoldsAt (some last) next [] = ⊥
HoldsAt (some last) next (x ∷ xs) = Links next last (x ∷ xs) last × Distinct (x ∷ xs)

-- The queue holds the jobs `xs`, oldest first, each once.
abbrev pub Holds : Queue → List ℕ → Type 0
Holds q xs = HoldsAt q.pool_queue q.next xs

enqueue_at :
    (job : ℕ) (last : Option ℕ) (next : ℕ → ℕ) (xs : List ℕ)
    → Fresh job xs
    → HoldsAt last next xs
    → Holds (enqueue job (record { pool_queue = last; next = next })) (xs ++ job ∷ [])
unfolding enqueue
enqueue_at job none next [] f h = ((update_self next job job, refl), (tt, tt))
enqueue_at job none next (x ∷ xs) f h = cc
enqueue_at job (some last) next [] f h = absurd h
enqueue_at job (some last) next (x ∷ xs) f ((e, l), d) = (
  (update_ne moved last job job other ∙ update_self next job (next last) ∙ e, chain),
  Distinct-append job (x ∷ xs) f d,
)
  where
    moved : ℕ → ℕ
    moved = update next job (next last)

    other : last ≢ job
    other p = Links-ne_last next job x xs last l f.0 f.1 (sym p)

    chain : Links (update moved last job) x (xs ++ job ∷ []) job
    chain =
        Links-append _ x xs last job
          (Links-update_last moved job x xs last d
            (Links-update-Fresh next job (next last) x xs last f.0 f.1 l))
          (update_self moved last job)

-- Enqueuing a job that is not in the queue puts it behind the others, and the queue stays
-- well-formed.
pub enqueue-Holds :
    (job : ℕ) (q : Queue) (xs : List ℕ)
    → Holds q xs
    → Fresh job xs
    → Holds (enqueue job q) (xs ++ job ∷ [])
enqueue-Holds job q xs h f = enqueue_at job q.pool_queue q.next xs f h

-- The head of the list is what `dequeue` hands out, and the tail what it leaves.
abbrev pub Takes : List ℕ → Option (ℕ × Queue) → Type 0
Takes [] r = r ≡ none
Takes (x ∷ xs) r = (q : Queue) × (r ≡ some (x, q)) × Holds q xs

dequeue_at :
    (last : Option ℕ) (next : ℕ → ℕ) (xs : List ℕ)
    → HoldsAt last next xs
    → Takes xs (dequeue (record { pool_queue = last; next = next }))
unfolding dequeue
dequeue_at none next [] h = refl
dequeue_at none next (x ∷ xs) h = cc
dequeue_at (some last) next [] h = absurd h
dequeue_at (some last) next (x ∷ []) h =
    (record { pool_queue = none; next = next }, ground (arith, ap next h.0.0, ap next h.0.1), refl)
dequeue_at (some last) next (x ∷ y ∷ xs) ((e, l), d) = (
  record { pool_queue = some last; next = update next last (next (next last)) },
  ground (arith, ap next e, l.0, d.0.0),
  ((update_self next last _ ∙ ap next e ∙ l.0, Links-update_last next _ y xs last d.1 l.1), d.1),
)

-- `dequeue` takes the oldest job off, is a fault on the empty queue only, and keeps the queue
-- well-formed.
pub dequeue-Takes : (q : Queue) (xs : List ℕ) → Holds q xs → Takes xs (dequeue q)
dequeue-Takes q xs h = dequeue_at q.pool_queue q.next xs h

-- The specification: a list of jobs, oldest first.
pub fifo_step : Op → List ℕ → List ℕ × List ℕ
fifo_step (add job) xs = ([], xs ++ job ∷ [])
fifo_step take [] = ([], [])
fifo_step take (x ∷ xs) = (x ∷ [], xs)

abbrev pub Admits : Op → List ℕ → Type 0
Admits (add job) xs = Fresh job xs
Admits take xs = Unit {0}

step-fifo :
    (op : Op) (q : Queue) (xs : List ℕ)
    → Holds q xs
    → Admits op xs
    → ((step op q).0 ≡ (fifo_step op xs).0) × Holds (step op q).1 (fifo_step op xs).1
unfolding step fifo_step
step-fifo (add job) q xs h a = (refl, enqueue-Holds job q xs h a)
step-fifo take q [] h a = rw (dequeue-Takes q [] h, step) (refl, h)
step-fifo take q (x ∷ xs) h a =
    let (q', e, h') = dequeue-Takes q (x ∷ xs) h in rw (e, step) (refl, h')

unfoldable pub run : List Op → Queue → List ℕ × Queue
unfolding step
run [] q = ([], q)
run (op ∷ ops) q = let (out, q') = step op q in let (rest, q'') = run ops q' in (out ++ rest, q'')

unfoldable pub fifo_run : List Op → List ℕ → List ℕ × List ℕ
unfolding fifo_step
fifo_run [] xs = ([], xs)
fifo_run (op ∷ ops) xs =
    let (out, ys) = fifo_step op xs in let (rest, zs) = fifo_run ops ys in (out ++ rest, zs)

-- No job is added while it is in the queue.
abbrev pub AdmitsAll : List Op → List ℕ → Type 0
AdmitsAll [] xs = Unit {0}
AdmitsAll (op ∷ ops) xs = Admits op xs × AdmitsAll ops (fifo_step op xs).1

-- Over any sequence of additions of jobs that are not in the queue and of removals, the jobs
-- come out exactly as from a first-in first-out list, and the queue holds what that list holds.
pub run-fifo_run :
    (ops : List Op) (q : Queue) (xs : List ℕ)
    → Holds q xs
    → AdmitsAll ops xs
    → ((run ops q).0 ≡ (fifo_run ops xs).0) × Holds (run ops q).1 (fifo_run ops xs).1
unfolding run fifo_run
run-fifo_run [] q xs h a = (refl, h)
run-fifo_run (op ∷ ops) q xs h (a, as') =
    let (same, h') = step-fifo op q xs h a in
    let (same', h'') = run-fifo_run ops (step op q).1 (fifo_step op xs).1 h' as' in
    (ap₂ ◌++◌ same same', h'')
