-- ===== src/Switch/Moves.antt =====
-- The steps that change the stacks or the main thread.
use lwt_old.Base.{
  ℕ, suc, ◌≡◌, ◌≢◌, refl, sym, ap, subst, ◌∙◌, inl, inr, true, false, List, [], ◌∷◌, none, some,
  update, length, arith, Bool-cases, ==_iff, ◌==◌, if◌then◌else◌, update_ne,
}
use lwt_old.Switch.{
  state_running, state_blocked, Thread, running, allocating, taking, called, blocked, calling,
  resuming, leaving,
}
use lwt_old.Switch.Exclusive.{In, Exclusive, taken, given, added}
use lwt_old.Switch.Views.{
  frame_of, stack_of, in_call, View, Main, Call, Good, Good-map, all-update, held, update-held,
  held-same,
}
use lwt_old.Switch.Invariant.{Core, well_placed}

pub remove : ℕ → List ℕ → List ℕ
remove a [] = []
remove a (x ∷ xs) = if x == a then xs else x ∷ remove a xs

length-remove : (a : ℕ) (xs : List ℕ) → In a xs → suc (length (remove a xs)) ≡ length xs
unfolding remove
length-remove a [] n = elim n [ ]
length-remove a (x ∷ xs) (inl e) = ground (arith, e)
length-remove a (x ∷ xs) (inr n) = ground (arith, length-remove a xs n)

In-remove : (a b : ℕ) (xs : List ℕ) → a ≢ b → In b xs → In b (remove a xs)
unfolding remove
In-remove a b [] n h = elim h [ ]
In-remove a b (x ∷ xs) n h = elim (Bool-cases (x == a)) [
  | inl e ↦ rw e (elim h [ inl xb ↦ absurd (n (sym ((==_iff x a).0 e) ∙ xb)) | inr m ↦ m ])
  | inr e ↦ rw e (elim h [ inl xb ↦ inl xb | inr m ↦ inr (In-remove a b xs n m) ])
]

module _ {threads : ℕ → Thread} {v : View} (c : Core threads v) (i : ℕ) where
  -- Another thread is not on the stack of the OCaml code.
  alone : {A : Type 0} (j : ℕ) → i ≢ j → Main v i → Main v j → A
  alone j n m m' = absurd (n (m.0 ∙ sym m'.0))

  -- A frame becomes available, and the thread lets go of what it had.
  frames_given :
      {f : ℕ} (x : Thread)
      → frame_of (threads i) ≡ some f
      → frame_of x ≡ none
      → Exclusive (held frame_of (update threads i x)) (f ∷ v.enter) v.fresh_frame
  frames_given {f} x e n =
      subst (λ h. Exclusive h (f ∷ v.enter) v.fresh_frame)
        (ap (update (held frame_of threads) i) (sym n) ∙ update-held threads i x frame_of)
        (given i c.frames e)

  frames_same :
      (x : Thread)
      → frame_of (threads i) ≡ frame_of x
      → Exclusive (held frame_of (update threads i x)) v.enter v.fresh_frame
  frames_same x e =
      subst (λ h. Exclusive h v.enter v.fresh_frame) (held-same threads i x frame_of e) c.frames

  stacks_same :
      (x : Thread)
      → stack_of (threads i) ≡ stack_of x
      → Exclusive (held stack_of (update threads i x)) v.become v.fresh_stack
  stacks_same x e =
      subst (λ h. Exclusive h v.become v.fresh_stack) (held-same threads i x stack_of e) c.stacks

  -- The main thread is another.
  others_stay :
      (x : Thread)
      → i ≢ v.main_thread
      → v.main_state ≡ state_blocked
      → in_call (update threads i x v.main_thread) ≡ true
  others_stay x n h = ap in_call (update_ne threads i x v.main_thread n) ∙ c.main_in h

  running_no : {A : Type 0} → v.main_state ≡ state_running → v.main_state ≡ state_blocked → A
  running_no r b = absurd (cc (sym r ∙ b))

  pub Core-alloc :
      {job : ℕ}
      → threads i ≡ allocating job
      → Core
          (update threads i (taking job))
          (record v { enter = v.fresh_frame ∷ v.enter; fresh_frame = suc v.fresh_frame })
  Core-alloc {job} e =
      let v' : View = record v {
        enter = v.fresh_frame ∷ v.enter;
        fresh_frame = suc v.fresh_frame;
      } in
      let m : Main v i = well_placed c i e in
      record {
        good =
            all-update threads i (taking job) (Good v')
              (λ j n.
                Good-map v v' j (threads j) (λ m. (m, (λ h. cc), refl, refl, refl)) (λ f h. h)
                  (c.good j))
              (m, cc);
        main_in = running_no m.1;
        counted = c.counted;
        frames =
            subst (λ h. Exclusive h (v.fresh_frame ∷ v.enter) (suc v.fresh_frame))
              (held-same threads i (taking job) frame_of (ap frame_of e)) (added c.frames);
        stacks = stacks_same (taking job) (ap stack_of e);
      }

  pub Core-take :
      {job node : ℕ} {frames : List ℕ}
      → threads i ≡ taking job
      → v.enter ≡ node ∷ frames
      → Core
          (update threads i (called job node))
          (record v { enter = frames; job = job; frame = node; leave = node })
  Core-take {job} {node} {frames} e l =
      let v' : View = record v { enter = frames; job = job; frame = node; leave = node } in
      let m : Main v i × (v.enter ≢ []) = well_placed c i e in
      record {
        good =
            all-update threads i (called job node) (Good v')
              (λ j n.
                Good-map v v' j (threads j) (alone j n m.0)
                  (λ f h. (h.0, h.1, λ k. absurd (n (m.0.0 ∙ sym k)))) (c.good j))
              (m.0, refl, refl, refl);
        main_in = running_no m.0.1;
        counted = c.counted;
        frames =
            subst (λ h. Exclusive h frames v.fresh_frame)
              (update-held threads i (called job node) frame_of)
              (taken i (subst (λ l. Exclusive (held frame_of threads) l v.fresh_frame) l c.frames)
                (ap frame_of e));
        stacks = stacks_same (called job node) (ap stack_of e);
      }

  -- A frame becomes available: after a call that succeeded, or before the jump to a worker's stack.
  pub Core-give :
      {f : ℕ} (x : Thread)
      → frame_of (threads i) ≡ some f
      → frame_of x ≡ none
      → stack_of (threads i) ≡ stack_of x
      → in_call (threads i) ≡ in_call x
      → Good (record v { enter = f ∷ v.enter }) i x
      → Core (update threads i x) (record v { enter = f ∷ v.enter })
  Core-give {f} x e n s b g =
      let v' : View = record v { enter = f ∷ v.enter } in
      record {
        good =
            all-update threads i x (Good v')
              (λ j n.
                Good-map v v' j (threads j) (λ m. (m, (λ h. cc), refl, refl, refl)) (λ f h. h)
                  (c.good j))
              g;
        main_in = λ h. ground (arith, c.main_in h, b);
        counted = c.counted;
        frames = frames_given x e n;
        stacks = stacks_same x s;
      }

  pub Core-mark :
      {job f : ℕ}
      → threads i ≡ called job f
      → Core (update threads i (blocked v.job v.frame)) (record v { main_state = state_blocked })
  Core-mark {job} {f} e =
      let v' : View = record v { main_state = state_blocked } in
      let x : Thread = blocked v.job v.frame in
      let m : Main v i × (v.job ≡ job) × (v.frame ≡ f) × (v.leave ≡ f) = well_placed c i e in
      record {
        good =
            all-update threads i x (Good v')
              (λ j n.
                Good-map v v' j (threads j) (alone j n m.0) (λ f h. ((λ k. refl), h.1, h.2))
                  (c.good j))
              ((λ k. refl), (λ n. absurd (n m.0.0)), λ k. m.3 ∙ sym m.2);
        main_in = λ h. ground (arith, m.0.0);
        counted = c.counted;
        frames = frames_same x (ap frame_of e ∙ ap some (sym m.2));
        stacks = stacks_same x (ap stack_of e);
      }

  pub Core-succeed :
      {job f : ℕ}
      → threads i ≡ calling job f
      → v.main_thread ≡ i
      → Core (update threads i (resuming v.leave)) (record v { main_state = state_running })
  Core-succeed {job} {f} e m =
      let v' : View = record v { main_state = state_running } in
      let h : Call v i f = well_placed c i e in
      record {
        good =
            all-update threads i (resuming v.leave) (Good v')
              (λ j n.
                Good-map v v' j (threads j) (λ k. absurd (n (sym m ∙ sym k.0)))
                  (λ f k. ((λ j_main. absurd (n (sym m ∙ sym j_main))), k.1, k.2)) (c.good j))
              (sym m, refl);
        main_in = λ h. cc;
        counted = c.counted;
        frames = frames_same (resuming v.leave) (ap frame_of e ∙ ap some (sym (h.2 (sym m))));
        stacks = stacks_same (resuming v.leave) (ap stack_of e);
      }

  pub Core-leave :
      {job f node : ℕ} {nodes : List ℕ}
      → threads i ≡ calling job f
      → v.main_thread ≢ i
      → v.become ≡ node ∷ nodes
      → Core
          (update threads i (leaving f node))
          (record v { become = nodes; away = remove i v.away })
  Core-leave {job} {f} {node} {nodes} e m l =
      let v' : View = record v { become = nodes; away = remove i v.away } in
      let h : In i v.away = (well_placed c i e).1 (λ k. m (sym k)) in
      record {
        good =
            all-update threads i (leaving f node) (Good v')
              (λ j n.
                Good-map v v' j (threads j) (λ k. (k, (λ h. h), refl, refl, refl))
                  (λ f k. (k.0, (λ other. In-remove i j v.away n (k.1 other)), k.2)) (c.good j))
              tt;
        main_in = others_stay (leaving f node) (λ k. m (sym k));
        counted =
            omega (arith, length-remove i v.away h, c.counted, ap (λ (xs : List ℕ). length xs) l);
        frames = frames_same (leaving f node) (ap frame_of e);
        stacks =
            subst (λ h. Exclusive h nodes v.fresh_stack)
              (update-held threads i (leaving f node) stack_of)
              (taken i (subst (λ l. Exclusive (held stack_of threads) l v.fresh_stack) l c.stacks)
                (ap stack_of e));
      }

  pub Core-take_over :
      {k : ℕ}
      → stack_of (threads i) ≡ some k
      → frame_of (threads i) ≡ none
      → in_call (threads i) ≡ false
      → v.main_state ≡ state_blocked
      → Core (update threads i running) (record v {
        main_state = state_running;
        main_thread = i;
        become = k ∷ v.become;
        away = v.main_thread ∷ v.away;
      })
  Core-take_over {k} s f b st =
      let v' : View = record v {
        main_state = state_running;
        main_thread = i;
        become = k ∷ v.become;
        away = v.main_thread ∷ v.away;
      } in
      record {
        good =
            all-update threads i running (Good v')
              (λ j n.
                Good-map v v' j (threads j) (λ m. running_no m.1 st)
                  (λ f h. (
                    (λ same. absurd (n (sym same))),
                    (λ other. behind j f h),
                    λ same. absurd (n (sym same)),
                  ))
                  (c.good j))
              (refl, refl);
        main_in = λ h. cc;
        counted = ap suc c.counted;
        frames = frames_same running f;
        stacks =
            subst (λ h. Exclusive h (k ∷ v.become) v.fresh_stack)
              (update-held threads i running stack_of) (given i c.stacks s);
      }
    where
      behind : (j f : ℕ) → Call v j f → In j (v.main_thread ∷ v.away)
      behind j f h = elim (Bool-cases (v.main_thread == j)) [
        | inl e ↦ inl ((==_iff v.main_thread j).0 e)
        | inr e ↦ inr (h.1 (ground (arith, e)))
      ]
