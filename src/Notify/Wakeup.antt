-- ===== src/Notify/Wakeup.antt =====
-- Batches of notifications, and what becomes of the wakeup when a send fails.
use lwt_old.Base.{
  ℕ, ◌≡◌, refl, sym, subst, ap, ◌∙◌, inl, inr, false, List, [], ◌∷◌, ◌++◌, append_assoc, append-nil,
}
use lwt_old.Base.Int.{ℤ}
use lwt_old.Base.Outcome.{done, failed, unix_error, ok, raised, M, ◌>>=◌, ◌>>◌, pure, bind_ok}
use lwt_old.Notify.{Channel, Notify, send_notification, recv_notifications}
use lwt_old.Notify.Invariant.{
  Holds, IsValid, any, send_notification-Sent, recv_notifications-Received, any-append,
  send_waiting, send_refused,
}

module _ (channel : Channel) (full_mask : ℕ) where
  open channel use {State, send, recv, pending}

  pub send_all : List ℤ → M (Notify State) (Unit {0})
  send_all [] = pure tt
  send_all (id ∷ ids) = do send_notification channel full_mask id; send_all ids

  send_all-IsValid :
      ((c : State) → pending c ≡ 0 → (d : State) × (send c ≡ done d))
      → (sent : List ℤ) (s : Notify State) (ids : List ℤ) → IsValid channel full_mask s ids
      → (s' : Notify State) × (send_all sent s ≡ ok tt s')
        × IsValid channel full_mask s' (ids ++ sent)
        × (s'.mask ≡ s.mask)
  unfolding send_all
  send_all-IsValid open_end [] s ids v =
      (s, refl, subst (IsValid channel full_mask s) (sym (append-nil ids)) v, refl)
  send_all-IsValid open_end (id ∷ sent) s ids v =
      elim (send_notification-Sent channel full_mask s ids id v) [
        | inl (s1, e1, v1, m1) ↦
            let (s2, e2, v2, m2) = send_all-IsValid open_end sent s1 (ids ++ id ∷ []) v1 in
            (
              s2,
              bind_ok (send_notification channel full_mask id) (λ _. send_all sent) s e1 e2,
              subst (IsValid channel full_mask s2) (append_assoc ids (id ∷ []) sent) v2,
              m2 ∙ m1,
            )
        | inr (e, s1, e1, none_left, refused, _, _, _, _) ↦
            let empty : pending s.chan ≡ 0 = v.woken ∙ ap any none_left in
            absurd (cc (open_end s.chan empty).1)
      ]

  -- Where the kernel accepts a wakeup when none is readable, and hands out one that is: from a
  -- well-formed state with nothing pending, any nonempty batch of ids is sent, however long, and
  -- the next receive returns exactly that batch in its order. The state is then well-formed with
  -- nothing pending, and the signal mask is the one before.
  pub recv-send_all :
      ((c : State) → pending c ≡ 0 → (d : State) × (send c ≡ done d))
      → ((c : State) → pending c ≡ 1 → (d : State) × (recv c ≡ done d))
      → (s : Notify State) (i : ℤ) (ids : List ℤ) → IsValid channel full_mask s []
      → (s' : Notify State) × ((send_all (i ∷ ids) >>= λ _. recv_notifications channel full_mask) s
          ≡ ok (i ∷ ids) s')
        × IsValid channel full_mask s' []
        × (s'.mask ≡ s.mask)
  recv-send_all open_end readable s i ids v =
      let (s1, e1, v1, m1) = send_all-IsValid open_end (i ∷ ids) s [] v in
      elim (recv_notifications-Received channel full_mask s1 i ids v1) [
        | inl (s2, e2, v2, m2) ↦ (
          s2,
          bind_ok (send_all (i ∷ ids)) (λ _. recv_notifications channel full_mask) s e1 e2,
          v2,
          m2 ∙ m1,
        )
        | inr (e, s2, e2, refused, _, _) ↦ absurd (cc (readable s1.chan v1.woken).1)
      ]

  -- A state in which ids are pending while no wakeup is readable.
  pub record IsStuck (s : Notify State) (ids : List ℤ) : Type 0 where
    pub buffer : Holds s ids
    pub unlocked : s.notification_mutex ≡ false
    pub some_pending : any ids ≡ 1
    pub asleep : pending s.chan ≡ 0

  send-IsStuck :
      (s : Notify State) (ids : List ℤ) (id : ℤ)
      → IsStuck s ids
      → (s' : Notify State) × (send_notification channel full_mask id s ≡ ok tt s')
        × IsStuck s' (ids ++ id ∷ [])
        × (s'.chan ≡ s.chan)
  send-IsStuck s ids id v =
      let (s', e, buffer, unlocked, mask, chan) =
        send_waiting channel full_mask s ids id v.buffer v.unlocked v.some_pending in
      (
        s',
        e,
        record {
          buffer = buffer;
          unlocked = unlocked;
          some_pending = any-append ids id;
          asleep = ap pending chan ∙ v.asleep;
        },
        chan,
      )

  pub IsStuck-send_all :
      (sent : List ℤ) (s : Notify State) (ids : List ℤ)
      → IsStuck s ids
      → (s' : Notify State) × (send_all sent s ≡ ok tt s')
        × IsStuck s' (ids ++ sent)
        × (s'.chan ≡ s.chan)
  unfolding send_all
  IsStuck-send_all [] s ids v = (s, refl, subst (IsStuck s) (sym (append-nil ids)) v, refl)
  IsStuck-send_all (id ∷ sent) s ids v =
      let (s1, e1, v1, c1) = send-IsStuck s ids id v in
      let (s2, e2, v2, c2) = IsStuck-send_all sent s1 (ids ++ id ∷ []) v1 in
      (
        s2,
        bind_ok (send_notification channel full_mask id) (λ _. send_all sent) s e1 e2,
        subst (IsStuck s2) (append_assoc ids (id ∷ []) sent) v2,
        c2 ∙ c1,
      )

  -- A send that fails while nothing is pending leaves its id in the buffer. From then on no send
  -- wakes the main thread, even if the object has changed meanwhile so that its calls would succeed:
  -- where no wakeup is readable from it, each send returns and leaves the object as it is, with all
  -- ids in the buffer.
  pub send_all-IsStuck :
      (s : Notify State) (id : ℤ) (e : ℕ) (ids : List ℤ) (c : State)
      → IsValid channel full_mask s []
      → send s.chan ≡ failed e
      → pending c ≡ 0
      → (s1 s2 : Notify State) × (send_notification channel full_mask id s
          ≡ raised (unix_error e "send_notification" "") s1)
        × (send_all ids (record s1 { chan = c }) ≡ ok tt s2)
        × (s2.chan ≡ c)
        × IsStuck s2 (id ∷ ids)
  send_all-IsStuck s id e ids c v refused empty =
      let (s1, e1, buffer, unlocked, _, chan) = send_refused channel full_mask s id e v refused in
      let stuck : IsStuck (record s1 { chan = c }) (id ∷ []) = record {
        buffer = record {
          sized = buffer.sized;
          positive = buffer.positive;
          index = buffer.index;
          room = buffer.room;
          held = buffer.held;
        };
        unlocked = unlocked;
        some_pending = refl;
        asleep = empty;
      } in
      let (s2, e2, v2, c2) = IsStuck-send_all ids (record s1 { chan = c }) (id ∷ []) stuck in
      (s1, s2, e1, e2, c2, v2)
