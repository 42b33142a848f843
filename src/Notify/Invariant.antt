-- ===== src/Notify/Invariant.antt =====
-- The buffer holds the pending ids in the order of their sending, and a wakeup is readable
-- exactly while some id is pending.
use mathlib.Core.List.{map-append}
use native.Mathlib.Numerals.{add-one}
use lwt_old.Base.{
  ℕ, zero, suc, ◌+◌, ◌≤◌, ◌<◌, ◌≡◌, refl, ap, ◌∙◌, ◌⊎◌, inl, inr, Bool, true, false, Option, none,
  some, List, [], ◌∷◌, ◌++◌, map, take, replicate, length, set, ◌==◌, if◌then◌else◌, Bool-cases,
  arith, length-append, length-set, length-take, length-replicate, take-set, take-append, take_all,
}
use lwt_old.Base.Int.{ℤ}
use lwt_old.Base.Outcome.{done, failed, Sys-cases, unix_error, Run, ok, raised}
use lwt_old.Notify.{
  Channel, Notify, send_notification, recv_notifications, store, resize_notifications, read_cells,
  call,
}

-- Whether an id is pending, as a number.
abbrev pub any : List ℤ → ℕ
any [] = 0
any (id ∷ ids) = 1

pub any-append : (ids : List ℤ) (id : ℤ) → any (ids ++ id ∷ []) ≡ 1
any-append [] id = refl
any-append (i ∷ ids) id = refl

any-pos : (ids : List ℤ) → any ids ≡ 1 → 0 < length ids
any-pos [] h = absurd (omega arith)
any-pos (i ∷ ids) h = omega arith

pub record Holds {C : Type 0} (s : Notify C) (ids : List ℤ) : Type 0 where
  pub sized : length s.notifications ≡ s.notification_count
  pub positive : 0 < s.notification_count
  pub index : s.notification_index ≡ length ids
  pub room : s.notification_index ≤ s.notification_count
  pub held : take s.notification_index s.notifications ≡ map some ids

module _ {C : Type 0} where
  -- The buffer does not depend on the other fields.
  fields-Holds :
      (s : Notify C) (b : Bool) (m : ℕ) (c : C) {ids : List ℤ}
      → Holds s ids
      → Holds (record s { notification_mutex = b; mask = m; chan = c }) ids
  fields-Holds s b m c h = record {
    sized = h.sized;
    positive = h.positive;
    index = h.index;
    room = h.room;
    held = h.held;
  }

  resize-Holds : (s : Notify C) (ids : List ℤ) → Holds s ids → Holds (resize_notifications s) ids
  unfolding resize_notifications
  resize-Holds s ids h = record {
    sized = omega (
      arith,
      length-append (take s.notification_count s.notifications)
          (replicate s.notification_count none),
      length-take s.notification_count s.notifications,
      length-replicate {A = Option ℤ} s.notification_count none,
      h.sized,
    );
    positive = omega (arith, h.positive);
    index = h.index;
    room = omega (arith, h.room);
    held = rw (take_all s.notification_count s.notifications (omega (arith, h.sized))) (
        take-append s.notification_index s.notifications _ (omega (arith, h.room, h.sized))
        ∙ h.held);
  }

  -- A cell is free, so `id` goes behind the pending ids.
  store-Holds :
      (s : Notify C) (ids : List ℤ) (id : ℤ)
      → Holds s ids
      → s.notification_index < s.notification_count
      → (s' : Notify C) × (store id s ≡ ok tt s') × Holds s' (ids ++ id ∷ []) × (s'.chan ≡ s.chan)
  unfolding store
  store-Holds s ids id h free = (
    record s {
      notifications = set s.notifications s.notification_index (some id);
      notification_index = s.notification_index + 1;
    },
    ground (arith, h.sized),
    record {
      sized = length-set s.notifications s.notification_index (some id) ∙ h.sized;
      positive = h.positive;
      index = omega (arith, h.index, length-append ids (id ∷ []));
      room = omega arith;
      held =
          rw (add-one s.notification_index, map-append some ids (id ∷ []), ← h.held)
            (take-set s.notifications s.notification_index (some id) (omega (arith, h.sized)));
    },
    refl,
  )

read_cells-take :
    (n : ℕ) (cells : List (Option ℤ)) (ids : List ℤ)
    → n ≡ length ids
    → take n cells ≡ map some ids
    → read_cells n cells ≡ some ids
unfolding read_cells
read_cells-take zero cells [] e h = refl
read_cells-take zero cells (id ∷ ids) e h = absurd (omega arith)
read_cells-take (suc n) cells [] e h = absurd (omega arith)
read_cells-take (suc n) [] (id ∷ ids) e h = cc
read_cells-take (suc n) (none ∷ cells) (id ∷ ids) e h = cc
read_cells-take (suc n) (some x ∷ cells) (id ∷ ids) e h =
    ground (arith, read_cells-take n cells ids)

module _ (channel : Channel) (full_mask : ℕ) where
  open channel use {State, send, recv, pending}

  -- The buffer is well-formed, nobody holds the mutex, and one wakeup is readable if some id is
  -- pending, and none otherwise.
  pub record IsValid (s : Notify State) (ids : List ℤ) : Type 0 where
    pub buffer : Holds s ids
    pub unlocked : s.notification_mutex ≡ false
    pub woken : pending s.chan ≡ any ids

  -- A send by a thread with signal mask `m` that has stored `id` behind `ids`.
  abbrev pub Sent : Notify State → List ℤ → ℤ → Run (Notify State) (Unit {0}) → Type 0
  Sent s ids id r =
      ((s' : Notify State) × (r ≡ ok tt s') × IsValid s' (ids ++ id ∷ []) × (s'.mask ≡ s.mask))
      ⊎ ((e : ℕ) × (s' : Notify State) × (r ≡ raised (unix_error e "send_notification" "") s')
          × (ids ≡ [])
          × (send s.chan ≡ failed e)
          × Holds s' (id ∷ [])
          × (s'.notification_mutex ≡ false)
          × (s'.mask ≡ s.mask)
          × (s'.chan ≡ s.chan))

  -- The state in which the critical section starts.
  abbrev entered : Notify State → Notify State
  entered s = record s { mask = full_mask; notification_mutex = true }

  -- The state after the critical section of a thread whose mask was `m`.
  abbrev left : ℕ → Notify State → Notify State
  left m s = record s { mask = m; notification_mutex = false }

  -- There is room for one more id after the test for a full buffer.
  grown : Notify State → Notify State
  grown s = if s.notification_index == s.notification_count then resize_notifications s else s

  grown-Holds :
      (s : Notify State) (ids : List ℤ)
      → Holds s ids
      → Holds (grown s) ids
        × ((grown s).notification_index < (grown s).notification_count)
        × ((grown s).chan ≡ s.chan)
  unfolding grown resize_notifications
  grown-Holds s ids h = elim (Bool-cases (s.notification_index == s.notification_count)) [
    | inl e ↦ rw e (resize-Holds s ids h, ground (arith, h.positive), refl)
    | inr e ↦ rw e (h, ground (arith, h.room), refl)
  ]

  -- While ids are pending a send only stores its id.
  pub send_waiting :
      (s : Notify State) (ids : List ℤ) (id : ℤ)
      → Holds s ids
      → s.notification_mutex ≡ false
      → any ids ≡ 1
      → (s' : Notify State) × (send_notification channel full_mask id s ≡ ok tt s')
        × Holds s' (ids ++ id ∷ [])
        × (s'.notification_mutex ≡ false)
        × (s'.mask ≡ s.mask)
        × (s'.chan ≡ s.chan)
  unfolding send_notification grown
  send_waiting s ids id h unlocked some_pending =
      let (full, free, same) =
        grown-Holds (entered s) ids (fields-Holds s true full_mask s.chan h) in
      let (s', e, buffer, chan) = store-Holds (grown (entered s)) ids id full free in
      (
        left s.mask s',
        ground (arith, unlocked, h.index, any-pos ids some_pending, e),
        fields-Holds s' false s.mask s'.chan buffer,
        refl,
        refl,
        chan ∙ same,
      )

  -- The first pending id wakes the main thread.
  send_first :
      (s : Notify State) (id : ℤ) (d : State)
      → IsValid s []
      → send s.chan ≡ done d
      → (s' : Notify State) × (send_notification channel full_mask id s ≡ ok tt s')
        × IsValid s' (id ∷ [])
        × (s'.mask ≡ s.mask)
  unfolding send_notification call
  send_first s id d v sent =
      let (s', e, buffer, chan) =
        store-Holds (entered s) [] id (fields-Holds s true full_mask s.chan v.buffer)
          (omega (arith, v.buffer.index, v.buffer.positive)) in
      (
        left s.mask (record s' { chan = d }),
        ground (arith, v.unlocked, v.buffer.index, e, chan),
        record {
          buffer = fields-Holds s' false s.mask d buffer;
          unlocked = refl;
          woken = channel.pending-send s.chan d v.woken sent;
        },
        refl,
      )

  -- If that fails, the id stays behind.
  pub send_refused :
      (s : Notify State) (id : ℤ) (err : ℕ)
      → IsValid s []
      → send s.chan ≡ failed err
      → (s' : Notify State) × (send_notification channel full_mask id s
          ≡ raised (unix_error err "send_notification" "") s')
        × Holds s' (id ∷ [])
        × (s'.notification_mutex ≡ false)
        × (s'.mask ≡ s.mask)
        × (s'.chan ≡ s.chan)
  unfolding send_notification call
  send_refused s id err v refused =
      let (s', e, buffer, chan) =
        store-Holds (entered s) [] id (fields-Holds s true full_mask s.chan v.buffer)
          (omega (arith, v.buffer.index, v.buffer.positive)) in
      (
        left s.mask s',
        ground (arith, v.unlocked, v.buffer.index, e, chan),
        fields-Holds s' false s.mask s'.chan buffer,
        refl,
        refl,
        chan,
      )

  -- Sending from a well-formed state: the id is stored behind the pending ones and the state
  -- stays well-formed, the kernel being called only if nothing was pending; or that call fails.
  -- Then the error is raised with the id stored and nobody woken. The mutex is released and the
  -- signal mask restored in every case.
  pub send_notification-Sent :
      (s : Notify State) (ids : List ℤ) (id : ℤ)
      → IsValid s ids
      → Sent s ids id (send_notification channel full_mask id s)
  send_notification-Sent s [] id v = elim (Sys-cases (send s.chan)) [
    | inl (d, sent) ↦ inl (send_first s id d v sent)
    | inr (err, refused) ↦
        let (s', e, buffer, unlocked, mask, chan) = send_refused s id err v refused in
        inr (err, s', e, refl, refused, buffer, unlocked, mask, chan)
  ]
  send_notification-Sent s (i ∷ ids) id v =
      let (s', e, buffer, unlocked, mask, chan) =
        send_waiting s (i ∷ ids) id v.buffer v.unlocked refl in
      inl (
        s',
        e,
        record { buffer = buffer; unlocked = unlocked; woken = ap pending chan ∙ v.woken },
        mask,
      )

  -- A receive by a thread while `ids` are pending.
  abbrev pub Received : Notify State → List ℤ → Run (Notify State) (List ℤ) → Type 0
  Received s ids r =
      ((s' : Notify State) × (r ≡ ok ids s') × IsValid s' [] × (s'.mask ≡ s.mask))
      ⊎ ((e : ℕ) × (s' : Notify State) × (r ≡ raised (unix_error e "recv_notifications" "") s')
          × (recv s.chan ≡ failed e)
          × IsValid s' ids
          × (s'.mask ≡ s.mask))

  -- Receiving while some id is pending returns all pending ids, in the order in which they were
  -- sent, and leaves a well-formed state with none; or the kernel call fails, and then the error
  -- is raised and every pending id stays. The mutex is released and the signal mask restored in
  -- both cases.
  pub recv_notifications-Received :
      (s : Notify State) (i : ℤ) (ids : List ℤ)
      → IsValid s (i ∷ ids)
      → Received s (i ∷ ids) (recv_notifications channel full_mask s)
  unfolding recv_notifications call
  recv_notifications-Received s i ids v =
      let h = v.buffer in
      let cells = read_cells-take s.notification_index s.notifications (i ∷ ids) h.index h.held in
      elim (Sys-cases (recv s.chan)) [
        | inl (d, got) ↦ inl (
          record s { notification_mutex = false; chan = d; notification_index = 0 },
          ground (arith, v.unlocked, cells),
          record {
            buffer = record {
              sized = h.sized;
              positive = h.positive;
              index = refl;
              room = omega arith;
              held = refl;
            };
            unlocked = refl;
            woken = channel.pending-recv s.chan d v.woken got;
          },
          refl,
        )
        | inr (err, refused) ↦ inr (err, s, ground (arith, v.unlocked), refused, v, refl)
      ]
