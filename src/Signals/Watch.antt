-- ===== src/Signals/Watch.antt =====
-- The table of signals as a map from signals to ids, and what each operation does to the map.
use lwt_old.Base.{
  ℕ, ◌<◌, ◌≡◌, ◌≢◌, refl, sym, ◌∙◌, ap, Bool, true, false, some, arith, length, set, get_elem?,
  length-set, subst, none, if◌then◌else◌, get_elem?-set_self, get_elem?-set_ne, update, ltb, lt→ltb,
}
use lwt_old.Base.Int.{ℤ, pos, negsuc}
use lwt_old.Base.Outcome.{M, Sys, done, failed, Run, ok, raised, ◌>>◌, undefined, unix_error}
use lwt_old.Signals.{
  Signals, index, id_of, on_index, assign, handle_by, after_remove, cell, remove_signal, watched,
}

-- The state `t` after `n` was given `id` in `s`: the table has its length, `n` has that id, or none
-- if it is -1, and every other signal has what it had.
abbrev pub Assigned : ℕ → ℕ → ℤ → Signals → Signals → Type 0
Assigned nsig n id s t =
    (length t.signal_notifications ≡ nsig)
    × (watched nsig (pos n) t ≡ id_of id)
    × ((k : ℕ) → k ≢ n → watched nsig (pos k) t ≡ watched nsig (pos k) s)

module _ (nsig : ℕ) where
  index-valid : (n : ℕ) → n < nsig → index nsig (pos n) ≡ some n
  unfolding index
  index-valid n h = rw (lt→ltb n nsig h) refl

  watched_at :
      (n : ℕ) (id : ℤ) (t : Signals)
      → n < nsig
      → get_elem? t.signal_notifications n ≡ some id
      → watched nsig (pos n) t ≡ id_of id
  unfolding watched cell
  watched_at n id t h e =
      ap (λ o. on_index o none (λ k. cell (get_elem? t.signal_notifications k))) (index-valid n h)
      ∙ ap cell e

  same_if :
      (b : Bool) (k : ℕ) (s t : Signals)
      → get_elem? t.signal_notifications k ≡ get_elem? s.signal_notifications k
      → on_index (if b then some k else none) none (λ j. cell (get_elem? t.signal_notifications j))
        ≡ on_index
            (if b then some k else none)
            none
            (λ j. cell (get_elem? s.signal_notifications j))
  same_if true k s t e = ap cell e
  same_if false k s t e = refl

  watched-same :
      (k : ℕ) (s t : Signals)
      → get_elem? t.signal_notifications k ≡ get_elem? s.signal_notifications k
      → watched nsig (pos k) t ≡ watched nsig (pos k) s
  unfolding watched index
  watched-same k s t e = same_if (ltb k nsig) k s t e

  -- A write to the table.
  set-Assigned :
      (n : ℕ) (id : ℤ) (s : Signals) (handlers : ℕ → Bool)
      → n < nsig
      → length s.signal_notifications ≡ nsig
      → Assigned nsig n id s
          (record { signal_notifications = set s.signal_notifications n id; handlers = handlers })
  set-Assigned n id s handlers h e = (
    length-set s.signal_notifications n id ∙ e,
    watched_at n id _ h (get_elem?-set_self s.signal_notifications n id (omega (arith, e))),
    λ k ne. watched-same k s _ (get_elem?-set_ne s.signal_notifications id (λ q. ne (sym q))),
  )

-- How `set_signal` and `remove_signal` end, by the answer of `sigaction`.
abbrev pub Set : ℕ → ℕ → ℤ → Signals → Sys (Unit {0}) → Run Signals (Unit {0}) → Type 0
Set nsig n id s (done u) r =
    (t : Signals) × (r ≡ ok tt t) × Assigned nsig n id s t × (t.handlers n ≡ true)
Set nsig n id s (failed e) r =
    (t : Signals) × (r ≡ raised (unix_error e "sigaction" "") t) × Assigned nsig n (negsuc 0) s t

module _ (nsig : ℕ) (sigaction : ℕ → Bool → Sys (Unit {0})) where
  after_remove-Assigned :
      (n : ℕ) (s : Signals) (answer : Sys (Unit {0}))
      → n < nsig
      → length s.signal_notifications ≡ nsig
      → (t : Signals) × ((assign n (negsuc 0) >> after_remove n answer) s ≡ ok tt t)
        × Assigned nsig n (negsuc 0) s t
  unfolding assign after_remove handle_by
  after_remove-Assigned n s (done u) h e =
      (_, refl, set-Assigned nsig n (negsuc 0) s (update s.handlers n false) h e)
  after_remove-Assigned n s (failed err) h e =
      (_, refl, set-Assigned nsig n (negsuc 0) s s.handlers h e)

  -- For the number of a signal, and a table of the right length: after `remove_signal` nothing is
  -- sent for the signal, and what is sent for the others stays the same. It returns, also where
  -- `sigaction` fails.
  remove_signal-Assigned :
      (n : ℕ) (s : Signals)
      → n < nsig
      → length s.signal_notifications ≡ nsig
      → (t : Signals) × (remove_signal nsig sigaction (pos n) s ≡ ok tt t)
        × Assigned nsig n (negsuc 0) s t
  unfolding remove_signal
  remove_signal-Assigned n s h e =
      subst
        (λ o.
          (t : Signals) × (on_index {A = M Signals (Unit {0})} o undefined
              (λ x. assign x (negsuc 0) >> after_remove x (sigaction x false)) s
            ≡ ok tt t)
          × Assigned nsig n (negsuc 0) s t)
        (sym (index-valid nsig n h)) (after_remove-Assigned n s (sigaction n false) h e)
