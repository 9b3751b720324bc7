-- ===== src/Polling/Runs.antt =====
-- At most one poll runs at a time, and what it asked for is what the state still lacks.
use fast_share.Common.{
  ℕ, zero, suc, ◌≡◌, refl, sym, ap, ◌∙◌, Bool, true, false, Option, none, some, [], ◌∷◌, ◌++◌, inl,
  inr,
}
use mathlib.Core.Path.{subst}
use fast_share.Common.Tests.{Bool-cases, Option-cases}
use fast_share.Common.Lists.{get_elem?, set, remove_at}
use fast_share.Common.Number.{Number}
use fast_share.Json.{Json}
use fast_share.Polling.{
  Poll, Call, Reply, Machine, Step, Reach, mounted, tick, reply, go_on, finish, finish_caught,
  await, refresh, wants_topology, apply, set_status, set_topology,
}

module _ {N : Type 0} where
  -- The cursor that a call has sent is the state's.
  abbrev pub IsSentSince : Json N → Call N → Type 0
  IsSentSince cursor Call.for_status = Unit
  IsSentSince cursor (Call.for_packets since s want) = since ≡ cursor
  IsSentSince cursor (Call.for_topology since s v) = since ≡ cursor

  -- No poll runs and the flag is down, or one runs, the flag is up, and no other has moved the cursor
  -- since it asked.
  pub data IsGuarded (m : Machine N) : Type 0 where
    idle : m.running ≡ [] → m.poll.in_flight ≡ false → IsGuarded m
    busy :
        (c : Call N)
        → m.running ≡ c ∷ []
        → m.poll.in_flight ≡ true
        → IsSentSince m.poll.cursor c
        → IsGuarded m

module _ {N : Type 0} ⦃num : Number N⦄ where
  finish_caught-IsGuarded :
      (o : Option (Poll N)) (c : Call N) (m : Machine N)
      → m.running ≡ c ∷ []
      → IsGuarded (finish_caught 0 o m)
  finish_caught-IsGuarded none c m e = IsGuarded.idle (ap (λ xs. remove_at xs 0) e) refl
  finish_caught-IsGuarded (some p) c m e = IsGuarded.idle (ap (λ xs. remove_at xs 0) e) refl

  await-IsGuarded :
      (c d : Call N) (m : Machine N)
      → m.running ≡ c ∷ []
      → m.poll.in_flight ≡ true
      → IsSentSince m.poll.cursor d
      → IsGuarded (await 0 d m)
  await-IsGuarded c d m e on h = IsGuarded.busy d (ap (λ xs. set xs 0 d) e) on h

  go_on-IsGuarded :
      (c : Call N) (r : Reply N) (m : Machine N)
      → m.running ≡ c ∷ []
      → m.poll.in_flight ≡ true
      → IsSentSince m.poll.cursor c
      → IsGuarded (go_on 0 c r m)
  unfolding go_on
  go_on-IsGuarded c Reply.failed m e on h = finish_caught-IsGuarded none c m e
  go_on-IsGuarded Call.for_status (Reply.answered s) m e on h =
      elim (Option-cases (wants_topology s)) [
        | inl none_e ↦ rw (none_e, go_on) (finish_caught-IsGuarded none Call.for_status m e)
        | inr (want, some_e) ↦ rw (some_e, go_on) (await-IsGuarded Call.for_status _ m e on refl)
      ]
  go_on-IsGuarded (Call.for_packets since s true) (Reply.answered v) m e on h =
      await-IsGuarded (Call.for_packets since s true) _ m e on h
  go_on-IsGuarded (Call.for_packets since s false) (Reply.answered v) m e on h =
      finish_caught-IsGuarded (apply s v none m.poll) (Call.for_packets since s false) m e
  go_on-IsGuarded (Call.for_topology since s v) (Reply.answered t) m e on h =
      finish_caught-IsGuarded (apply s v (some t) m.poll) (Call.for_topology since s v) m e

  -- What an answer does to a call that waits, or to none.
  pub reply_missing :
      (i : ℕ) (r : Reply N) (m : Machine N) → get_elem? m.running i ≡ none → reply i r m ≡ m
  unfolding reply
  reply_missing i r m e = simp (e, reply)

  pub reply_gone :
      (i : ℕ) (r : Reply N) (m : Machine N) (c : Call N)
      → get_elem? m.running i ≡ some c
      → m.cancelled ≡ true
      → reply i r m ≡ finish i m.poll m
  unfolding reply
  reply_gone i r m c e gone = simp (e, gone, reply)

  pub reply_here :
      (i : ℕ) (r : Reply N) (m : Machine N) (c : Call N)
      → get_elem? m.running i ≡ some c
      → m.cancelled ≡ false
      → reply i r m ≡ go_on i c r m
  unfolding reply
  reply_here i r m c e here = simp (e, here, reply)

  reply-IsGuarded : (i : ℕ) (r : Reply N) (m : Machine N) → IsGuarded m → IsGuarded (reply i r m)
  reply-IsGuarded i r m (IsGuarded.idle e off) =
      subst IsGuarded (sym (reply_missing i r m (ap (λ xs. get_elem? xs i) e)))
        (IsGuarded.idle e off)
  reply-IsGuarded (suc i) r m (IsGuarded.busy c e on h) =
      subst IsGuarded (sym (reply_missing (suc i) r m (ap (λ xs. get_elem? xs (suc i)) e)))
        (IsGuarded.busy c e on h)
  reply-IsGuarded zero r m (IsGuarded.busy c e on h) =
      let found : get_elem? m.running 0 ≡ some c = ap (λ xs. get_elem? xs 0) e in
      elim (Bool-cases m.cancelled) [
        | inl gone ↦
            subst IsGuarded (sym (reply_gone 0 r m c found gone))
              (finish_caught-IsGuarded (some m.poll) c m e)
        | inr here ↦
            subst IsGuarded (sym (reply_here 0 r m c found here)) (go_on-IsGuarded c r m e on h)
      ]

  tick_busy : (m : Machine N) → m.poll.in_flight ≡ true → tick false m ≡ m
  unfolding tick
  tick_busy m on = simp on

  tick_idle :
      (m : Machine N)
      → m.poll.in_flight ≡ false
      → tick false m ≡ record m {
        poll = record m.poll { in_flight = true };
        running = m.running ++ Call.for_status ∷ [];
      }
  unfolding tick
  tick_idle m off = simp off

  tick-IsGuarded : (hidden : Bool) (m : Machine N) → IsGuarded m → IsGuarded (tick hidden m)
  unfolding tick
  tick-IsGuarded true m g = g
  tick-IsGuarded false m (IsGuarded.busy c e on h) =
      subst IsGuarded (sym (tick_busy m on)) (IsGuarded.busy c e on h)
  tick-IsGuarded false m (IsGuarded.idle e off) =
      subst IsGuarded (sym (tick_idle m off))
        (IsGuarded.busy Call.for_status (ap (λ xs. xs ++ Call.for_status ∷ []) e) refl tt)

  refresh-cursor :
      (s t : Reply N) (p : Poll N)
      → ((refresh s t p).cursor ≡ p.cursor) × ((refresh s t p).in_flight ≡ p.in_flight)
  unfolding refresh set_status set_topology
  refresh-cursor Reply.failed Reply.failed p = (refl, refl)
  refresh-cursor Reply.failed (Reply.answered t) p = (refl, refl)
  refresh-cursor (Reply.answered s) Reply.failed p = (refl, refl)
  refresh-cursor (Reply.answered s) (Reply.answered t) p = (refl, refl)

  with_poll-IsGuarded :
      (m : Machine N) (p : Poll N)
      → p.cursor ≡ m.poll.cursor
      → p.in_flight ≡ m.poll.in_flight
      → IsGuarded m
      → IsGuarded (record m { poll = p })
  with_poll-IsGuarded m p e k (IsGuarded.idle r off) = IsGuarded.idle r (k ∙ off)
  with_poll-IsGuarded m p e k (IsGuarded.busy c r on h) =
      IsGuarded.busy c r (k ∙ on) (subst (λ z. IsSentSince z c) (sym e) h)

  unmount-IsGuarded : (m : Machine N) → IsGuarded m → IsGuarded (record m { cancelled = true })
  unmount-IsGuarded m (IsGuarded.idle r off) = IsGuarded.idle r off
  unmount-IsGuarded m (IsGuarded.busy c r on h) = IsGuarded.busy c r on h

  Step-IsGuarded : {m m' : Machine N} → Step m m' → IsGuarded m → IsGuarded m'
  Step-IsGuarded {m} (Step.ticked hidden e) g = tick-IsGuarded hidden m g
  Step-IsGuarded {m} (Step.replied i r) g = reply-IsGuarded i r m g
  Step-IsGuarded {m} (Step.refreshed s t) g =
      let (cursor, flag) = refresh-cursor s t m.poll in
      with_poll-IsGuarded m (refresh s t m.poll) cursor flag g
  Step-IsGuarded {m} (Step.set_error e) g =
      with_poll-IsGuarded m (record m.poll { error = e }) refl refl g
  Step-IsGuarded {m} Step.unmounted g = unmount-IsGuarded m g

  -- In every state that the polling effect can reach, whatever the order of timer calls,
  -- answers, refreshes and unmounting, either no poll runs and the in-flight flag is down, or
  -- exactly one runs, the flag is up, and the cursor that the poll has sent, if it has sent one,
  -- is still the state's.
  pub Reach-IsGuarded : {m : Machine N} → Reach m → IsGuarded m
  unfolding mounted
  Reach-IsGuarded Reach.start = IsGuarded.idle refl refl
  Reach-IsGuarded (Reach.next r st) = Step-IsGuarded st (Reach-IsGuarded r)
