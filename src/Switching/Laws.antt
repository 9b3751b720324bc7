-- ===== src/Switching/Laws.antt =====
-- At most eight markers are kept, none is a left-over of an earlier transfer, and the banner names the
-- lane of the first marker.
use fast_share.Common.{
  ℕ, zero, suc, ◌-◌, ◌≤◌, ◌≡◌, refl, false, Option, none, some, List, [], ◌∷◌, ◌++◌, arith, inl,
  inr,
}
use fast_share.Common.Tests.{Bool-cases, Option-cases}
use fast_share.Common.Lists.{length, take_last, drop}
use fast_share.Common.Text.{Text, text_eq}
use fast_share.Topology.{SchedulerLane, SchedulerState}
use fast_share.Types.{TransferStatus}
use fast_share.Switching.{
  Marker, MarkerKind, Hud, first_hud, transfers, on_transfer, kind_of, flags_key, added,
  on_scheduler, first_changed,
}

length-drop : {A : Type 0} (n : ℕ) (xs : List A) → length (drop n xs) ≡ length xs - n
length-drop zero xs = omega arith
length-drop (suc n) [] = omega arith
length-drop (suc n) (x ∷ xs) = omega (arith, length-drop n xs)

length-take_last : {A : Type 0} (n : ℕ) (xs : List A) → length (take_last n xs) ≤ n
length-take_last n xs = omega (arith, length-drop (length xs - n) xs)

kept_few :
    (ms : List Marker) (new : List Marker)
    → length ms ≤ 8
    → length (elim new [ [] ↦ ms | ◌∷◌ n ns ↦ take_last 8 (ms ++ n ∷ ns) ]) ≤ 8
kept_few ms [] h = h
kept_few ms (n ∷ ns) h = length-take_last 8 (ms ++ n ∷ ns)

abbrev pub first_of : List Marker → Option (MarkerKind × Text)
first_of [] = none
first_of (m ∷ ms) = some (m.kind, m.name)

pub data Event (N : Type 0) : Type 0 where
  transferred : Option TransferStatus → Event N
  scheduled : ℕ → Option (SchedulerState N) → Event N

module _ {N : Type 0} where
  abbrev pub lane_of : Option (SchedulerLane N) → Option (MarkerKind × Text)
  lane_of none = none
  lane_of (some l) = some (kind_of l.flagged, l.name)

  -- The banner and the markers tell of the same change: the lane in the banner is that of the
  -- first marker that is added for the same two states, and there is none for the one exactly if
  -- for the other.
  first_changed-added :
      (last : ℕ) (prev : Text) (k : ℕ) (lanes : List (SchedulerLane N))
      → lane_of (first_changed prev k lanes) ≡ first_of (added last prev k lanes)
  unfolding first_changed added
  first_changed-added last prev k [] = refl
  first_changed-added last prev k (l ∷ lanes) =
      ground (arith, first_changed-added last prev (suc k) lanes)

  abbrev pub happen : Event N → Hud → Hud
  happen (Event.transferred status) h = on_transfer status h
  happen (Event.scheduled last sched) h = on_scheduler last sched h

  abbrev pub events_from : List (Event N) → Hud → Hud
  events_from [] h = h
  events_from (e ∷ es) h = events_from es (happen e h)

  happen-few : (e : Event N) (h : Hud) → length h.markers ≤ 8 → length (happen e h).markers ≤ 8
  unfolding on_transfer on_scheduler
  happen-few (Event.transferred status) h k = ground arith
  happen-few (Event.scheduled last none) h k = k
  happen-few (Event.scheduled last (some sched)) h k = elim (Option-cases h.flags) [
    | inl e ↦ rw (e, on_scheduler) k
    | inr (prev, e) ↦ elim (Bool-cases (text_eq prev (flags_key sched.lanes))) [
      | inl same ↦ rw (e, same, on_scheduler) k
      | inr other ↦
          rw (e, other, on_scheduler) (kept_few h.markers (added last prev 0 sched.lanes) k)
    ]
  ]

  events_few :
      (es : List (Event N)) (h : Hud) → length h.markers ≤ 8 → length (events_from es h).markers ≤ 8
  events_few [] h k = k
  events_few (e ∷ es) h k = events_few es (happen e h) (happen-few e h k)

  -- However the transfer and the scheduler change, at most eight markers are shown.
  markers-le : (es : List (Event N)) → length (events_from es first_hud).markers ≤ 8
  markers-le es = events_few es first_hud (omega arith)

  -- The first state of the scheduler after a fresh transfer adds no marker, whatever was flagged
  -- before.
  fresh_transfer :
      (last : ℕ) (sched : SchedulerState N) (h : Hud)
      → transfers h.prev_transfer ≡ false
      → (on_scheduler last (some sched) (on_transfer (some TransferStatus.transferring) h)).markers
        ≡ []
  unfolding on_scheduler on_transfer
  fresh_transfer last sched h e = simp (e, on_transfer, on_scheduler)
