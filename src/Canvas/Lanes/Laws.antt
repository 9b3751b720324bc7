-- ===== src/Canvas/Lanes/Laws.antt =====
-- What the colours of the lanes mean.
use mathlib.Core.List.{Memᴰ}
use mathlib.Core.Path.{subst, refl, ap}
use mathlib.Core.Option.{some-injective}
use mathlib.Core.List.Memᴰ
use fast_share.Common.{
  ℕ, zero, suc, ◌≡◌, ◌↔◌, inl, inr, true, false, some, List, [], ◌∷◌, map, arith, ap, ◌≤◌,
}
use fast_share.Common.Tests.{Bool-cases}
use fast_share.Common.Lists.{get_elem?, All, select, All-map}
use fast_share.Common.Number.{Number, NumberLaws, min_of}
use fast_share.Topology.{SchedulerLane}
use fast_share.Canvas.Lanes.{
  min_from, min_loss, losses, PathState, lane_state, scheduler_lane_states, SchedulerState, length,
}

module _ {N : Type 0} ⦃num : Number N⦄ where
  min_from-closed {κ} : (P : N → Type κ) (m : N) (xs : List N) → P m → All P xs → P (min_from m xs)
  unfolding min_from min_of
  min_from-closed P m [] h hs = h
  min_from-closed P m (x ∷ xs) h hs = elim (Bool-cases (num.le m x)) [
    | inl e ↦ rw e (min_from-closed P m xs h hs.1)
    | inr e ↦ rw e (min_from-closed P x xs hs.0 hs.1)
  ]

  min_loss-closed : (P : N → Type 0) (xs : List N) (x : N) → Memᴰ x xs → All P xs → P (min_loss xs)
  unfolding min_loss
  min_loss-closed P [] x m h = absurd (Memᴰ.not-nil m)
  min_loss-closed P (y ∷ xs) x m h = min_from-closed P y xs h.0 h.1

  losses-cons_healthy :
      (l : SchedulerLane N) (lanes : List (SchedulerLane N))
      → l.flagged ≡ false
      → losses (l ∷ lanes) ≡ l.window_loss ∷ losses lanes
  unfolding losses select
  losses-cons_healthy l lanes e = simp e

  losses-cons_flagged :
      (l : SchedulerLane N) (lanes : List (SchedulerLane N))
      → l.flagged ≡ true
      → losses (l ∷ lanes) ≡ losses lanes
  unfolding losses select
  losses-cons_flagged l lanes e = simp e

  losses-mem :
      (lanes : List (SchedulerLane N)) (l : SchedulerLane N)
      → Memᴰ l lanes
      → l.flagged ≡ false
      → Memᴰ l.window_loss (losses lanes)
  losses-mem [] l m h = absurd (Memᴰ.not-nil m)
  losses-mem (x ∷ lanes) l (Memᴰ.head e) h =
      rw (losses-cons_healthy x lanes (subst (λ (y : SchedulerLane N). y.flagged ≡ false) e h))
        (Memᴰ.head (ap (λ (y : SchedulerLane N). y.window_loss) e))
  losses-mem (x ∷ lanes) l (Memᴰ.tail m) h = elim (Bool-cases x.flagged) [
    | inl f ↦ rw (losses-cons_flagged x lanes f) (losses-mem lanes l m h)
    | inr f ↦ rw (losses-cons_healthy x lanes f) (Memᴰ.tail (losses-mem lanes l m h))
  ]

  abbrev IsHealthy : (N → Type 0) → SchedulerLane N → Type 0
  IsHealthy P l = l.flagged ≡ false → P l.window_loss

  All-losses :
      (P : N → Type 0) (lanes : List (SchedulerLane N))
      → All (IsHealthy P) lanes ↔ All P (losses lanes)
  unfolding losses select
  All-losses P [] = (λ _. tt, λ _. tt)
  All-losses P (l ∷ lanes) = elim (Bool-cases l.flagged) [
    | inl e ↦
        simp e (
          λ h. (All-losses P lanes).0 h.1,
          λ h. (λ (k : true ≡ false). cc, (All-losses P lanes).1 h),
        )
    | inr e ↦ simp e (
      λ h. (h.0 (λ i. false), (All-losses P lanes).0 h.1),
      λ h. (λ _. h.0, (All-losses P lanes).1 h.1),
    )
  ]

  module _ (laws : NumberLaws num) where
    le_refl : (a : N) → num.le a a ≡ true
    le_refl a = ground (arith, laws.le_total a a)

    min_of-le : (a b : N) → (num.le (min_of a b) a ≡ true) × (num.le (min_of a b) b ≡ true)
    unfolding min_of
    min_of-le a b = ground (arith, laws.le_total a b, le_refl a, le_refl b)

    min_from-le :
        (m : N) (xs : List N) (x : N) → (num.le m x ≡ true) → num.le (min_from m xs) x ≡ true
    unfolding min_from
    min_from-le m [] x h = h
    min_from-le m (y ∷ xs) x h =
        min_from-le (min_of m y) xs x (laws.le_trans _ _ _ (min_of-le m y).0 h)

    min_from-All : (m : N) (xs : List N) → All (λ x. num.le (min_from m xs) x ≡ true) xs
    unfolding min_from
    min_from-All m [] = tt
    min_from-All m (x ∷ xs) =
        (min_from-le (min_of m x) xs x (min_of-le m x).1, min_from-All (min_of m x) xs)

    min_loss-All : (xs : List N) → All (λ x. num.le (min_loss xs) x ≡ true) xs
    unfolding min_loss
    min_loss-All [] = tt
    min_loss-All (x ∷ xs) = (min_from-le x xs x (le_refl x), min_from-All x xs)

  -- Every lane has a state: flagged lanes, and no others, are restricted; a healthy lane is optimal
  -- exactly when no healthy lane's rolling loss is lower by more than the tolerance.
  abbrev pub IsState : List (SchedulerLane N) → SchedulerLane N → PathState → Type 0
  IsState lanes l st =
      ((st ≡ PathState.restricted) ↔ (l.flagged ≡ true))
      × ((st ≡ PathState.optimal)
          ↔ (l.flagged ≡ false)
            × All
                (λ m.
                  m.flagged ≡ false
                  → num.le l.window_loss (num.add m.window_loss (num.lit 2 2)) ≡ true)
                lanes)

  module _ (laws : NumberLaws num) where
    abbrev Within : N → N → Type 0
    Within a x = num.le a (num.add x (num.lit 2 2)) ≡ true

    Within-min_loss_iff :
        (a : N) (xs : List N) → Memᴰ a xs → Within a (min_loss xs) ↔ All (Within a) xs
    Within-min_loss_iff a xs m = (
      λ h. All-map xs (λ x k. laws.le_trans _ _ _ h (laws.add_mono _ _ _ k)) (min_loss-All laws xs),
      min_loss-closed (Within a) xs a m,
    )

    lane_state-IsState :
        (lanes : List (SchedulerLane N)) (l : SchedulerLane N)
        → (l.flagged ≡ false → Memᴰ l.window_loss (losses lanes))
        → IsState lanes l (lane_state (min_loss (losses lanes)) l)
    unfolding lane_state
    lane_state-IsState lanes l h = elim (Bool-cases l.flagged) [
      | inl e ↦ ground arith
      | inr e ↦
          let (to, from) = Within-min_loss_iff l.window_loss (losses lanes) (h e) in
          let (up, down) = All-losses (Within l.window_loss) lanes in
          ground (arith, to, from, up, down)
    ]

    lane_states-IsState :
        (all lanes : List (SchedulerLane N))
        → ((l : SchedulerLane N)
            → Memᴰ l lanes
            → l.flagged ≡ false
            → Memᴰ l.window_loss (losses all))
        → (i : ℕ) (l : SchedulerLane N) → get_elem? lanes i ≡ some l
        → (st : PathState) × (get_elem? (map (lane_state (min_loss (losses all))) lanes) i
            ≡ some st)
          × IsState all l st
    lane_states-IsState all [] h i l e = cc
    lane_states-IsState all (x ∷ lanes) h zero l e = (
      lane_state (min_loss (losses all)) x,
      refl,
      subst (λ (y : SchedulerLane N). IsState all y (lane_state (min_loss (losses all)) x))
          (some-injective _ _ e) (lane_state-IsState all x (h x (Memᴰ.head refl))),
    )
    lane_states-IsState all (x ∷ lanes) h (suc i) l e =
        lane_states-IsState all lanes (λ y m. h y (Memᴰ.tail m)) i l e

    -- While the scheduler is on with at least two lanes, and if the numbers meet their laws,
    -- there is one state per lane: exactly the flagged lanes are restricted, and a healthy lane
    -- is optimal exactly when no healthy lane's rolling loss plus the tolerance lies below its
    -- own.
    pub scheduler_lane_states-IsState :
        (sched : SchedulerState N)
        → sched.enabled ≡ true
        → 2 ≤ length sched.lanes
        → (states : List PathState) × (scheduler_lane_states (some sched) ≡ some states)
          × ((i : ℕ) (l : SchedulerLane N)
              → get_elem? sched.lanes i ≡ some l
              → (st : PathState) × (get_elem? states i ≡ some st) × IsState sched.lanes l st)
    unfolding scheduler_lane_states
    scheduler_lane_states-IsState sched on two = (
      map (lane_state (min_loss (losses sched.lanes))) sched.lanes,
      ground arith,
      lane_states-IsState sched.lanes sched.lanes (losses-mem sched.lanes),
    )

    All-IsHealthy :
        (P : N → Type 0) (lanes : List (SchedulerLane N))
        → ((m : SchedulerLane N) → Memᴰ m lanes → IsHealthy P m)
        → All (IsHealthy P) lanes
    All-IsHealthy P [] h = tt
    All-IsHealthy P (x ∷ lanes) h =
        (h x (Memᴰ.head refl), All-IsHealthy P lanes (λ m k. h m (Memᴰ.tail k)))

    lane_state_least :
        (least : N) (m : SchedulerLane N)
        → m.flagged ≡ false
        → m.window_loss ≡ least
        → lane_state least m ≡ PathState.optimal
    unfolding lane_state
    lane_state_least least m healthy e = ground (arith, laws.le-add_lit least 2 2)

    -- While the scheduler is on with at least two lanes, one of them healthy, some lane is
    -- optimal, if the numbers meet their laws.
    scheduler_lane_states-optimal :
        (sched : SchedulerState N) (l : SchedulerLane N)
        → sched.enabled ≡ true
        → 2 ≤ length sched.lanes
        → Memᴰ l sched.lanes
        → l.flagged ≡ false
        → (states : List PathState) × (scheduler_lane_states (some sched) ≡ some states)
          × Memᴰ PathState.optimal states
    unfolding scheduler_lane_states
    scheduler_lane_states-optimal sched l on two m healthy =
        let least = min_loss (losses sched.lanes) in
        let IsLane : N → Type 0 = λ x.
          (k : SchedulerLane N) × Memᴰ k sched.lanes × (k.flagged ≡ false) × (k.window_loss ≡ x) in
        let (k, listed, fit, lowest) =
          min_loss-closed IsLane (losses sched.lanes) l.window_loss
            (losses-mem sched.lanes l m healthy)
            ((All-losses IsLane sched.lanes).0
              (All-IsHealthy IsLane sched.lanes (λ y j ok. (y, j, ok, refl)))) in
        (
          map (lane_state least) sched.lanes,
          ground arith,
          subst (λ (st : PathState). Memᴰ st (map (lane_state least) sched.lanes))
              (lane_state_least least k fit lowest) (Memᴰ.map (lane_state least) listed),
        )
