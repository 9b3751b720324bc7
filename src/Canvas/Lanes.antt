-- ===== src/Canvas/Lanes.antt =====
-- frontend/lib/canvas.ts, schedulerLaneStates: the colour of each lane from the live scheduler.
pub mod Laws
use fast_share.Common.{ℕ, Bool, true, false, not, ◌||◌, Option, none, some, List, [], ◌∷◌, map}
use fast_share.Common.Tests.{if◌then◌else◌, ltb}
use fast_share.Common.Lists.{length, select}
use fast_share.Common.Number.{Number, min_of}
use fast_share.Topology.{SchedulerLane, SchedulerState}

-- green: lowest rolling loss; blue: healthy, not the best; red: flagged
pub data PathState : Type 0 where
  optimal candidate restricted : PathState

module _ {N : Type 0} ⦃num : Number N⦄ where
  -- `Math.min(...xs)` of a non-empty spread
  pub min_from : N → List N → N
  unfolding min_of
  min_from m [] = m
  min_from m (x ∷ xs) = min_from (min_of m x) xs

  -- `healthy.length ? Math.min(...losses) : 0`
  pub min_loss : List N → N
  unfolding min_from
  min_loss [] = num.of_nat 0
  min_loss (x ∷ xs) = min_from x xs

  pub losses : List (SchedulerLane N) → List N
  losses lanes = map (λ l. l.window_loss) (select (λ l. not l.flagged) lanes)

  pub lane_state : N → SchedulerLane N → PathState
  lane_state least l =
      if l.flagged
      then PathState.restricted
      else if num.le l.window_loss (num.add least (num.lit 2 2))
      then PathState.optimal
      else PathState.candidate

  unfoldable pub scheduler_lane_states : Option (SchedulerState N) → Option (List PathState)
  unfolding min_loss losses lane_state select
  scheduler_lane_states none = none
  scheduler_lane_states (some sched) =
      if not sched.enabled || ltb (length sched.lanes) 2
      then none
      else some (map (lane_state (min_loss (losses sched.lanes))) sched.lanes)
