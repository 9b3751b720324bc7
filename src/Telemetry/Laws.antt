-- ===== src/Telemetry/Laws.antt =====
-- The views of the scheduler agree: a lane has one state in the strip, in the statistics and on the
-- canvas.
use fast_share.Common.{ℕ, ◌<◌, ◌≡◌, refl, sym, ap, ◌∙◌, true, Option, none, some, List, map, arith}
use fast_share.Common.Lists.{length, get_elem?, length-map, get_elem?-map}
use fast_share.Common.Text.{Text}
use fast_share.Common.Number.{Number}
use fast_share.Topology.{SchedulerLane, SchedulerState}
use fast_share.Canvas.Lanes.{PathState, scheduler_lane_states, lane_state, min_loss, losses}
use fast_share.Canvas.Shapes.{CanvasGraph}
use fast_share.Canvas.Graph.States.{lane_states, states_or_fallback}
use fast_share.Switching.Strip.{hud_states, state_of, lane_row}
use fast_share.Telemetry.{path_row}

states_or_fallback-same :
    (states : List PathState) (paths : List (List Text)) (route : Option (List Text))
    → length states ≡ length paths
    → states_or_fallback (some states) paths route ≡ states
unfolding states_or_fallback
states_or_fallback-same states paths route e = ground (arith, e)

shown :
    (states : List PathState) (i : ℕ) {st : PathState}
    → get_elem? states i ≡ some st
    → get_elem? states i ≡ some (state_of (some states) i)
shown states i e = rw e refl

module _ {N : Type 0} ⦃num : Number N⦄ where
  -- The display's own test is the one that the states begin with.
  pub hud_states-all :
      (sched : Option (SchedulerState N)) → hud_states sched ≡ scheduler_lane_states sched
  unfolding hud_states scheduler_lane_states
  hud_states-all none = refl
  hud_states-all (some sched) = ground (arith)

  live_states : SchedulerState N → List PathState
  live_states sched = map (lane_state (min_loss (losses sched.lanes))) sched.lanes

  scheduler_lane_states-live :
      (sched : SchedulerState N)
      → sched.enabled ≡ true
      → 1 < length sched.lanes
      → scheduler_lane_states (some sched) ≡ some (live_states sched)
  unfolding scheduler_lane_states live_states
  scheduler_lane_states-live sched on many = ground (arith, on, many)

  lane_states-live :
      (sched : SchedulerState N) (g : CanvasGraph N)
      → sched.enabled ≡ true
      → 1 < length sched.lanes
      → length sched.lanes ≡ length g.paths
      → lane_states (some sched) g ≡ live_states sched
  unfolding lane_states live_states
  lane_states-live sched g on many e =
      ap (λ o. states_or_fallback o g.paths g.route) (scheduler_lane_states-live sched on many)
      ∙ states_or_fallback-same (live_states sched) g.paths g.route (length-map _ sched.lanes ∙ e)

  -- While the scheduler is on with at least two lanes, as many as the canvas has paths, a lane
  -- that stands at its own number has one state in the strip, in the statistics and on the
  -- canvas.
  pub views_agree :
      (sched : SchedulerState N) (g : CanvasGraph N) (l : SchedulerLane N)
      → sched.enabled ≡ true
      → 1 < length sched.lanes
      → length sched.lanes ≡ length g.paths
      → get_elem? sched.lanes l.lane ≡ some l
      → (get_elem? (lane_states (some sched) g) l.lane
          ≡ some (lane_row (hud_states (some sched)) l).state)
        × ((path_row (scheduler_lane_states (some sched)) l).state
            ≡ (lane_row (hud_states (some sched)) l).state)
  unfolding lane_row path_row live_states
  views_agree sched g l on many e at =
      let found =
        get_elem?-map (lane_state (min_loss (losses sched.lanes))) sched.lanes l.lane at in
      let live = scheduler_lane_states-live sched on many in
      (
        rw (lane_states-live sched g on many e, hud_states-all (some sched), live)
            (shown (live_states sched) l.lane found),
        ap (λ states. state_of states l.lane) (sym (hud_states-all (some sched))),
      )
