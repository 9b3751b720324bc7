-- ===== src/Canvas/Tests.antt =====
-- The canvas functions on small inputs.
use fast_share.Common.{ℕ, ◌≡◌, refl, true, false, none, some, List, [], ◌∷◌, arith, inl}
use fast_share.Common.Lists.{get_elem?}
use fast_share.Common.Text.{Text, units}
use fast_share.Common.Number.Hundredths.{hundredths, hundredths_laws}
use fast_share.Topology.{SchedulerLane, SchedulerState, SchedulerMode}
use fast_share.Common.{◌↔◌}
use fast_share.Common.Lists.{All}
use fast_share.Common.Text.{text_eq, lacks, lacks-Lacks}
use fast_share.Common.Dict.{lookup}
use fast_share.Samples.{lane_a, lane_b, topology, tri_snapshot}
use fast_share.Canvas.Shapes.{CanvasNode, CanvasLink, CanvasGraph}
use fast_share.Canvas.Graph.{build_canvas_graph}
use fast_share.Canvas.Graph.Edges.{edge_key, lane_map}
use fast_share.Canvas.Graph.Edges.Laws.{NoBar, lookup-lane_map, first_lane}
use fast_share.Canvas.Graph.States.{lane_states, IsPlainId, lane_states-route}
use fast_share.Canvas.Drawing.{draw_node, draw_link, lane_meta}
use fast_share.Canvas.Drawing.Laws.{draw_node-draw_link}
use fast_share.Canvas.Lanes.{PathState, scheduler_lane_states}
use fast_share.Canvas.Lanes.Laws.{IsState, scheduler_lane_states-IsState}

abbrev pub lane_of_loss : ℕ → ℕ → SchedulerLane ℕ
lane_of_loss i loss = record {
  lane = i;
  name = units "A";
  sent = 10;
  lost = 1;
  attempts = 10;
  window_loss = loss;
  flagged = false;
  weight = 50;
}

abbrev pub three_lanes : SchedulerState ℕ
three_lanes = record {
  mode = SchedulerMode.weighted;
  enabled = true;
  window = 10000;
  flag_loss = 20;
  recover_loss = 10;
  probe_share = 10;
  lanes = lane_of_loss 0 5 ∷ lane_of_loss 1 9 ∷ record (lane_of_loss 2 30) { flagged = true } ∷ [];
}

three_lane_states :
    scheduler_lane_states (some three_lanes)
    ≡ some (PathState.optimal ∷ PathState.candidate ∷ PathState.restricted ∷ [])
unfolding scheduler_lane_states
three_lane_states = refl

scheduler_lane_states-IsState_example :
    (states : List PathState) × (scheduler_lane_states (some three_lanes) ≡ some states)
    × ((i : ℕ) (l : SchedulerLane ℕ)
        → get_elem? three_lanes.lanes i ≡ some l
        → (st : PathState) × (get_elem? states i ≡ some st) × IsState three_lanes.lanes l st)
scheduler_lane_states-IsState_example =
    scheduler_lane_states-IsState hundredths_laws three_lanes refl (omega arith)

src-NoBar : NoBar (units "src")
unfolding lacks
src-NoBar = lacks-Lacks 124 (units "src") refl

a1-NoBar : NoBar (units "a1")
unfolding lacks
a1-NoBar = lacks-Lacks 124 (units "a1") refl

b1-NoBar : NoBar (units "b1")
unfolding lacks
b1-NoBar = lacks-Lacks 124 (units "b1") refl

dst-NoBar : NoBar (units "dst")
unfolding lacks
dst-NoBar = lacks-Lacks 124 (units "dst") refl

lanes-NoBar : All (All NoBar) (lane_a ∷ lane_b ∷ [])
lanes-NoBar =
    ((src-NoBar, (a1-NoBar, (dst-NoBar, tt))), ((src-NoBar, (b1-NoBar, (dst-NoBar, tt))), tt))

plain : (id : Text) → text_eq id [] ≡ false → lacks 62 id ≡ true → IsPlainId id
unfolding text_eq
plain [] h k = cc
plain (c ∷ id) h k = (λ e. cc, lacks-Lacks 62 (c ∷ id) k)

src-IsPlainId : IsPlainId (units "src")
unfolding text_eq lacks
src-IsPlainId = plain (units "src") refl refl

a1-IsPlainId : IsPlainId (units "a1")
unfolding text_eq lacks
a1-IsPlainId = plain (units "a1") refl refl

b1-IsPlainId : IsPlainId (units "b1")
unfolding text_eq lacks
b1-IsPlainId = plain (units "b1") refl refl

dst-IsPlainId : IsPlainId (units "dst")
unfolding text_eq lacks
dst-IsPlainId = plain (units "dst") refl refl

lane_a-IsPlainId : All IsPlainId lane_a
lane_a-IsPlainId = (src-IsPlainId, (a1-IsPlainId, (dst-IsPlainId, tt)))

lane_b-IsPlainId : All IsPlainId lane_b
lane_b-IsPlainId = (src-IsPlainId, (b1-IsPlainId, (dst-IsPlainId, tt)))

lookup-lane_map_example :
    lookup (edge_key (units "dst") (units "b1")) (lane_map (lane_a ∷ lane_b ∷ []))
    ≡ first_lane 0 (lane_a ∷ lane_b ∷ []) (units "dst") (units "b1")
lookup-lane_map_example =
    lookup-lane_map (units "dst") (units "b1") dst-NoBar b1-NoBar (lane_a ∷ lane_b ∷ []) lanes-NoBar

abbrev tri_graph : CanvasGraph ℕ
tri_graph = build_canvas_graph (some topology) (some tri_snapshot)

-- A scheduler that is off while the first lane is the route.
abbrev off_scheduler : SchedulerState ℕ
off_scheduler = record three_lanes { enabled = false }

lane_states-route_example :
    (get_elem? (lane_states (some off_scheduler) tri_graph) 0 ≡ some PathState.optimal)
    ↔ (lane_a ≡ lane_a)
unfolding build_canvas_graph
lane_states-route_example =
    lane_states-route (some off_scheduler) tri_graph lane_a lane_a 0 (inl refl) refl (λ e. cc)
      lane_a-IsPlainId (lane_a-IsPlainId, (lane_b-IsPlainId, tt)) refl

-- The router b1 stands on the second lane, which is flagged, and so does the link to it.
abbrev router : CanvasNode ℕ
router = record {
  id = units "b1";
  label = units "b1";
  sub = units "router";
  up = true;
  x = 0;
  y = 0;
  is_source = false;
  is_dest = false;
  on_route = false;
}

abbrev hop : CanvasLink ℕ
hop = record {
  id = units "src|b1";
  a = units "src";
  b = units "b1";
  x1 = 0;
  y1 = 0;
  x2 = 100;
  y2 = 0;
  on_route = false;
  lane = some 1;
  stats = none;
}

abbrev flagged_second : SchedulerState ℕ
flagged_second = record three_lanes {
  lanes = lane_of_loss 0 5 ∷ record (lane_of_loss 1 30) { flagged = true } ∷ [];
}

draw_node-draw_link_example :
    draw_node tri_graph (lane_states (some flagged_second) tri_graph) router
    ≡ (draw_link tri_graph
        (lane_states (some flagged_second) tri_graph)
        (lane_meta (some flagged_second))
        hop).colour
unfolding build_canvas_graph
draw_node-draw_link_example =
    draw_node-draw_link tri_graph (some flagged_second) (lane_meta (some flagged_second)) hop router
      1 refl refl refl refl
