-- ===== src/Telemetry/Tests.antt =====
-- The readouts on small values.
use fast_share.Common.{
  ℕ, ◌≡◌, ◌<◌, ◌+◌, ◌/◌, ◌%◌, refl, true, false, some, [], ◌∷◌, arith, Bool, ◌*◌,
}
use fast_share.Common.Lists.{get_elem?}
use fast_share.Common.Text.{units, decimal, lacks, lacks-Lacks, digits_value}
use fast_share.Common.Number.Hundredths.{hundredths, hundredths_laws}
use fast_share.Topology.{SchedulerLane, SchedulerState, SchedulerMode}
use fast_share.Samples.{topology, tri_snapshot}
use fast_share.Canvas.Lanes.{scheduler_lane_states}
use fast_share.Canvas.Shapes.{CanvasGraph}
use fast_share.Canvas.Graph.{build_canvas_graph}
use fast_share.Canvas.Graph.States.{lane_states}
use fast_share.Switching.Strip.{hud_states, lane_row}
use fast_share.Formats.{Rounding, format_seconds}
use fast_share.Formats.Laws.{RoundingLaws, format_seconds-reads}
use fast_share.Telemetry.{path_row, samples_text}
use fast_share.Telemetry.Laws.{views_agree}

-- Whole parts of hundredths; the logarithm is a stand-in that the tests do not read.
abbrev whole : Rounding ℕ
whole = record {
  floor = λ n. n / 100;
  rem = λ a b. a % b;
  log = λ a. a;
  to_fixed = λ d n. decimal (n / 100);
}

twelve_minutes : format_seconds whole 75400 ≡ units "12:34"
unfolding format_seconds
twelve_minutes = refl

whole-RoundingLaws : RoundingLaws whole
whole-RoundingLaws = record { floor_div = λ a. omega arith; floor_rem = λ a. omega arith }

twelve_minutes_read :
    (digits_value (units "12") * 60 + digits_value (units "34") ≡ 754)
    × (digits_value (units "34") < 60)
unfolding lacks
twelve_minutes_read =
    format_seconds-reads hundredths_laws whole whole-RoundingLaws 754 (units "12") (units "34")
      twelve_minutes (lacks-Lacks 58 (units "12") refl)

one_sample : samples_text 1 ≡ units "1 sample"
unfolding samples_text
one_sample = refl

abbrev lane : ℕ → Bool → SchedulerLane ℕ
lane i flagged = record {
  lane = i;
  name = units "A";
  sent = 10;
  lost = 1;
  attempts = 10;
  window_loss = 5;
  flagged = flagged;
  weight = 50;
}

abbrev two_lanes : SchedulerState ℕ
two_lanes = record {
  mode = SchedulerMode.weighted;
  enabled = true;
  window = 10000;
  flag_loss = 20;
  recover_loss = 10;
  probe_share = 10;
  lanes = lane 0 false ∷ lane 1 true ∷ [];
}

abbrev graph : CanvasGraph ℕ
graph = build_canvas_graph (some topology) (some tri_snapshot)

views_agree_example :
    (get_elem? (lane_states (some two_lanes) graph) 1
      ≡ some (lane_row (hud_states (some two_lanes)) (lane 1 true)).state)
    × ((path_row (scheduler_lane_states (some two_lanes)) (lane 1 true)).state
        ≡ (lane_row (hud_states (some two_lanes)) (lane 1 true)).state)
unfolding build_canvas_graph
views_agree_example = views_agree two_lanes graph (lane 1 true) refl (omega arith) refl refl
