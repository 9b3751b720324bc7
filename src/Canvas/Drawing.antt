-- ===== src/Canvas/Drawing.antt =====
-- frontend/components/TopologyCanvas.tsx: the colours, widths and texts of the links and nodes,
-- the banner of the transfer, and the selection by a click.
pub mod Laws
use fast_share.Common.{
  ℕ, zero, suc, ◌+◌, ◌-◌, ◌≤◌, ◌<◌, ◌≡◌, refl, sym, ap, ◌∙◌, ◌≢◌, ◌↔◌, ◌⊎◌, inl, inr, Bool, true,
  false, not, ◌&&◌, ◌||◌, Option, none, some, List, [], ◌∷◌, ◌++◌, map, arith,
}
use fast_share.Common.Tests.{
  if◌then◌else◌, ltb, leb, ◌==◌, or_else, is_some, Bool-cases, Option-cases,
}
use fast_share.Common.Lists.{length, get_elem?}
use fast_share.Common.Text.{Text, units, text_eq, decimal}
use fast_share.Common.Number.{Number, eq}
use fast_share.Common.Dict.{lookup, insert_new}
use fast_share.Topology.{SchedulerLane, SchedulerState}
use fast_share.Types.{Snapshot, TransferStatus}
use fast_share.Canvas.Lanes.{PathState}
use fast_share.Canvas.Shapes.{CanvasGraph, CanvasLink, CanvasNode, LinkStatsView, Mode}

pub data Colour : Type 0 where
  green blue red cyan idle dim : Colour

-- PATH_STATE_STROKE
abbrev pub state_colour : PathState → Colour
state_colour PathState.optimal = Colour.green
state_colour PathState.candidate = Colour.blue
state_colour PathState.restricted = Colour.red

-- `id !== graph.source && id !== graph.dest`
abbrev pub is_inner : Text → Text → Text → Bool
is_inner source dest id = not (text_eq id source) && not (text_eq id dest)

-- the inner loop over the ids of a path
unfoldable pub mark_path :
    Text → Text → PathState → List Text → List (Text × PathState) → List (Text × PathState)
unfolding insert_new text_eq
mark_path source dest st [] m = m
mark_path source dest st (id ∷ ids) m =
    mark_path source dest st ids (if is_inner source dest id then insert_new id st m else m)

-- the outer loop, from path `i` on
unfoldable pub mark_paths :
    Text
    → Text
    → List PathState
    → ℕ
    → List (List Text)
    → List (Text × PathState)
    → List (Text × PathState)
unfolding mark_path
mark_paths source dest states i [] m = m
mark_paths source dest states i (ids ∷ paths) m =
    mark_paths source dest states (suc i) paths
      (mark_path source dest (or_else (get_elem? states i) PathState.candidate) ids m)

-- `selected ? null : node.id`
unfoldable pub click_node : Option Text → Text → Option Text
unfolding text_eq
click_node none id = some id
click_node (some s) id = if text_eq id s then none else some id

pub data LiveBadge : Type 0 where
  streaming : ℕ → LiveBadge
  complete failed : LiveBadge

pub record Look (N : Type 0) : Type 0 where
  pub width : N
  pub opacity : N
  pub colour : Colour
  pub dashed : Bool

-- a read at `link.lane`, where it is not null
abbrev pub at_lane : {A : Type 0} → Option ℕ → List A → Option A
at_lane none xs = none
at_lane (some i) xs = get_elem? xs i

module _ {N : Type 0} ⦃num : Number N⦄ where
  -- behind the test on `graph.mode`
  unfoldable pub states_in : Mode → CanvasGraph N → List PathState → List (Text × PathState)
  unfolding mark_paths
  states_in Mode.tri g states = mark_paths g.source g.dest states 0 g.paths []
  states_in Mode.direct g states = []
  states_in Mode.star g states = []

  unfoldable pub node_states : CanvasGraph N → List PathState → List (Text × PathState)
  unfolding states_in
  node_states g states = states_in g.mode g states

  -- `sched?.enabled && sched.lanes.length > 1 ? sched.lanes : null`
  unfoldable pub lane_meta : Option (SchedulerState N) → Option (List (SchedulerLane N))
  lane_meta none = none
  lane_meta (some sched) =
      if sched.enabled && ltb 1 (length sched.lanes) then some sched.lanes else none

  abbrev pub meta_at : Option ℕ → Option (List (SchedulerLane N)) → Option (SchedulerLane N)
  meta_at lane none = none
  meta_at lane (some lanes) = at_lane lane lanes

  abbrev pub is_active : CanvasGraph N → CanvasLink N → Bool
  is_active g link = link.on_route || (g.multipath_on && is_some link.lane)

  unfoldable pub link_look : Bool → Bool → Option PathState → Option (SchedulerLane N) → Look N
  link_look active on_route (some PathState.restricted) meta = record {
    width = num.lit 35 1;
    opacity = num.of_nat 1;
    colour = Colour.red;
    dashed = true;
  }
  link_look active on_route (some PathState.optimal) meta = record {
    width = elim meta [
      | none ↦ num.of_nat 3
      | some l ↦ num.add (num.of_nat 2) (num.round (num.mul l.weight (num.of_nat 3)))
    ];
    opacity = num.of_nat 1;
    colour = Colour.green;
    dashed = false;
  }
  link_look active on_route (some PathState.candidate) meta = record {
    width = elim meta [
      | none ↦ num.of_nat 3
      | some l ↦ num.add (num.of_nat 2) (num.round (num.mul l.weight (num.of_nat 3)))
    ];
    opacity = elim meta [
      | none ↦ num.lit 5 1
      | some l ↦ num.add (num.lit 5 1) (num.mul l.weight (num.lit 5 1))
    ];
    colour = Colour.blue;
    dashed = false;
  }
  link_look active on_route none (some l) = record {
    width = num.add (num.of_nat 2) (num.round (num.mul l.weight (num.of_nat 3)));
    opacity = num.add (num.lit 5 1) (num.mul l.weight (num.lit 5 1));
    colour = if on_route then Colour.green else Colour.idle;
    dashed = false;
  }
  link_look active on_route none none = record {
    width = if active then num.of_nat 3 else num.of_nat 2;
    opacity = if active then num.of_nat 1 else num.lit 4 1;
    colour = if on_route then Colour.green else Colour.idle;
    dashed = false;
  }

  -- the body of the loop over the links
  unfoldable pub draw_link :
      CanvasGraph N → List PathState → Option (List (SchedulerLane N)) → CanvasLink N → Look N
  unfolding link_look
  draw_link g states meta link =
      link_look (is_active g link) link.on_route (at_lane link.lane states) (meta_at link.lane meta)

  abbrev pub plain_stroke : CanvasNode N → Colour
  plain_stroke node =
      if node.is_dest
      then Colour.green
      else if node.is_source || node.on_route
      then Colour.cyan
      else Colour.dim

  -- `stroke` of a node; `none` where it has no lane's state
  unfoldable pub node_stroke : CanvasNode N → Option PathState → Colour
  node_stroke node none = plain_stroke node
  node_stroke node (some st) = if node.up then state_colour st else Colour.red

  unfoldable pub draw_node : CanvasGraph N → List PathState → CanvasNode N → Colour
  unfolding node_states node_stroke lookup
  draw_node g states node = node_stroke node (lookup node.id (node_states g states))

  module _ (text_of : N → Text) where
    unfoldable pub badge_text : LinkStatsView N → Text
    unfolding decimal
    badge_text s =
        units "Δ "
        ++ (text_of s.latency_ms
            ++ (units "ms · "
                ++ (decimal (s.data_frames + s.ack)
                    ++ (units " pkt · " ++ (decimal s.dropped ++ units " ✕")))))

    unfoldable pub link_badge : CanvasLink N → Option Text
    unfolding badge_text
    link_badge link = elim link.stats [
      | none ↦ none
      | some s ↦ if not link.on_route then none else some (badge_text s)
    ]

  -- the top-left chip: `graph.route.length - 1` hops
  unfoldable pub chip_label : CanvasGraph N → Text
  unfolding decimal
  chip_label g = elim g.mode [
    | Mode.direct ↦ units "Direct · 2 nodes"
    | _ ↦ g.preset_label ++ (units " · " ++ (decimal (length g.nodes) ++ units " nodes"))
  ]

  -- `graph.byId[id]?.label ?? id`
  unfoldable pub hop_label : CanvasGraph N → Text → Text
  unfolding lookup
  hop_label g id = elim (lookup id g.by_id) [ none ↦ id | some node ↦ node.label ]

  unfoldable pub live_badge : Option (Snapshot N) → Option LiveBadge
  live_badge none = none
  live_badge (some s) = elim s.transfer_status [
    | TransferStatus.transferring ↦ some (LiveBadge.streaming s.current_sequence)
    | TransferStatus.completed ↦ some LiveBadge.complete
    | TransferStatus.failed ↦ some LiveBadge.failed
    | _ ↦ none
  ]
