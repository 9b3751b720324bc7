-- ===== src/Canvas/Graph.antt =====
-- frontend/lib/canvas.ts: buildCanvasGraph. A dictionary is read at keys that it holds or lacks; `undefined` is `none`.
pub mod Edges
pub mod Paths
pub mod States
use fast_share.Common.{
  ℕ, zero, suc, ◌+◌, ◌≡◌, Bool, true, false, not, ◌&&◌, ◌||◌, Option, none, some, List, [], ◌∷◌,
  ◌++◌, map,
}
use mathlib.Core.Option
use fast_share.Common.Tests.{if◌then◌else◌, ltb, ◌==◌, or_else, is_some}
use fast_share.Common.Lists.{length, get_elem?, find, any}
use fast_share.Common.Text.{Text, units, text_eq, decimal}
use fast_share.Common.Number.{Number}
use fast_share.Common.Dict.{lookup, insert}
use fast_share.Topology.{
  SchedulerState, TopologySnapshot, TopologyNode, TopologyLink, LinkStats, PresetInfo,
}
use fast_share.Types.{Snapshot, Config, ServerStatus, TransferStatus}
use fast_share.Canvas.Lanes.{PathState, scheduler_lane_states}
use fast_share.Canvas.Shapes.{LinkStatsView, CanvasNode, CanvasLink, Mode, CanvasGraph, Point}
use fast_share.Canvas.Graph.Edges.{edge_key, lane_map, has_edge}

-- STAR_POS and TRI_POS, spread into PRESET_POS
abbrev pub preset_pos : List (Text × (ℕ × ℕ))
preset_pos =
    (units "hub", (320, 200))
    ∷ (units "ch1", (168, 200))
    ∷ (units "ch2", (472, 200))
    ∷ (units "l1", (56, 76))
    ∷ (units "l2", (56, 324))
    ∷ (units "l3", (584, 76))
    ∷ (units "l4", (584, 324))
    ∷ (units "src", (56, 200))
    ∷ (units "a1", (240, 72))
    ∷ (units "a2", (400, 72))
    ∷ (units "b1", (240, 200))
    ∷ (units "b2", (400, 200))
    ∷ (units "c1", (240, 328))
    ∷ (units "c2", (400, 328))
    ∷ (units "dst", (584, 200))
    ∷ []

abbrev pub client : Text
client = units "client"

abbrev pub server : Text
server = units "server"

abbrev pub is_running : ServerStatus → Bool
is_running ServerStatus.running = true
is_running _ = false

abbrev pub is_transferring : TransferStatus → Bool
is_transferring TransferStatus.transferring = true
is_transferring _ = false

-- `s?.f ?? d`
abbrev pub field_or {ℓ} : {N : Type 0} {A : Type ℓ} → (Snapshot N → A) → Option (Snapshot N) → A → A
field_or f none d = d
field_or f (some s) d = f s

paths_or_route : List (List Text) → Option (List Text) → List (List Text)
paths_or_route [] none = []
paths_or_route [] (some route) = route ∷ []
paths_or_route (p ∷ ps) _ = p ∷ ps

-- `new Set(xs).has(a)`
unfoldable pub contains : List Text → Text → Bool
unfolding any text_eq
contains xs a = any (λ x. text_eq x a) xs

-- `PRESET_POS[id]`
unfoldable pub position_of : Text → Option (ℕ × ℕ)
unfolding lookup text_eq
position_of id = lookup id preset_pos

module _ {N : Type 0} ⦃num : Number N⦄ where
  -- the direct link between two nodes, while the topology is off or not loaded
  unfoldable pub direct_graph : Option (Snapshot N) → CanvasGraph N
  unfolding decimal
  direct_graph status =
      let running = field_or (λ s. is_running s.server_status) status false in
      let streaming = field_or (λ s. is_transferring s.transfer_status) status false in
      let stats : LinkStatsView N = record {
        data_frames =
            field_or (λ s. s.packets_sent) status 0 + field_or (λ s. s.retransmissions) status 0;
        ack = field_or (λ s. s.packets_acked) status 0;
        dropped = field_or (λ s. s.packets_lost) status 0;
        latency_ms = num.round (
            or_else (field_or (λ s. s.rtt_ms) status none)
              (field_or (λ s. num.of_nat s.config.topology_latency_ms) status (num.of_nat 10)));
      } in
      let client_node : CanvasNode N = record {
        id = client;
        label = units "CLIENT";
        sub = units "SENDER";
        up = true;
        x = num.of_nat 170;
        y = num.of_nat 200;
        is_source = true;
        is_dest = false;
        on_route = streaming;
      } in
      let server_node : CanvasNode N = record {
        id = server;
        label = units "SERVER";
        sub = units ":" ++ decimal (field_or (λ s. s.server_port) status 5001);
        up = running;
        x = num.of_nat 470;
        y = num.of_nat 200;
        is_source = false;
        is_dest = true;
        on_route = streaming;
      } in
      let link : CanvasLink N = record {
        id = units "client-server";
        a = client;
        b = server;
        x1 = num.of_nat 170;
        y1 = num.of_nat 200;
        x2 = num.of_nat 470;
        y2 = num.of_nat 200;
        on_route = streaming;
        lane = some 0;
        stats = some stats;
      } in
      record {
        mode = Mode.direct;
        preset = units "direct";
        preset_label = units "Direct link";
        nodes = client_node ∷ server_node ∷ [];
        links = link ∷ [];
        route = if streaming then some (client ∷ server ∷ []) else none;
        paths = (client ∷ server ∷ []) ∷ [];
        multipath_on = false;
        source = client;
        dest = server;
        by_id = (client, client_node) ∷ (server, server_node) ∷ [];
      }

  unfoldable pub x_of : Text → N
  unfolding position_of
  x_of id = elim (position_of id) [ none ↦ num.of_nat 0 | some p ↦ num.of_nat p.0 ]

  unfoldable pub y_of : Text → N
  unfolding position_of
  y_of id = elim (position_of id) [ none ↦ num.of_nat 0 | some p ↦ num.of_nat p.1 ]

  -- `topology.paths.length ? topology.paths : route ? [route] : []`
  unfoldable pub lanes_of : TopologySnapshot N → List (List Text)
  unfolding paths_or_route
  lanes_of t = paths_or_route t.paths t.route

  unfoldable pub canvas_node : TopologySnapshot N → TopologyNode N → CanvasNode N
  unfolding x_of y_of contains decimal any
  canvas_node t n = record {
    id = n.id;
    label = n.label;
    sub = units ":" ++ decimal n.port;
    up = n.up;
    x = x_of n.id;
    y = y_of n.id;
    is_source = text_eq n.id t.source;
    is_dest = text_eq n.id t.dest;
    on_route = contains (or_else t.route []) n.id;
  }

  unfoldable pub stats_view : LinkStats N → LinkStatsView N
  stats_view s = record {
    data_frames = s.data_packets;
    ack = s.ack_packets;
    dropped = s.dropped;
    latency_ms = s.latency_ms;
  }

  unfoldable pub canvas_link : TopologySnapshot N → TopologyLink N → CanvasLink N
  unfolding x_of y_of stats_view lanes_of lane_map lookup has_edge edge_key
  canvas_link t l = record {
    id = l.id;
    a = l.a;
    b = l.b;
    x1 = x_of l.a;
    y1 = y_of l.a;
    x2 = x_of l.b;
    y2 = y_of l.b;
    on_route = elim t.route [ none ↦ false | some route ↦ has_edge route l.a l.b ];
    lane = lookup (edge_key l.a l.b) (lane_map (lanes_of t));
    stats = Option.map stats_view (lookup l.id t.link_stats);
  }

  -- `Object.fromEntries(nodes.map((n) => [n.id, n]))`
  unfoldable pub from_entries :
      List (CanvasNode N) → List (Text × CanvasNode N) → List (Text × CanvasNode N)
  unfolding insert
  from_entries [] m = m
  from_entries (n ∷ ns) m = from_entries ns (insert n.id n m)

  -- the preset topology
  unfoldable pub preset_graph : TopologySnapshot N → CanvasGraph N
  unfolding canvas_node canvas_link from_entries lanes_of find
  preset_graph t =
      let nodes : List (CanvasNode N) = map (canvas_node t) t.nodes in
      record {
        mode = if text_eq t.preset (units "tri") then Mode.tri else Mode.star;
        preset = t.preset;
        preset_label =
            or_else (Option.map (λ p. p.label) (find (λ p. text_eq p.id t.preset) t.presets))
              t.preset;
        nodes = nodes;
        links = map (canvas_link t) t.links;
        route = t.route;
        paths = lanes_of t;
        multipath_on = t.multipath.enabled && ltb 1 (length (lanes_of t));
        source = t.source;
        dest = t.dest;
        by_id = from_entries nodes [];
      }

  unfoldable pub build_canvas_graph :
      Option (TopologySnapshot N) → Option (Snapshot N) → CanvasGraph N
  unfolding direct_graph preset_graph
  build_canvas_graph none status = direct_graph status
  build_canvas_graph (some t) status =
      if field_or (λ s. s.config.topology_enabled) status false
      then preset_graph t
      else direct_graph status
