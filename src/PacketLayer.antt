-- ===== src/PacketLayer.antt =====
-- frontend/components/PacketLayer.tsx: the sprites and blasts of the packet animation. The refs are
-- the fields of a state, which the ingest effect and the frame loop pass on; see the children.
pub mod Spawn
pub mod Ingest
pub mod Frame
pub mod Render
pub mod Runs
pub mod OneDot
pub mod Tests
use fast_share.Common.{ℕ, suc, Bool, true, false, Option, none, some, List, [], ◌∷◌, ◌++◌, ◌&&◌}
use fast_share.Common.Tests.{or_else, if◌then◌else◌}
use fast_share.Common.Lists.{head_or, rev_onto}
use fast_share.Common.Text.{Text, units}
use fast_share.Common.Number.{Number, eq}
use fast_share.Topology.{TopologySnapshot}
use fast_share.Types.{Snapshot, PacketEvent}
use fast_share.Canvas.Lanes.{PathState}
use fast_share.Canvas.Shapes.{CanvasGraph, Point}
use fast_share.Canvas.Graph.Paths.{lane_ids, lane_path}
use fast_share.Canvas.Graph.{build_canvas_graph}
use fast_share.Anim.{build_timings}

pub data Dir : Type 0 where
  frame ack : Dir

pub data Phase : Type 0 where
  travel hold timeout : Phase

-- `dir: "data"` is `frame`.
pub record Sprite (N : Type 0) : Type 0 where
  pub id : ℕ
  pub seq : ℕ
  pub retries : ℕ
  pub dir : Dir
  pub phase : Phase
  pub started_at : N
  pub timings : List N
  pub path : List (Point N)
  pub lane : ℕ
  pub fill : Text
  pub stroke_cls : Text
  pub letter : Option ℕ
  pub ack_seen : Bool
  pub timeout_at : N
  pub pos : Point N

pub record Blast (N : Type 0) : Type 0 where
  pub id : ℕ
  pub x : N
  pub y : N
  pub at : N

-- spritesRef, blastsRef, nextIdRef, lastIdRef, and the reducer behind `tick`
pub record Layer (N : Type 0) : Type 0 where
  pub sprites : List (Sprite N)
  pub blasts : List (Blast N)
  pub next_id : ℕ
  pub last_id : ℕ
  pub ticks : ℕ

-- latestRef.current: the properties of the last render
pub record Latest (N : Type 0) : Type 0 where
  pub topology : Option (TopologySnapshot N)
  pub status : Option (Snapshot N)
  pub events : List (PacketEvent N)
  pub speed : Option N

unfoldable pub initial : {N : Type 0} → Layer N
initial = record { sprites = []; blasts = []; next_id = 1; last_id = 0; ticks = 0 }

-- `spritesRef.current.push({ id: nextIdRef.current++, ... })`
abbrev pub push : {N : Type 0} → Sprite N → Layer N → Layer N
push s l = record l { sprites = l.sprites ++ s ∷ []; next_id = suc l.next_id }

abbrev pub data_total : ℕ
data_total = 900

abbrev pub ack_total : ℕ
ack_total = 700

abbrev pub timeout_fade : ℕ
timeout_fade = 600

abbrev pub blast_fade : ℕ
blast_fade = 800

module _ {N : Type 0} ⦃num : Number N⦄ where
  abbrev pub origin : Point N
  origin = record { x = num.of_nat 0; y = num.of_nat 0 }

  -- `1 / (speed || 1)`
  unfoldable pub slow_k : Option N → N
  slow_k none = num.div (num.of_nat 1) (num.of_nat 1)
  slow_k (some speed) =
      num.div (num.of_nat 1) (if eq speed (num.of_nat 0) then num.of_nat 1 else speed)

  abbrev pub graph_of : Latest N → CanvasGraph N
  graph_of latest = build_canvas_graph latest.topology latest.status

  -- the ACK dot that travels the lane back
  unfoldable pub ack_sprite : Latest N → ℕ → ℕ → ℕ → N → ℕ → List (Point N) → Sprite N
  unfolding slow_k
  ack_sprite latest id seq retries at lane pts = record {
    id = id;
    seq = seq;
    retries = retries;
    dir = Dir.ack;
    phase = Phase.travel;
    started_at = at;
    timings =
        build_timings (graph_of latest) (or_else (lane_ids (graph_of latest) (some lane)) [])
          (num.mul (num.of_nat ack_total) (slow_k latest.speed)) true;
    path = rev_onto pts [];
    lane = lane;
    fill = units "fill-white";
    stroke_cls = units "stroke-green-400";
    letter = none;
    ack_seen = true;
    timeout_at = num.of_nat 0;
    pos = head_or (rev_onto pts []) origin;
  }

  unfoldable pub spawn_ack : Latest N → ℕ → ℕ → N → ℕ → Layer N → Layer N
  unfolding ack_sprite
  spawn_ack latest seq retries at lane l = elim (lane_path (graph_of latest) (some lane)) [
    | none ↦ l
    | some pts ↦ push (ack_sprite latest l.next_id seq retries at lane pts) l
  ]
