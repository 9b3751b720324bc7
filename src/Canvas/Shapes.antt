-- ===== src/Canvas/Shapes.antt =====
-- frontend/lib/canvas.ts: the types of the graph.
use fast_share.Common.{ℕ, Bool, Option, List}
use fast_share.Common.Text.{Text}

pub record LinkStatsView (N : Type 0) : Type 0 where
  pub data_frames : ℕ
  pub ack : ℕ
  pub dropped : ℕ
  pub latency_ms : N

pub record CanvasNode (N : Type 0) : Type 0 where
  pub id : Text
  pub label : Text
  pub sub : Text
  pub up : Bool
  pub x : N
  pub y : N
  pub is_source : Bool
  pub is_dest : Bool
  pub on_route : Bool

pub record CanvasLink (N : Type 0) : Type 0 where
  pub id : Text
  pub a : Text
  pub b : Text
  pub x1 : N
  pub y1 : N
  pub x2 : N
  pub y2 : N
  pub on_route : Bool
  pub lane : Option ℕ
  pub stats : Option (LinkStatsView N)

pub data Mode : Type 0 where
  direct star tri : Mode

pub record CanvasGraph (N : Type 0) : Type 0 where
  pub mode : Mode
  pub preset : Text
  pub preset_label : Text
  pub nodes : List (CanvasNode N)
  pub links : List (CanvasLink N)
  pub route : Option (List Text)
  pub paths : List (List Text)
  pub multipath_on : Bool
  pub source : Text
  pub dest : Text
  pub by_id : List (Text × CanvasNode N)

pub record Point (N : Type 0) : Type 0 where
  pub x : N
  pub y : N
