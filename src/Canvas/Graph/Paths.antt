-- ===== src/Canvas/Graph/Paths.antt =====
-- frontend/lib/canvas.ts: pathOf, laneIds and lanePath; their null is `none`.
pub mod Laws
use fast_share.Common.{ℕ, Option, none, some, List, [], ◌∷◌}
use fast_share.Common.Tests.{if◌then◌else◌, ltb}
use fast_share.Common.Lists.{length, get_elem?}
use fast_share.Common.Text.{Text, text_eq}
use fast_share.Common.Number.{Number}
use fast_share.Common.Dict.{lookup}
use fast_share.Canvas.Shapes.{CanvasNode, CanvasGraph, Point}

module _ {N : Type 0} ⦃num : Number N⦄ where
  cons_point : Option (CanvasNode N) → Option (List (Point N)) → Option (List (Point N))
  cons_point (some node) (some pts) = some (record { x = node.x; y = node.y } ∷ pts)
  cons_point _ _ = none

  -- the loop of `pathOf` over the ids of a chain
  unfoldable pub points_of : CanvasGraph N → List Text → Option (List (Point N))
  unfolding cons_point lookup text_eq
  points_of g [] = some []
  points_of g (id ∷ ids) = cons_point (lookup id g.by_id) (points_of g ids)

  unfoldable pub path_of : CanvasGraph N → Option (List Text) → Option (List (Point N))
  unfolding points_of
  path_of g none = none
  path_of g (some ids) = if ltb (length ids) 2 then none else points_of g ids

  unfoldable pub lane_ids : CanvasGraph N → Option ℕ → Option (List Text)
  lane_ids g none = g.route
  lane_ids g (some lane) = elim (get_elem? g.paths lane) [ none ↦ g.route | some ids ↦ some ids ]

  unfoldable pub lane_path : CanvasGraph N → Option ℕ → Option (List (Point N))
  unfolding path_of lane_ids
  lane_path g lane = path_of g (lane_ids g lane)
