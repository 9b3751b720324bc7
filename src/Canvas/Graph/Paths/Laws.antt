-- ===== src/Canvas/Graph/Paths/Laws.antt =====
-- The dictionary of nodes, and the polylines that it gives for chains of ids.
use fast_share.Canvas.Graph.Paths.{points_of, path_of, cons_point}
use fast_share.Common.Tests.{or_else}
use mathlib.Core.Path.{sym}
use mathlib.Core.Option.{some-injective}
use fast_share.Common.{suc, ◌≤◌, ◌≡◌, refl, ap, Option, none, some, List, [], ◌∷◌, arith}
use fast_share.Common.Lists.{length}
use fast_share.Common.Text.{Text}
use fast_share.Common.Number.{Number}
use fast_share.Common.Dict.{lookup}
use fast_share.Canvas.Shapes.{CanvasGraph, CanvasNode, Point}

module _ {N : Type 0} ⦃num : Number N⦄ where
  cons_point-eq-some :
      (o : Option (CanvasNode N)) (rest : Option (List (Point N))) (pts : List (Point N))
      → cons_point o rest ≡ some pts
      → (node : CanvasNode N) × (more : List (Point N)) × (o ≡ some node)
        × (rest ≡ some more)
        × (pts ≡ record { x = node.x; y = node.y } ∷ more)
  unfolding cons_point
  cons_point-eq-some none rest pts e = cc
  cons_point-eq-some (some node) none pts e = cc
  cons_point-eq-some (some node) (some more) pts e =
      (node, more, refl, refl, sym (some-injective _ _ e))

  length-points_of :
      (g : CanvasGraph N) (ids : List Text) (pts : List (Point N))
      → points_of g ids ≡ some pts
      → length pts ≡ length ids
  unfolding points_of
  length-points_of g [] pts e = ap length (sym (some-injective _ _ e))
  length-points_of g (id ∷ ids) pts e =
      let (node, more, found, rest, eq) =
        cons_point-eq-some (lookup id g.by_id) (points_of g ids) pts e in
      rw eq (ap suc (length-points_of g ids more rest))

  -- A polyline has a point for each id of its chain, and at least two.
  pub length-path_of :
      (g : CanvasGraph N) (ids : Option (List Text)) (pts : List (Point N))
      → path_of g ids ≡ some pts
      → (length pts ≡ length (or_else ids [])) × (2 ≤ length pts)
  unfolding path_of
  length-path_of g none pts e = cc
  length-path_of g (some ids) pts e = ground (arith, length-points_of g ids pts)
