-- ===== src/Canvas/Graph/Edges.antt =====
-- frontend/lib/canvas.ts: edge keys, the map from an edge to its lane, and the edges of a route.
pub mod Laws
use fast_share.Common.{
  ℕ, zero, suc, ◌+◌, Bool, true, false, not, ◌&&◌, ◌||◌, Option, none, some, List, [], ◌∷◌, ◌++◌,
}
use fast_share.Common.Tests.{if◌then◌else◌}
use fast_share.Common.Text.{Text, units, text_eq, text_lt}
use fast_share.Common.Dict.{lookup, insert_new}

-- `${a}|${b}` in code unit order: a canonical key of the unordered pair
unfoldable pub edge_key : Text → Text → Text
edge_key a b = if text_lt a b then a ++ (units "|" ++ b) else b ++ (units "|" ++ a)

-- the inner loop over `j`: the edges of one lane that no earlier lane has taken
unfoldable pub mark_lane : ℕ → List Text → List (Text × ℕ) → List (Text × ℕ)
mark_lane i [] m = m
mark_lane i (x ∷ []) m = m
mark_lane i (x ∷ (y ∷ rest)) m = mark_lane i (y ∷ rest) (insert_new (edge_key x y) i m)

-- `paths.forEach((lanePath, i) => ...)`
unfoldable pub mark_lanes : ℕ → List (List Text) → List (Text × ℕ) → List (Text × ℕ)
mark_lanes i [] m = m
mark_lanes i (path ∷ paths) m = mark_lanes (suc i) paths (mark_lane i path m)

unfoldable pub lane_map : List (List Text) → List (Text × ℕ)
unfolding mark_lanes mark_lane edge_key text_lt text_eq insert_new
lane_map paths = mark_lanes 0 paths []

-- `route.some((_, i) => i < route.length - 1 && ...)`: a and b are neighbours on the route
unfoldable pub has_edge : List Text → Text → Text → Bool
has_edge [] a b = false
has_edge (x ∷ []) a b = false
has_edge (x ∷ (y ∷ rest)) a b =
    (text_eq x a && text_eq y b || text_eq x b && text_eq y a) || has_edge (y ∷ rest) a b
