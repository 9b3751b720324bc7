-- ===== src/Anim.antt =====
-- frontend/lib/anim.ts: where a dot is on its polyline, and the durations of its segments.
pub mod Laws
pub mod Tests
use fast_share.Common.{
  ℕ, zero, suc, ◌≡◌, Bool, true, false, ◌&&◌, ◌||◌, Option, none, some, List, [], ◌∷◌, map,
}
use fast_share.Common.Tests.{if◌then◌else◌, or_else}
use fast_share.Common.Lists.{find, rev_onto}
use fast_share.Common.Text.{Text, text_eq}
use fast_share.Common.Number.{Number, eq, max_of, min_of}
use fast_share.Canvas.Shapes.{CanvasGraph, CanvasLink, LinkStatsView, Point}

module _ {N : Type 0} ⦃num : Number N⦄ where
  unfoldable pub lerp : Point N → Point N → N → Point N
  lerp a b t = record {
    x = num.add a.x (num.mul (num.sub b.x a.x) t);
    y = num.add a.y (num.mul (num.sub b.y a.y) t);
  }

  -- `seg <= 0 ? 1 : Math.min(1, t / seg)`
  unfoldable pub fraction : N → N → N
  unfolding min_of
  fraction t seg =
      if num.le seg (num.of_nat 0) then num.of_nat 1 else min_of (num.of_nat 1) (num.div t seg)

  -- The loop over the segments, `a` and `b` the ends of the current one. Where the polyline has
  -- fewer points than the timings ask for, the source reads `undefined` and throws; see `IsTimed`.
  unfoldable pub walk : Point N → List (Point N) → List N → N → Option (Point N)
  unfolding lerp fraction
  walk a [] timings t = none
  walk a (b ∷ path) [] t = none
  walk a (b ∷ path) (seg ∷ []) t = some (lerp a b (fraction t seg))
  walk a (b ∷ path) (seg ∷ (next ∷ rest)) t =
      let later = walk b path (next ∷ rest) (num.sub t seg) in
      if num.le t seg then some (lerp a b (fraction t seg)) else later

  unfoldable pub pos_along : List (Point N) → List N → N → Option (Point N)
  unfolding walk max_of
  pos_along [] timings elapsed = none
  pos_along (a ∷ []) timings elapsed = none
  pos_along (a ∷ (b ∷ path)) timings elapsed =
      walk a (b ∷ path) timings (max_of (num.of_nat 0) elapsed)

  -- `timings.reduce((a, b) => a + b, 0)`
  unfoldable pub sum_from : N → List N → N
  sum_from acc [] = acc
  sum_from acc (t ∷ ts) = sum_from (num.add acc t) ts

  unfoldable pub sum : List N → N
  unfolding sum_from
  sum timings = sum_from (num.of_nat 0) timings

  -- the link between two ids, in either direction
  unfoldable pub link_between : CanvasGraph N → Text → Text → Option (CanvasLink N)
  unfolding find text_eq
  link_between g a b =
      find (λ l. text_eq l.a a && text_eq l.b b || text_eq l.a b && text_eq l.b a) g.links

  -- `Math.max(1, link?.stats?.latency_ms ?? 10)`
  unfoldable pub weight_of : Option (CanvasLink N) → N
  unfolding max_of
  weight_of none = max_of (num.of_nat 1) (num.of_nat 10)
  weight_of (some link) =
      max_of (num.of_nat 1) (elim link.stats [ none ↦ num.of_nat 10 | some s ↦ s.latency_ms ])

  unfoldable pub weights : CanvasGraph N → List Text → List N
  unfolding weight_of link_between
  weights g [] = []
  weights g (a ∷ []) = []
  weights g (a ∷ (b ∷ rest)) = weight_of (link_between g a b) ∷ weights g (b ∷ rest)

  -- `reduce(...) || 1`: the sum, or 1 where it is 0
  unfoldable pub total_weight : List N → N
  unfolding sum
  total_weight ws = if eq (sum ws) (num.of_nat 0) then num.of_nat 1 else sum ws

  unfoldable pub build_timings : CanvasGraph N → List Text → N → Bool → List N
  unfolding weights total_weight
  build_timings g ids target reverse =
      let forward = weights g ids in
      let ws = if reverse then rev_onto forward [] else forward in
      map (λ w. num.mul (num.div w (total_weight ws)) target) ws
