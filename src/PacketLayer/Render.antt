-- ===== src/PacketLayer/Render.antt =====
-- frontend/components/PacketLayer.tsx, the rendering: where the dots, their trails and the blasts are
-- drawn at a moment, and how opaque they are.
pub mod Laws
pub mod Frames
use fast_share.Common.{
  ℕ, suc, ◌-◌, ◌*◌, ◌+◌, ◌<◌, ◌&&◌, Bool, true, false, Option, none, some, List, [], ◌∷◌, ◌++◌, map,
}
use fast_share.Common.Tests.{if◌then◌else◌, ltb, or_else}
use fast_share.Common.Text.{Text, units, decimal}
use fast_share.Common.Number.{Number, lt, max_of}
use fast_share.Canvas.Shapes.{Point}
use fast_share.Anim.{pos_along}
use fast_share.PacketLayer.{Dir, Phase, Sprite, Blast, timeout_fade, blast_fade, slow_k}
use fast_share.PacketLayer.Frame.{is_hold}
use fast_share.PacketLayer.Ingest.{is_frame, is_timeout}

-- A circle of the trail.
pub record Spot (N : Type 0) : Type 0 where
  pub at : Point N
  pub radius : ℕ
  pub opacity : N

pub record DrawnSprite (N : Type 0) : Type 0 where
  pub at : Point N
  pub opacity : N
  pub fill : Text
  pub radius : ℕ
  pub ring : Bool
  pub trail : List (Spot N)
  pub retry_label : Option Text
  pub lane_letter : Option ℕ
  pub ack_label : Bool

pub record DrawnBlast (N : Type 0) : Type 0 where
  pub x : N
  pub y : N
  pub opacity : N

-- TRAIL_STEPS
abbrev pub trail_steps : List ℕ
trail_steps = 50 ∷ 100 ∷ 150 ∷ []

module _ {N : Type 0} ⦃num : Number N⦄ (speed : Option N) (now : N) where
  abbrev pub elapsed : Sprite N → N
  elapsed s = num.sub now s.started_at

  abbrev pub place_in : Phase → Sprite N → Point N
  place_in Phase.travel s = or_else (pos_along s.path s.timings (elapsed s)) s.pos
  place_in Phase.hold s = s.pos
  place_in Phase.timeout s = s.pos

  unfoldable pub place : Sprite N → Point N
  unfolding pos_along
  place s = place_in s.phase s

  -- `Math.max(0, 1 - (now - s.timeoutAt) / (TIMEOUT_FADE * k))` of a dot that has timed out
  unfoldable pub opacity : Sprite N → N
  unfolding max_of slow_k
  opacity s = elim s.phase [
    | Phase.timeout ↦ max_of (num.of_nat 0) (
        num.sub (num.of_nat 1)
          (num.div (num.sub now s.timeout_at) (num.mul (num.of_nat timeout_fade) (slow_k speed))))
    | _ ↦ num.of_nat 1
  ]

  abbrev pub with_spot : Option (Point N) → ℕ → List (Spot N) → List (Spot N)
  with_spot none j rest = rest
  with_spot (some p) j rest =
      record {
        at = p;
        radius = 5 - j;
        opacity = num.sub (num.lit 3 1) (num.mul (num.of_nat j) (num.lit 9 2));
      }
      ∷ rest

  -- the circles of the steps, from index `j` on; `null` where there is no position
  unfoldable pub spots : Sprite N → ℕ → List ℕ → List (Spot N)
  unfolding pos_along slow_k
  spots s j [] = []
  spots s j (step ∷ steps) =
      with_spot
        (pos_along s.path s.timings
          (num.sub (elapsed s) (num.mul (num.of_nat step) (slow_k speed))))
        j (spots s (suc j) steps)

  abbrev pub trail_in : Phase → Sprite N → List (Spot N)
  trail_in Phase.travel s = spots s 0 trail_steps
  trail_in Phase.hold s = []
  trail_in Phase.timeout s = []

  unfoldable pub trail : Sprite N → List (Spot N)
  unfolding spots
  trail s = trail_in s.phase s

  -- `#${s.seq} ×${s.retries + 1}` of a DATA dot that is sent again
  unfoldable pub retry_label : Sprite N → Option Text
  unfolding decimal
  retry_label s =
      if is_frame s.dir && ltb 0 s.retries
      then some (units "#" ++ (decimal s.seq ++ (units " ×" ++ decimal (s.retries + 1))))
      else none

  unfoldable pub draw_sprite : Sprite N → DrawnSprite N
  unfolding place opacity trail retry_label
  draw_sprite s = record {
    at = place s;
    opacity = opacity s;
    fill = if is_timeout s.phase then units "fill-red-500" else s.fill;
    radius = if is_frame s.dir then 6 else 5;
    ring = is_hold s.phase;
    trail = trail s;
    retry_label = retry_label s;
    lane_letter = if is_frame s.dir then s.letter else none;
    ack_label = elim s.dir [ Dir.ack ↦ true | Dir.frame ↦ false ];
  }

  -- nothing once it has faded
  unfoldable pub draw_blast : Blast N → Option (DrawnBlast N)
  unfolding slow_k
  draw_blast b =
      let age = num.sub now b.at in
      let fade = num.mul (num.of_nat blast_fade) (slow_k speed) in
      if lt fade age
      then none
      else some (record {
        x = b.x;
        y = num.add b.y (num.of_nat 4);
        opacity = num.sub (num.of_nat 1) (num.div age fade);
      })
