-- ===== src/PacketLayer/Render/Laws.antt =====
-- The travelling dots and their trails are drawn on their lanes, and a frame and the drawing after it
-- agree about the places of the dots and about the blasts that are left.
use fast_share.Common.{ℕ, suc, ◌≡◌, refl, ◌⊎◌, inl, inr, false, Option, none, some, List, [], ◌∷◌}
use fast_share.Common.Lists.{All, All-map}
use fast_share.Common.Number.{Number, NumberLaws, QuotientLaws}
use fast_share.Canvas.Shapes.{Point}
use fast_share.Anim.Laws.{IsTimed, OnSegment, pos_along-OnSegment, pos_along_total}
use fast_share.PacketLayer.{Phase, Sprite, Layer}
use fast_share.PacketLayer.Ingest.Timed.{HasTimedPath}
use fast_share.PacketLayer.Frame.{is_travel}
use fast_share.PacketLayer.Runs.{Reach, Reach-IsKeyed}
use fast_share.PacketLayer.Render.{
  Spot, elapsed, place, place_in, spots, with_spot, trail, trail_in, trail_steps, draw_sprite,
}

module _ {N : Type 0} ⦃num : Number N⦄ where
  -- A dot that travels is drawn on its polyline, and so is every circle of the trail.
  pub record IsOnLane (speed : Option N) (now : N) (s : Sprite N) : Type 0 where
    pub dot : (is_travel s.phase ≡ false) ⊎ OnSegment s.path (draw_sprite speed now s).at
    pub trail : All (λ c. OnSegment s.path c.at) (draw_sprite speed now s).trail

  module _ (laws : NumberLaws num) (quotients : QuotientLaws num) (speed : Option N) (now : N) where
    with_spot-OnSegment :
        (path : List (Point N)) (o : Option (Point N)) (j : ℕ) (rest : List (Spot N))
        → ((p : Point N) → o ≡ some p → OnSegment path p)
        → All (λ c. OnSegment path c.at) rest
        → All (λ c. OnSegment path c.at) (with_spot speed now o j rest)
    with_spot-OnSegment path none j rest h k = k
    with_spot-OnSegment path (some p) j rest h k = (h p refl, k)

    spots-OnSegment :
        (s : Sprite N) (j : ℕ) (steps : List ℕ)
        → All (λ c. OnSegment s.path c.at) (spots speed now s j steps)
    unfolding spots
    spots-OnSegment s j [] = tt
    spots-OnSegment s j (step ∷ steps) =
        with_spot-OnSegment s.path _ j (spots speed now s (suc j) steps)
          (λ p e. pos_along-OnSegment laws quotients s.path s.timings _ p e)
          (spots-OnSegment s (suc j) steps)

    trail_in-OnSegment :
        (phase : Phase) (s : Sprite N)
        → All (λ c. OnSegment s.path c.at) (trail_in speed now phase s)
    trail_in-OnSegment Phase.travel s = spots-OnSegment s 0 trail_steps
    trail_in-OnSegment Phase.hold s = tt
    trail_in-OnSegment Phase.timeout s = tt

    place_in-OnSegment :
        (phase : Phase) (s : Sprite N)
        → IsTimed s.path s.timings
        → (is_travel phase ≡ false) ⊎ OnSegment s.path (place_in speed now phase s)
    place_in-OnSegment Phase.travel s h =
        let (p, e) = pos_along_total s.path s.timings (elapsed speed now s) h in
        inr (rw e (pos_along-OnSegment laws quotients s.path s.timings _ p e))
    place_in-OnSegment Phase.hold s h = inl refl
    place_in-OnSegment Phase.timeout s h = inl refl

    draw_sprite-IsOnLane : (s : Sprite N) → HasTimedPath s → IsOnLane speed now s
    unfolding draw_sprite place trail
    draw_sprite-IsOnLane s h = record {
      dot = place_in-OnSegment s.phase s h;
      trail = trail_in-OnSegment s.phase s;
    }

    -- In every state that the animation can reach, at any moment and speed, every dot that
    -- travels is drawn at a point of its polyline, neither before the start of the segment it is
    -- on nor behind its end, and so is every circle of its trail, if the numbers meet their laws
    -- of order and of quotients.
    pub Reach-IsOnLane : {l : Layer N} → Reach l → All (IsOnLane speed now) l.sprites
    Reach-IsOnLane {l} r = All-map l.sprites draw_sprite-IsOnLane (Reach-IsKeyed r).1
