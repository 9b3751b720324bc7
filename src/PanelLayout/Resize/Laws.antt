-- ===== src/PanelLayout/Resize/Laws.antt =====
-- A drag sets the width by where the pointer is, not by how it came there.
use fast_share.Common.{◌≡◌, refl, ◌∙◌, some, List, [], ◌∷◌}
use fast_share.Common.Number.{Number, NumberLaws}
use fast_share.Common.Number.Hundredths.{hundredths}
use fast_share.PanelLayout.{Layout, clamp_to, left_limits, right_limits}
use fast_share.PanelLayout.Laws.{clamp_to-IsWithin, clamp_to-id}
use fast_share.PanelLayout.Resize.{
  Side, Drag, Pointer, Handle, limits_of, width_of, delta, move, point, points, set_width,
}

-- The pointer goes through the places of a list, and then to `x`.
abbrev pub moves : {N : Type 0} → List N → N → List (Pointer N)
moves [] x = Pointer.moved x ∷ []
moves (y ∷ ys) x = Pointer.moved y ∷ moves ys x

abbrev pub other : Side → Side
other Side.left = Side.right
other Side.right = Side.left

module _ {N : Type 0} ⦃num : Number N⦄ (laws : NumberLaws num) where
  clamp_to_twice :
      (side : Side) (v : N)
      → clamp_to (limits_of side) (clamp_to (limits_of side) v) ≡ clamp_to (limits_of side) v
  clamp_to_twice Side.left v =
      clamp_to-id laws left_limits _ (clamp_to-IsWithin laws left_limits v refl)
  clamp_to_twice Side.right v =
      clamp_to-id laws right_limits _ (clamp_to-IsWithin laws right_limits v refl)

  width-set_width :
      (side : Side) (v : N) (p : Layout N)
      → width_of side (set_width side (clamp_to (limits_of side) v) p) ≡ clamp_to (limits_of side) v
  width-set_width Side.left v p = clamp_to_twice Side.left v
  width-set_width Side.right v p = clamp_to_twice Side.right v

  other_width :
      (side : Side) (v : N) (p : Layout N)
      → width_of (other side) (set_width side v p) ≡ width_of (other side) p
  other_width Side.left v p = refl
  other_width Side.right v p = refl

  moved_to :
      (side : Side) (d : Drag N) (p : Layout N) (ys : List N) (x : N)
      → (width_of side (points side (moves ys x) (record { drag = some d; layout = p })).layout
          ≡ clamp_to (limits_of side) (num.add d.start_w (delta side d.start_x x)))
        × (width_of
              (other side)
              (points side (moves ys x) (record { drag = some d; layout = p })).layout
            ≡ width_of (other side) p)
  unfolding points point move
  moved_to side d p [] x = (width-set_width side _ p, other_width side _ p)
  moved_to side d p (y ∷ ys) x =
      let next = moved_to side d (move side y (some d) p) ys x in
      (next.0, next.1 ∙ other_width side _ p)

  -- A drag of a sidebar's edge leaves the width that the last place of the pointer asks for,
  -- within the limits, whatever the places before, and leaves the other sidebar's width, if the
  -- numbers meet their laws.
  pub points_last :
      (side : Side) (h : Handle N) (start : N) (ys : List N) (x : N)
      → (width_of side (points side (Pointer.pressed start ∷ moves ys x) h).layout
          ≡ clamp_to (limits_of side) (num.add (width_of side h.layout) (delta side start x)))
        × (width_of (other side) (points side (Pointer.pressed start ∷ moves ys x) h).layout
            ≡ width_of (other side) h.layout)
  unfolding points point
  points_last side h start ys x =
      moved_to side (record { start_x = start; start_w = width_of side h.layout }) h.layout ys x
