-- ===== src/PanelLayout/Resize.antt =====
-- frontend/components/PanelResizeHandle.tsx: a drag of the edge of a sidebar. The page gives each
-- handle the width, the setter, the limits and the reset of the layout (frontend/app/page.tsx).
pub mod Laws
use fast_share.Common.{ℕ, Option, none, some, List, [], ◌∷◌}
use fast_share.Common.Number.{Number}
use fast_share.PanelLayout.{
  Layout, Limits, left_limits, right_limits, clamp_to, set_left_w, set_right_w, reset_left,
  reset_right,
}

pub data Side : Type 0 where
  left right : Side

-- What the closure of pointerdown holds: `startX` and `startW`.
pub record Drag (N : Type 0) : Type 0 where
  pub start_x : N
  pub start_w : N

-- A pointerup or a pointercancel removes the listeners.
pub data Pointer (N : Type 0) : Type 0 where
  pressed moved : N → Pointer N
  let_go double_clicked : Pointer N

pub record Handle (N : Type 0) : Type 0 where
  pub drag : Option (Drag N)
  pub layout : Layout N

abbrev pub limits_of : Side → Limits
limits_of Side.left = left_limits
limits_of Side.right = right_limits

module _ {N : Type 0} where
  abbrev pub width_of : Side → Layout N → N
  width_of Side.left p = p.left_w
  width_of Side.right p = p.right_w

  -- a drag that has begun before is over: a new one has its own listeners
  abbrev pub press : Side → N → Handle N → Handle N
  press side x h = record h {
    drag = some (record { start_x = x; start_w = width_of side h.layout });
  }

  abbrev pub let_go_of : Handle N → Handle N
  let_go_of h = record h { drag = none }

module _ {N : Type 0} ⦃num : Number N⦄ where
  -- `side === "left" ? ev.clientX - startX : startX - ev.clientX`
  abbrev pub delta : Side → N → N → N
  delta Side.left start x = num.sub x start
  delta Side.right start x = num.sub start x

  abbrev pub set_width : Side → N → Layout N → Layout N
  set_width Side.left w p = set_left_w w p
  set_width Side.right w p = set_right_w w p

  abbrev pub reset_width : Side → Layout N → Layout N
  reset_width Side.left p = reset_left p
  reset_width Side.right p = reset_right p

  -- `onChange(Math.min(max, Math.max(min, startW + delta)))`
  unfoldable pub move : Side → N → Option (Drag N) → Layout N → Layout N
  move side x none p = p
  move side x (some d) p =
      set_width side (clamp_to (limits_of side) (num.add d.start_w (delta side d.start_x x))) p

  unfoldable pub point : Side → Pointer N → Handle N → Handle N
  unfolding move
  point side (Pointer.pressed x) h = press side x h
  point side (Pointer.moved x) h = record h { layout = move side x h.drag h.layout }
  point side Pointer.let_go h = let_go_of h
  point side Pointer.double_clicked h = record h { layout = reset_width side h.layout }

  unfoldable pub points : Side → List (Pointer N) → Handle N → Handle N
  unfolding point
  points side [] h = h
  points side (e ∷ es) h = points side es (point side e h)
