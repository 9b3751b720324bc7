-- ===== src/Viewport.antt =====
-- The view of frontend/components/TopologyCanvas.tsx: zoom, pan, and where the inspector is anchored.
-- `exp` and `hypot` are those of Math.
pub mod Laws
pub mod Drop
pub mod Tests
use fast_share.Common.{
  ℕ, zero, suc, Bool, true, false, not, ◌&&◌, ◌||◌, Option, none, some, List, [], ◌∷◌,
}
use fast_share.Common.Tests.{if◌then◌else◌}
use fast_share.Common.Text.{Text}
use fast_share.Common.Dict.{lookup}
use fast_share.Common.Number.{Number, eq, lt, min_of, max_of}
use fast_share.Canvas.Shapes.{CanvasGraph, CanvasNode, Point}

pub record View (N : Type 0) : Type 0 where
  pub tx : N
  pub ty : N
  pub k : N

-- A bounding rectangle.
pub record Rect (N : Type 0) : Type 0 where
  pub left : N
  pub top : N
  pub width : N
  pub height : N

-- How the view box lies in the rectangle of the picture.
pub record Metrics (N : Type 0) : Type 0 where
  pub rect : Rect N
  pub scale : N
  pub ox : N
  pub oy : N

-- `layout`: what is measured on mount and on every resize
pub record Measured (N : Type 0) : Type 0 where
  pub scale : N
  pub ox : N
  pub oy : N
  pub dx : N
  pub dy : N
  pub width : N
  pub height : N

-- `panRef`
pub record Press (N : Type 0) : Type 0 where
  pub sx : N
  pub sy : N
  pub tx : N
  pub ty : N
  pub scale : N
  pub moved : Bool

-- The view, the press that is held, and how often the empty canvas was clicked.
pub record Pane (N : Type 0) : Type 0 where
  pub view : View N
  pub press : Option (Press N)
  pub panning : Bool
  pub clicks : ℕ

abbrev pub box_w : ℕ
box_w = 640

abbrev pub box_h : ℕ
box_h = 400

module _ {N : Type 0} ⦃num : Number N⦄ where
  abbrev pub min_k : N
  min_k = num.lit 4 1

  abbrev pub max_k : N
  max_k = num.of_nat 3

  abbrev pub first_view : View N
  first_view = record { tx = num.of_nat 0; ty = num.of_nat 0; k = num.of_nat 1 }

  abbrev pub first_pane : Pane N
  first_pane = record { view = first_view; press = none; panning = false; clicks = 0 }

  unfoldable pub svg_metrics : Rect N → Metrics N
  unfolding min_of
  svg_metrics r =
      let scale =
        min_of (num.div r.width (num.of_nat box_w)) (num.div r.height (num.of_nat box_h)) in
      record {
        rect = r;
        scale = scale;
        ox = num.div (num.sub r.width (num.mul (num.of_nat box_w) scale)) (num.of_nat 2);
        oy = num.div (num.sub r.height (num.mul (num.of_nat box_h) scale)) (num.of_nat 2);
      }

  -- the rectangles of the container and of the picture
  unfoldable pub measure : Rect N → Rect N → Measured N
  unfolding svg_metrics
  measure container picture =
      let m = svg_metrics picture in
      record {
        scale = m.scale;
        ox = m.ox;
        oy = m.oy;
        dx = num.sub picture.left container.left;
        dy = num.sub picture.top container.top;
        width = container.width;
        height = container.height;
      }

  -- `Math.min(MAX_K, Math.max(MIN_K, k))`
  unfoldable pub clamp_k : N → N
  unfolding min_of max_of
  clamp_k k = min_of max_k (max_of min_k k)

  -- zoom around a point of the view box
  unfoldable pub zoom_at : N → N → N → View N → View N
  unfolding clamp_k
  zoom_at px py factor v =
      let k = clamp_k (num.mul v.k factor) in
      let ratio = num.div k v.k in
      record {
        k = k;
        tx = num.sub px (num.mul ratio (num.sub px v.tx));
        ty = num.sub py (num.mul ratio (num.sub py v.ty));
      }

  abbrev pub zoom_by : N → View N → View N
  zoom_by factor =
      zoom_at (num.div (num.of_nat box_w) (num.of_nat 2))
        (num.div (num.of_nat box_h) (num.of_nat 2)) factor

  -- the wheel at a client position; the factor is `Math.exp(-deltaY * 0.0018)`
  unfoldable pub wheel : (N → N) → Rect N → N → N → N → View N → View N
  unfolding svg_metrics zoom_at
  wheel exp rect client_x client_y delta_y v =
      let m = svg_metrics rect in
      zoom_at (num.div (num.sub (num.sub client_x rect.left) m.ox) m.scale)
        (num.div (num.sub (num.sub client_y rect.top) m.oy) m.scale)
        (exp (num.mul (num.sub (num.of_nat 0) delta_y) (num.lit 18 4))) v

  unfoldable pub pointer_down : ℕ → Rect N → N → N → Pane N → Pane N
  unfolding svg_metrics
  pointer_down button rect x y p = elim button [
    | zero ↦ record p {
      press = some (record {
        sx = x;
        sy = y;
        tx = p.view.tx;
        ty = p.view.ty;
        scale = (svg_metrics rect).scale;
        moved = false;
      });
      panning = true;
    }
    | suc n ↦ p
  ]

  -- the press after a move: it has moved once it was more than 4 pixels away
  unfoldable pub moved_press : (N → N → N) → N → N → Press N → Press N
  moved_press hypot x y s = record s {
    moved = s.moved || lt (num.of_nat 4) (hypot (num.sub x s.sx) (num.sub y s.sy));
  }

  abbrev pub panned : N → N → Press N → View N → View N
  panned x y s v = record v {
    tx = num.add s.tx (num.div (num.sub x s.sx) s.scale);
    ty = num.add s.ty (num.div (num.sub y s.sy) s.scale);
  }

  abbrev pub move_press : N → N → Press N → Pane N → Pane N
  move_press x y s p = record p {
    press = some s;
    view = if s.moved then panned x y s p.view else p.view;
  }

  unfoldable pub pointer_move : (N → N → N) → N → N → Pane N → Pane N
  unfolding moved_press
  pointer_move hypot x y p = elim p.press [
    | none ↦ p
    | some s ↦ move_press x y (moved_press hypot x y s) p
  ]

  unfoldable pub pointer_up : Pane N → Pane N
  pointer_up p =
      let released : Pane N = record p { press = none; panning = false } in
      elim p.press [
        | none ↦ released
        | some s ↦ if s.moved then released else record released { clicks = suc p.clicks }
      ]

  -- the selected node in the container's coordinates
  unfoldable pub anchor : Measured N → View N → CanvasGraph N → Option Text → Option (Point N)
  unfolding lookup
  anchor m v g none = none
  anchor m v g (some []) = none
  anchor m v g (some (c ∷ id)) = elim (lookup (c ∷ id) g.by_id) [
    | none ↦ none
    | some n ↦ some (record {
      x = num.add (num.add m.dx m.ox) (num.mul (num.add (num.mul n.x v.k) v.tx) m.scale);
      y = num.add (num.add m.dy m.oy) (num.mul (num.add (num.mul n.y v.k) v.ty) m.scale);
    })
  ]
