-- ===== src/Viewport/Laws.antt =====
-- The zoom stays within its limits, and a press that does not move is a click.
use fast_share.Common.{
  ℕ, zero, suc, ◌≡◌, refl, ap, ◌∙◌, true, false, none, some, List, [], ◌∷◌, arith, inl, inr,
}
use fast_share.Common.Tests.{Bool-cases, Option-cases}
use fast_share.Common.Lists.{All}
use fast_share.Common.Number.{Number, NumberLaws, lt, min_of, max_of}
use fast_share.Viewport.{
  svg_metrics, View, Rect, Pane, min_k, max_k, first_pane, first_view, clamp_k, zoom_at, zoom_by,
  wheel, pointer_down, moved_press, pointer_move, pointer_up,
}

module _ {N : Type 0} ⦃num : Number N⦄ (exp : N → N) (hypot : N → N → N) where
  -- What a user does with the canvas; `reset` is the button and the double click.
  pub data Gesture : Type 0 where
    zoomed : N → Gesture
    wheeled : Rect N → (client_x client_y delta_y : N) → Gesture
    pressed : ℕ → Rect N → (x y : N) → Gesture
    moved : (x y : N) → Gesture
    released reset : Gesture

  unfoldable pub gesture : Gesture → Pane N → Pane N
  gesture (zoomed factor) p = record p { view = zoom_by factor p.view }
  gesture (wheeled r x y d) p = record p { view = wheel exp r x y d p.view }
  gesture (pressed b r x y) p = pointer_down b r x y p
  gesture (moved x y) p = pointer_move hypot x y p
  gesture released p = pointer_up p
  gesture reset p = record p { view = first_view }

  abbrev pub gestures : List Gesture → Pane N → Pane N
  gestures [] p = p
  gestures (g ∷ gs) p = gestures gs (gesture g p)

  -- The zoom factor is within its limits.
  abbrev pub IsZoomed : View N → Type 0
  IsZoomed v = (num.le min_k v.k ≡ true) × (num.le v.k max_k ≡ true)

  module _ (laws : NumberLaws num) (low : num.le min_k (num.of_nat 1) ≡ true) where
    min_k-le-max_k : num.le min_k max_k ≡ true
    min_k-le-max_k = laws.le_trans min_k (num.of_nat 1) max_k low (laws.le-of_nat 1 3)

    clamp_k-IsZoomed :
        (k : N) → (num.le min_k (clamp_k k) ≡ true) × (num.le (clamp_k k) max_k ≡ true)
    unfolding clamp_k min_of max_of
    clamp_k-IsZoomed k = ground (
      arith,
      min_k-le-max_k,
      laws.le_total min_k k,
      laws.le_total min_k min_k,
      laws.le_total max_k k,
      laws.le_total max_k max_k,
      laws.le_total max_k min_k,
    )

    move-IsZoomed :
        (x y : N) (p : Pane N) → IsZoomed p.view → IsZoomed (pointer_move hypot x y p).view
    unfolding pointer_move
    move-IsZoomed x y p h = elim (Option-cases p.press) [
      | inl e ↦ rw (e, pointer_move) h
      | inr (s, e) ↦ elim (Bool-cases (moved_press hypot x y s).moved) [
        | inl m ↦ rw (e, m, pointer_move) h
        | inr m ↦ rw (e, m, pointer_move) h
      ]
    ]

    up-IsZoomed : (p : Pane N) → IsZoomed p.view → IsZoomed (pointer_up p).view
    unfolding pointer_up
    up-IsZoomed p h = elim (Option-cases p.press) [
      | inl e ↦ rw (e, pointer_up) h
      | inr (s, e) ↦ elim (Bool-cases s.moved) [
        | inl m ↦ rw (e, m, pointer_up) h
        | inr m ↦ rw (e, m, pointer_up) h
      ]
    ]

    gesture-IsZoomed : (g : Gesture) (p : Pane N) → IsZoomed p.view → IsZoomed (gesture g p).view
    unfolding gesture zoom_at wheel pointer_down
    gesture-IsZoomed (zoomed factor) p h = clamp_k-IsZoomed _
    gesture-IsZoomed (wheeled r x y d) p h = clamp_k-IsZoomed _
    gesture-IsZoomed (pressed zero r x y) p h = h
    gesture-IsZoomed (pressed (suc b) r x y) p h = h
    gesture-IsZoomed (moved x y) p h = move-IsZoomed x y p h
    gesture-IsZoomed released p h = up-IsZoomed p h
    gesture-IsZoomed reset p h = (low, laws.le-of_nat 1 3)

    gestures_keep :
        (gs : List Gesture) (p : Pane N) → IsZoomed p.view → IsZoomed (gestures gs p).view
    gestures_keep [] p h = h
    gestures_keep (g ∷ gs) p h = gestures_keep gs (gesture g p) (gesture-IsZoomed g p h)

    -- Whatever the gestures and their order, the zoom stays between its limits, if the numbers
    -- meet their laws and the lower one is at most 1.
    gestures-IsZoomed : (gs : List Gesture) → IsZoomed (gestures gs first_pane).view
    gestures-IsZoomed gs = gestures_keep gs first_pane (low, laws.le-of_nat 1 3)

  -- The pointer has gone at most 4 pixels from where it was pressed.
  abbrev pub IsStill : N → N → N × N → Type 0
  IsStill x y q = lt (num.of_nat 4) (hypot (num.sub q.0 x) (num.sub q.1 y)) ≡ false

  abbrev pub moves : List (N × N) → Pane N → Pane N
  moves [] p = p
  moves ((x, y) ∷ qs) p = moves qs (pointer_move hypot x y p)

  -- The pane while a press that has not moved is held.
  abbrev held : N → N → N → Pane N → Pane N
  held x y scale p = record p {
    press =
        some
          (record { sx = x; sy = y; tx = p.view.tx; ty = p.view.ty; scale = scale; moved = false });
    panning = true;
  }

  still_move :
      (x y scale : N) (q : N × N) (p : Pane N)
      → IsStill x y q
      → pointer_move hypot q.0 q.1 (held x y scale p) ≡ held x y scale p
  unfolding pointer_move moved_press
  still_move x y scale q p still = rw still

  still_moves :
      (x y scale : N) (qs : List (N × N)) (p : Pane N)
      → All (IsStill x y) qs
      → moves qs (held x y scale p) ≡ held x y scale p
  still_moves x y scale [] p h = refl
  still_moves x y scale ((a, b) ∷ qs) p h =
      ap (moves qs) (still_move x y scale (a, b) p h.0) ∙ still_moves x y scale qs p h.1

  -- A press of the main button that is released without having moved more than 4 pixels is a
  -- click on the empty canvas and leaves the view as it was.
  still_press :
      (rect : Rect N) (x y : N) (qs : List (N × N)) (p : Pane N)
      → All (IsStill x y) qs
      → pointer_up (moves qs (pointer_down 0 rect x y p))
        ≡ record p { press = none; panning = false; clicks = suc p.clicks }
  unfolding pointer_down pointer_up
  still_press rect x y qs p h = ap pointer_up (still_moves x y (svg_metrics rect).scale qs p h)
