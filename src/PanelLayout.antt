-- ===== src/PanelLayout.antt =====
-- frontend/hooks/usePanelLayout.ts: widths and visibility of the sidebars, and their storage.
pub mod Laws
pub mod Resize
pub mod Tests
use fast_share.Common.{ℕ, Bool, true, false, not, ◌&&◌, Option, none, some, List, [], ◌∷◌}
use fast_share.Common.Tests.{if◌then◌else◌, ◌>>=◌}
use fast_share.Common.Text.{Text, units, text_eq}
use fast_share.Common.Number.{Number, eq, min_of, max_of}
use fast_share.Json.{Json, Fields, field_at}

pub record Layout (N : Type 0) : Type 0 where
  pub left_w : N
  pub right_w : N
  pub left_visible : Bool
  pub right_visible : Bool

-- The keys of localStorage that the hook uses, `none` where nothing is stored.
pub record Storage : Type 0 where
  pub left_w : Option Text
  pub right_w : Option Text
  pub visible : Option Text

-- `Number(text)`, `none` for NaN; `String(n)`; `JSON.parse(text)`, `none` where it throws.
pub record Codec (N : Type 0) : Type 0 where
  pub number_of : Text → Option N
  pub text_of : N → Text
  pub json_of : Text → Option (Json N)

pub record Limits : Type 0 where
  pub min : ℕ
  pub max : ℕ
  pub def : ℕ

abbrev pub left_limits : Limits
left_limits = record { min = 260; max = 520; def = 320 }

abbrev pub right_limits : Limits
right_limits = record { min = 300; max = 640; def = 440 }

-- `JSON.stringify({ l: ..., r: ... })`
abbrev pub digit : Bool → Text
digit true = units "1"
digit false = units "0"

unfoldable pub visible_text : Bool → Bool → Text
visible_text true true = units "{\"l\":\"1\",\"r\":\"1\"}"
visible_text true false = units "{\"l\":\"1\",\"r\":\"0\"}"
visible_text false true = units "{\"l\":\"0\",\"r\":\"1\"}"
visible_text false false = units "{\"l\":\"0\",\"r\":\"0\"}"

pub data Change (N : Type 0) : Type 0 where
  left_set right_set : N → Change N
  left_toggled right_toggled all_closed left_reset right_reset : Change N
  left_shown right_shown : Bool → Change N
  hydrated : Storage → Change N

module _ {N : Type 0} ⦃num : Number N⦄ where
  unfoldable pub clamp : N → N → N → N
  unfolding min_of max_of
  clamp v lo hi = min_of hi (max_of lo v)

  abbrev pub clamp_to : Limits → N → N
  clamp_to l v = clamp v (num.of_nat l.min) (num.of_nat l.max)

  unfoldable pub defaults : Layout N
  defaults = record {
    left_w = num.of_nat left_limits.def;
    right_w = num.of_nat right_limits.def;
    left_visible = true;
    right_visible = true;
  }

  abbrev pub set_left_w : N → Layout N → Layout N
  set_left_w w p = record p { left_w = clamp_to left_limits w }

  abbrev pub set_right_w : N → Layout N → Layout N
  set_right_w w p = record p { right_w = clamp_to right_limits w }

  abbrev pub toggle_left : Layout N → Layout N
  toggle_left p = record p { left_visible = not p.left_visible }

  abbrev pub toggle_right : Layout N → Layout N
  toggle_right p = record p { right_visible = not p.right_visible }

  abbrev pub close_all : Layout N → Layout N
  close_all p = record p { left_visible = false; right_visible = false }

  abbrev pub reset_left : Layout N → Layout N
  reset_left p = record p { left_w = num.of_nat left_limits.def }

  abbrev pub reset_right : Layout N → Layout N
  reset_right p = record p { right_w = num.of_nat right_limits.def }

  -- `{ l = "1" } = parsed; l === "1"`: null and undefined throw
  unfoldable pub shown : Text → Json N → Option Bool
  unfolding field_at text_eq
  shown k Json.undefined = none
  shown k Json.null = none
  shown k (Json.object fs) = elim (field_at k fs) [
    | Json.undefined ↦ some true
    | Json.string s ↦ some (text_eq s (units "1"))
    | _ ↦ some false
  ]
  shown k _ = some true

  abbrev pub show_sides : Option (Bool × Bool) → Layout N → Layout N
  show_sides none p = p
  show_sides (some (l, r)) p = record p { left_visible = l; right_visible = r }

  abbrev pub hydrate_left : Option N → Layout N → Layout N
  hydrate_left none p = p
  hydrate_left (some w) p = set_left_w w p

  abbrev pub hydrate_right : Option N → Layout N → Layout N
  hydrate_right none p = p
  hydrate_right (some w) p = set_right_w w p

  module _ (codec : Codec N) where
    -- `Number(localStorage.getItem(key))`, kept where it is truthy: not NaN and not 0, which an
    -- absent key gives
    unfoldable pub stored_width : Option Text → Option N
    stored_width none = none
    stored_width (some t) = do n ← codec.number_of t; if eq n (num.of_nat 0) then none else some n

    unfoldable pub sides_of : Text → Option (Bool × Bool)
    unfolding shown
    sides_of t = do
      v ← codec.json_of t
      l ← shown (units "l") v
      r ← shown (units "r") v
      some (l, r)

    -- the part of the effect behind `if (vis)`; what throws leaves the layout as it is
    unfoldable pub hydrate_visible : Option Text → Layout N → Layout N
    unfolding sides_of
    hydrate_visible none p = p
    hydrate_visible (some []) p = p
    hydrate_visible (some (c ∷ t)) p = show_sides (sides_of (c ∷ t)) p

    unfoldable pub hydrate : Storage → Layout N → Layout N
    unfolding stored_width hydrate_visible
    hydrate s p =
        hydrate_visible s.visible
          (hydrate_right (stored_width s.right_w) (hydrate_left (stored_width s.left_w) p))

    -- the two effects that write
    unfoldable pub persist : Layout N → Storage
    unfolding visible_text
    persist p = record {
      left_w = some (codec.text_of p.left_w);
      right_w = some (codec.text_of p.right_w);
      visible = some (visible_text p.left_visible p.right_visible);
    }

    unfoldable pub change : Change N → Layout N → Layout N
    unfolding hydrate
    change (Change.left_set w) p = set_left_w w p
    change (Change.right_set w) p = set_right_w w p
    change Change.left_toggled p = toggle_left p
    change Change.right_toggled p = toggle_right p
    change Change.all_closed p = close_all p
    change Change.left_reset p = reset_left p
    change Change.right_reset p = reset_right p
    change (Change.left_shown v) p = record p { left_visible = v }
    change (Change.right_shown v) p = record p { right_visible = v }
    change (Change.hydrated s) p = hydrate s p
