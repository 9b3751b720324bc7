-- ===== src/PanelLayout/Tests.antt =====
-- A layout that is stored and read back.
use fast_share.Common.{ℕ, ◌≡◌, refl, Bool, true, false, none, some, [], ◌∷◌}
use fast_share.Common.Tests.{if◌then◌else◌}
use fast_share.Common.Text.{units, text_eq, decimal, digits_value, digits_value-decimal}
use fast_share.Common.Number.Hundredths.{hundredths, hundredths_laws}
use fast_share.PanelLayout.Resize.{Side, Handle, Pointer, width_of, points}
use fast_share.PanelLayout.Resize.Laws.{moves, points_last}
use fast_share.Json.{Json, Fields}
use fast_share.PanelLayout.{clamp, Codec, Change, defaults, digit, visible_text, hydrate, persist}
use fast_share.PanelLayout.Laws.{IsClamped, CodecLaws, changes, changes-IsClamped, hydrate-persist}

abbrev sides : Bool → Bool → Json ℕ
sides l r = Json.object (
    Fields.field (units "l") (Json.string (digit l))
      (Fields.field (units "r") (Json.string (digit r)) Fields.end))

abbrev decimals : Codec ℕ
decimals = record {
  number_of = λ t. some (digits_value t);
  text_of = decimal;
  json_of = λ t.
      if text_eq t (visible_text true true)
      then some (sides true true)
      else if text_eq t (visible_text true false)
      then some (sides true false)
      else if text_eq t (visible_text false true)
      then some (sides false true)
      else if text_eq t (visible_text false false)
      then some (sides false false)
      else none;
}

sides_read : (l r : Bool) → decimals.json_of (visible_text l r) ≡ some (sides l r)
unfolding text_eq visible_text
sides_read true true = refl
sides_read true false = refl
sides_read false true = refl
sides_read false false = refl

decimals_laws : CodecLaws decimals
decimals_laws = record {
  number_of-text_of = λ n. cc (digits_value-decimal n);
  json_of-visible_text = sides_read;
}

changes-IsClamped_example :
    IsClamped (changes decimals (Change.left_set 90000 ∷ Change.right_toggled ∷ []) defaults)
changes-IsClamped_example =
    changes-IsClamped hundredths_laws decimals (Change.left_set 90000 ∷ Change.right_toggled ∷ [])

hydrate-persist_example : hydrate decimals (persist decimals defaults) defaults ≡ defaults
hydrate-persist_example =
    hydrate-persist hundredths_laws decimals decimals_laws defaults defaults
      (changes-IsClamped hundredths_laws decimals [])

abbrev handle : Handle ℕ
handle = record { drag = none; layout = defaults }

-- 30 pixels to the left, after a detour, widen the right sidebar by 30.
abbrev dragged : Handle ℕ
dragged = points Side.right (Pointer.pressed 90000 ∷ moves (10000 ∷ []) 87000) handle

points_last_example :
    (width_of Side.right dragged.layout ≡ 47000) × (width_of Side.left dragged.layout ≡ 32000)
unfolding points clamp defaults
points_last_example = points_last hundredths_laws Side.right handle 90000 (10000 ∷ []) 87000
