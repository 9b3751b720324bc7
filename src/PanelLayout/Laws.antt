-- ===== src/PanelLayout/Laws.antt =====
-- The widths stay within their limits, and what is stored is read back.
use fast_share.Common.{
  ◌≡◌, refl, ap, ◌∙◌, Bool, true, false, Option, none, some, List, [], ◌∷◌, arith,
}
use fast_share.Common.Tests.{leb}
use fast_share.Common.Text.{Text, units, text_eq}
use fast_share.Common.Number.{Number, NumberLaws, min_of, max_of}
use fast_share.Json.{Json, Fields, field_at}
use fast_share.PanelLayout.{
  Layout, Codec, Limits, left_limits, right_limits, clamp, clamp_to, defaults, stored_width, shown,
  sides_of, show_sides, hydrate_visible, hydrate_left, hydrate_right, hydrate, digit, visible_text,
  persist, Change, change,
}

module _ {N : Type 0} ⦃num : Number N⦄ where
  abbrev pub IsWithin : Limits → N → Type 0
  IsWithin l w = (num.le (num.of_nat l.min) w ≡ true) × (num.le w (num.of_nat l.max) ≡ true)

  -- Both widths are within their limits.
  abbrev pub IsClamped : Layout N → Type 0
  IsClamped p = IsWithin left_limits p.left_w × IsWithin right_limits p.right_w

  abbrev pub changes : (codec : Codec N) → List (Change N) → Layout N → Layout N
  changes codec [] p = p
  changes codec (e ∷ es) p = changes codec es (change codec e p)

  module _ (laws : NumberLaws num) where
    pub clamp_to-IsWithin :
        (l : Limits) (v : N) → leb l.min l.max ≡ true → IsWithin l (clamp_to l v)
    unfolding clamp min_of max_of
    clamp_to-IsWithin l v h = ground (
      arith,
      laws.le-of_nat l.min l.max,
      laws.le_total (num.of_nat l.min) v,
      laws.le_total (num.of_nat l.min) (num.of_nat l.min),
      laws.le_total (num.of_nat l.max) v,
      laws.le_total (num.of_nat l.max) (num.of_nat l.max),
      laws.le_total (num.of_nat l.max) (num.of_nat l.min),
    )

    pub clamp_to-id : (l : Limits) (v : N) → IsWithin l v → clamp_to l v ≡ v
    unfolding clamp min_of max_of
    clamp_to-id l v h = ground (arith, h.0, h.1, laws.le_antisym (num.of_nat l.max) v)

    show_sides-IsClamped :
        (o : Option (Bool × Bool)) (p : Layout N) → IsClamped p → IsClamped (show_sides o p)
    show_sides-IsClamped none p h = h
    show_sides-IsClamped (some (l, r)) p h = h

    hydrate_visible-IsClamped :
        (codec : Codec N) (o : Option Text) (p : Layout N)
        → IsClamped p
        → IsClamped (hydrate_visible codec o p)
    unfolding hydrate_visible
    hydrate_visible-IsClamped codec none p h = h
    hydrate_visible-IsClamped codec (some []) p h = h
    hydrate_visible-IsClamped codec (some (c ∷ t)) p h =
        show_sides-IsClamped (sides_of codec (c ∷ t)) p h

    hydrate_left-IsClamped :
        (o : Option N) (p : Layout N) → IsClamped p → IsClamped (hydrate_left o p)
    hydrate_left-IsClamped none p h = h
    hydrate_left-IsClamped (some w) p h = (clamp_to-IsWithin left_limits w refl, h.1)

    hydrate_right-IsClamped :
        (o : Option N) (p : Layout N) → IsClamped p → IsClamped (hydrate_right o p)
    hydrate_right-IsClamped none p h = h
    hydrate_right-IsClamped (some w) p h = (h.0, clamp_to-IsWithin right_limits w refl)

    def-IsWithin :
        (l : Limits)
        → leb l.min l.def ≡ true
        → leb l.def l.max ≡ true
        → IsWithin l (num.of_nat l.def)
    def-IsWithin l h k = (laws.le-of_nat l.min l.def ∙ h, laws.le-of_nat l.def l.max ∙ k)

    change-IsClamped :
        (codec : Codec N) (e : Change N) (p : Layout N) → IsClamped p → IsClamped (change codec e p)
    unfolding change hydrate
    change-IsClamped codec (Change.left_set w) p h = (clamp_to-IsWithin left_limits w refl, h.1)
    change-IsClamped codec (Change.right_set w) p h = (h.0, clamp_to-IsWithin right_limits w refl)
    change-IsClamped codec Change.left_toggled p h = h
    change-IsClamped codec Change.right_toggled p h = h
    change-IsClamped codec Change.all_closed p h = h
    change-IsClamped codec Change.left_reset p h = (def-IsWithin left_limits refl refl, h.1)
    change-IsClamped codec Change.right_reset p h = (h.0, def-IsWithin right_limits refl refl)
    change-IsClamped codec (Change.left_shown v) p h = h
    change-IsClamped codec (Change.right_shown v) p h = h
    change-IsClamped codec (Change.hydrated s) p h = hydrate_visible-IsClamped codec s.visible _ (
        hydrate_right-IsClamped (stored_width codec s.right_w) _
          (hydrate_left-IsClamped (stored_width codec s.left_w) p h))

    changes_keep :
        (codec : Codec N) (es : List (Change N)) (p : Layout N)
        → IsClamped p
        → IsClamped (changes codec es p)
    changes_keep codec [] p h = h
    changes_keep codec (e ∷ es) p h =
        changes_keep codec es (change codec e p) (change-IsClamped codec e p h)

    -- From the defaults on, both widths stay within their limits, whatever is dragged, reset,
    -- toggled or read from the storage, if the numbers meet their laws.
    pub changes-IsClamped :
        (codec : Codec N) (es : List (Change N)) → IsClamped (changes codec es defaults)
    unfolding defaults
    changes-IsClamped codec es =
        changes_keep codec es defaults
          (def-IsWithin left_limits refl refl, def-IsWithin right_limits refl refl)

  -- What is asked of the number and JSON texts: a text of a number reads back as that number, and the
  -- four texts of the visibility as their objects.
  pub record CodecLaws (codec : Codec N) : Type 0 where
    pub number_of-text_of : (n : N) → codec.number_of (codec.text_of n) ≡ some n
    pub json_of-visible_text :
        (l r : Bool)
        → codec.json_of (visible_text l r)
          ≡ some (
              Json.object (
                Fields.field
                  (units "l")
                  (Json.string (digit l))
                  (Fields.field (units "r") (Json.string (digit r)) Fields.end)))

  module _ (laws : NumberLaws num) (codec : Codec N) (codec_laws : CodecLaws codec) where
    stored_width-text_of :
        (l : Limits) (w : N)
        → leb l.min 0 ≡ false
        → IsWithin l w
        → stored_width codec (some (codec.text_of w)) ≡ some w
    unfolding stored_width
    stored_width-text_of l w h k = ground (
      arith,
      codec_laws.number_of-text_of w,
      laws.le-of_nat l.min 0,
      laws.le_trans (num.of_nat l.min) w (num.of_nat 0),
      k.0,
    )

    sides_of-visible_text : (l r : Bool) → sides_of codec (visible_text l r) ≡ some (l, r)
    unfolding sides_of shown field_at text_eq
    sides_of-visible_text true true = simp (codec_laws.json_of-visible_text true true, sides_of)
    sides_of-visible_text true false = simp (codec_laws.json_of-visible_text true false, sides_of)
    sides_of-visible_text false true = simp (codec_laws.json_of-visible_text false true, sides_of)
    sides_of-visible_text false false = simp (codec_laws.json_of-visible_text false false, sides_of)

    hydrate_visible-visible_text :
        (l r : Bool) (p : Layout N)
        → hydrate_visible codec (some (visible_text l r)) p
          ≡ record p { left_visible = l; right_visible = r }
    unfolding hydrate_visible visible_text
    hydrate_visible-visible_text true true p =
        ap (λ o. show_sides o p) (sides_of-visible_text true true)
    hydrate_visible-visible_text true false p =
        ap (λ o. show_sides o p) (sides_of-visible_text true false)
    hydrate_visible-visible_text false true p =
        ap (λ o. show_sides o p) (sides_of-visible_text false true)
    hydrate_visible-visible_text false false p =
        ap (λ o. show_sides o p) (sides_of-visible_text false false)

    -- A layout within the limits that is stored is read back, over whatever layout is there
    -- before, if the numbers meet their laws and the texts of numbers and of the visibility read
    -- back as what they were written for.
    pub hydrate-persist : (p q : Layout N) → IsClamped p → hydrate codec (persist codec p) q ≡ p
    unfolding hydrate persist
    hydrate-persist p q h =
        let left = stored_width-text_of left_limits p.left_w refl h.0 in
        let right = stored_width-text_of right_limits p.right_w refl h.1 in
        hydrate_visible-visible_text p.left_visible p.right_visible _
        ∙ rw (left, right)
            (cc (
              clamp_to-id laws left_limits p.left_w h.0,
              clamp_to-id laws right_limits p.right_w h.1,
            ))
