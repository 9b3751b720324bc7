-- ===== src/Inspector/Placement.antt =====
-- frontend/components/NodeInspector.tsx: where the floating card lies over the canvas.
use fast_share.Common.{◌⊎◌, ◌≡◌, true, Option, none, some, arith, ℕ, false}
use mathlib.Core.Path.{subst}
use mathlib.Core.Option.{some-injective}
use fast_share.Common.{inl, inr}
use fast_share.Common.Tests.{Bool-cases, if◌then◌else◌}
use fast_share.Common.Number.{Number, NumberLaws, lt, eq, min_of, max_of}

pub record Anchor (N : Type 0) : Type 0 where
  pub x : N
  pub y : N

pub record Bounds (N : Type 0) : Type 0 where
  pub width : N
  pub height : N

pub record Place (N : Type 0) : Type 0 where
  pub left : N
  pub top : N

abbrev pub card_w : ℕ
card_w = 272

abbrev pub card_h : ℕ
card_h = 430

module _ {N : Type 0} ⦃num : Number N⦄ where
  -- `size - card - 8`, the last place at which the card fits
  abbrev pub last_place : N → ℕ → N
  last_place size card = num.sub (num.sub size (num.of_nat card)) (num.of_nat 8)

  -- `Math.max(8, Math.min(at, size - card - 8))`
  unfoldable pub held : N → N → ℕ → N
  unfolding min_of max_of
  held at size card = max_of (num.of_nat 8) (min_of at (last_place size card))

  -- right of the node, or left of it where the card does not fit
  abbrev pub beside : N → N → N
  beside x width =
      let right = num.add (num.add x (num.of_nat 48)) (num.of_nat 14) in
      if lt (num.sub width (num.of_nat 8)) (num.add right (num.of_nat card_w))
      then num.sub (num.sub (num.sub x (num.of_nat 48)) (num.of_nat 14)) (num.of_nat card_w)
      else right

  unfoldable pub place : Option (Anchor N) → Option (Bounds N) → Option (Place N)
  unfolding held
  place none bounds = none
  place (some a) none = none
  place (some a) (some b) =
      if eq b.width (num.of_nat 0)
      then none
      else some (record {
        left = held (beside a.x b.width) b.width card_w;
        top = held (num.sub a.y (num.of_nat 160)) b.height card_h;
      })

  -- Not before 8, and not behind the last place, unless that is before 8 itself.
  abbrev pub IsInside : N → N → ℕ → Type 0
  IsInside at size card =
      (num.le (num.of_nat 8) at ≡ true)
      × ((num.le at (last_place size card) ≡ true)
          ⊎ (num.le (num.of_nat 8) (last_place size card) ≡ false))

  module _ (laws : NumberLaws num) where
    held-IsInside : (at size : N) (card : ℕ) → IsInside (held at size card) size card
    unfolding held min_of max_of
    held-IsInside at size card =
        let last = last_place size card in
        (
          ground (arith, laws.le_total (num.of_nat 8) (num.of_nat 8)),
          elim (Bool-cases (num.le (num.of_nat 8) last)) [
            | inl h ↦ inl (ground (arith, h, laws.le_total at last, laws.le_total last last))
            | inr h ↦ inr h
          ],
        )

    -- Where the floating card is placed, neither side lies before 8, nor behind the last place
    -- where the card and a margin of 8 still fit, unless that is before 8 itself, if the numbers
    -- meet their laws.
    pub place-IsInside :
        (a : Anchor N) (b : Bounds N) {p : Place N}
        → place (some a) (some b) ≡ some p
        → IsInside p.left b.width card_w × IsInside p.top b.height card_h
    unfolding place
    place-IsInside a b {p} h = elim (Bool-cases (eq b.width (num.of_nat 0))) [
      | inl e ↦ absurd (cc (rw e at h))
      | inr e ↦
          subst (λ q. IsInside q.left b.width card_w × IsInside q.top b.height card_h)
            (some-injective _ p (rw e at h))
            (
              held-IsInside (beside a.x b.width) b.width card_w,
              held-IsInside (num.sub a.y (num.of_nat 160)) b.height card_h,
            )
    ]
