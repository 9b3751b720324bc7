-- ===== src/Formats/Laws.antt =====
-- Whole seconds can be read off the clock text, and a count of bytes is shown in its own unit.
use fast_share.Common.{ℕ, ◌+◌, ◌*◌, ◌/◌, ◌%◌, ◌<◌, ◌≡◌, refl, sym, ap, ◌∙◌, [], ◌∷◌, ◌++◌, arith}
use fast_share.Common.Lists.{All, All-map}
use fast_share.Common.Text.{
  Text, digits_value, digits_value-decimal, decimal, decimal-AreDigits, IsDigit, Lacks,
  split_at_unit,
}
use fast_share.Common.Number.{Number, NumberLaws}
use fast_share.Formats.{Rounding, pad_two, from_zero, format_seconds}

-- `Math.floor`, `/` and `%` on whole numbers.
pub record RoundingLaws {N : Type 0} ⦃num : Number N⦄ (r : Rounding N) : Type 0 where
  pub floor_div : (a : ℕ) → r.floor (num.div (num.of_nat a) (num.of_nat 60)) ≡ a / 60
  pub floor_rem : (a : ℕ) → r.floor (r.rem (num.of_nat a) (num.of_nat 60)) ≡ a % 60

digits_value-pad_two : (t : Text) → digits_value (pad_two t) ≡ digits_value t
unfolding digits_value pad_two
digits_value-pad_two [] = refl
digits_value-pad_two (c ∷ []) = refl
digits_value-pad_two (c ∷ (d ∷ s)) = refl

pad_two-Lacks : (t : Text) → All IsDigit t → Lacks 58 (pad_two t)
unfolding pad_two
pad_two-Lacks [] h = (omega arith, (omega arith, tt))
pad_two-Lacks (c ∷ []) h = (omega arith, (omega arith, tt))
pad_two-Lacks (c ∷ (d ∷ s)) h = All-map (c ∷ (d ∷ s)) (λ e k. omega arith) h

abbrev clock : ℕ → Text
clock n = pad_two (decimal n)

clock-Lacks : (n : ℕ) → Lacks 58 (clock n)
clock-Lacks n = pad_two-Lacks (decimal n) (decimal-AreDigits n)

clock_value : (n : ℕ) → digits_value (clock n) ≡ n
clock_value n = digits_value-pad_two (decimal n) ∙ digits_value-decimal n

module _ {N : Type 0} ⦃num : Number N⦄ (laws : NumberLaws num) (r : Rounding N)
    (round : RoundingLaws r) where
  from_zero-of_nat : (a : ℕ) → from_zero (num.of_nat a) ≡ num.of_nat a
  unfolding from_zero
  from_zero-of_nat a = ground (arith, laws.le-of_nat 0 a)

  format_seconds-of_nat :
      (a : ℕ) → format_seconds r (num.of_nat a) ≡ clock (a / 60) ++ (58 ∷ clock (a % 60))
  unfolding format_seconds
  format_seconds-of_nat a =
      ap
        (λ t.
          clock (r.floor (num.div t (num.of_nat 60)))
          ++ (58 ∷ clock (r.floor (r.rem t (num.of_nat 60)))))
        (from_zero-of_nat a)
      ∙ ap (λ m. clock m ++ (58 ∷ clock (r.floor (r.rem (num.of_nat a) (num.of_nat 60)))))
          (round.floor_div a)
      ∙ ap (λ s. clock (a / 60) ++ (58 ∷ clock s)) (round.floor_rem a)

  -- A whole number of seconds is read off its text: split at the first colon, it is sixty times
  -- the number before and the number behind, which is below sixty, if the operations meet their
  -- laws.
  pub format_seconds-reads :
      (a : ℕ) (minutes seconds : Text)
      → format_seconds r (num.of_nat a) ≡ minutes ++ (58 ∷ seconds)
      → Lacks 58 minutes
      → (digits_value minutes * 60 + digits_value seconds ≡ a) × (digits_value seconds < 60)
  format_seconds-reads a minutes seconds h lacks =
      let (e1, e2) =
        split_at_unit 58 (clock (a / 60)) (clock (a % 60)) minutes seconds (clock-Lacks (a / 60))
          lacks (sym (format_seconds-of_nat a) ∙ h) in
      (
        rw (sym e1, sym e2, clock_value (a / 60), clock_value (a % 60)) (omega arith),
        rw (sym e2, clock_value (a % 60)) (omega arith),
      )
