-- ===== src/Formats.antt =====
-- frontend/lib/format.ts: sizes in bytes and durations in seconds as texts.
pub mod Laws
use fast_share.Common.{
  ℕ, Option, none, some, ◌+◌, ◌^◌, Bool, true, false, ◌||◌, List, [], ◌∷◌, ◌++◌,
}
use fast_share.Common.Tests.{if◌then◌else◌, ltb, ◌==◌}
use fast_share.Common.Lists.{length, get_elem?}
use fast_share.Common.Text.{Text, units, decimal}
use fast_share.Common.Number.{Number, lt}

-- `Math.floor` of a number that is not negative, `%`, `Math.log`, and `toFixed`.
pub record Rounding (N : Type 0) : Type 0 where
  pub floor : N → ℕ
  pub rem : N → N → N
  pub log : N → N
  pub to_fixed : ℕ → N → Text

-- `s.padStart(2, "0")`
unfoldable pub pad_two : Text → Text
pad_two [] = units "00"
pad_two (c ∷ []) = 48 ∷ c ∷ []
pad_two (c ∷ (d ∷ s)) = c ∷ (d ∷ s)

abbrev pub min_ℕ : ℕ → ℕ → ℕ
min_ℕ a b = if ltb a b then a else b

-- `units[i]`
abbrev pub unit_name : ℕ → Text
unit_name i = elim (get_elem? (units "B" ∷ units "KB" ∷ units "MB" ∷ units "GB" ∷ []) i) [
  | none ↦ units "undefined"
  | some u ↦ u
]

module _ {N : Type 0} ⦃num : Number N⦄ where
  -- `if (s < 0) s = 0`
  unfoldable pub from_zero : N → N
  from_zero s = if lt s (num.of_nat 0) then num.of_nat 0 else s

module _ {N : Type 0} ⦃num : Number N⦄ (r : Rounding N) where
  -- the counts of bytes are whole
  unfoldable pub unit_index : ℕ → ℕ
  unit_index n = min_ℕ 3 (r.floor (num.div (r.log (num.of_nat n)) (r.log (num.of_nat 1024))))

  unfoldable pub format_bytes : ℕ → Text
  unfolding unit_index
  format_bytes n =
      if n == 0
      then units "0 B"
      else let i = unit_index n in
        let v = num.div (num.of_nat n) (num.of_nat (1024 ^ i)) in
        r.to_fixed (if num.le (num.of_nat 100) v || i == 0 then 0 else 1) v
        ++ (units " " ++ unit_name i)

  unfoldable pub format_seconds : N → Text
  unfolding pad_two decimal from_zero
  format_seconds s =
      pad_two (decimal (r.floor (num.div (from_zero s) (num.of_nat 60))))
      ++ (58 ∷ pad_two (decimal (r.floor (r.rem (from_zero s) (num.of_nat 60)))))
