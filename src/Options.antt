-- ===== src/Options.antt =====
-- The choices of a select that offers fixed values and the current one: `withCurrent` of
-- frontend/components/tabs/ConfigTab.tsx and `probOptions` of frontend/components/NodeInspector.tsx.
pub mod Laws
use fast_share.Common.{ℕ, Bool, true, false, List, [], ◌∷◌, ◌++◌}
use fast_share.Common.Tests.{if◌then◌else◌}
use fast_share.Common.Lists.{any}
use fast_share.Common.Number.{Number, eq}

module _ {N : Type 0} ⦃num : Number N⦄ where
  -- `sort((a, b) => a - b)`: stable, so an element goes before those that are not below it
  insert_by : N → List N → List N
  insert_by a [] = a ∷ []
  insert_by a (x ∷ xs) = if num.le a x then a ∷ (x ∷ xs) else x ∷ insert_by a xs

  sort : List N → List N
  unfolding insert_by
  sort [] = []
  sort (x ∷ xs) = insert_by x (sort xs)

  -- `options.includes(value)`
  abbrev pub includes : List N → N → Bool
  includes options value = any (λ o. eq o value) options

  unfoldable pub with_current : List N → N → List N
  unfolding sort any
  with_current options value =
      if includes options value then options else sort (options ++ value ∷ [])

  abbrev pub prob_choices : List N
  prob_choices = num.lit 5 2 ∷ (num.lit 1 1 ∷ (num.lit 25 2 ∷ (num.lit 5 1 ∷ (num.lit 9 1 ∷ []))))

  unfoldable pub prob_options : N → List N
  unfolding with_current
  prob_options value = with_current prob_choices value

  abbrev pub flag_choices : List N
  flag_choices =
      num.lit 5 2
      ∷ (num.lit 1 1
          ∷ (num.lit 15 2
              ∷ (num.lit 2 1
                  ∷ (num.lit 25 2 ∷ (num.lit 3 1 ∷ (num.lit 4 1 ∷ (num.lit 5 1 ∷ [])))))))

  abbrev pub probe_choices : List N
  probe_choices =
      num.lit 5 2
      ∷ (num.lit 1 1 ∷ (num.lit 15 2 ∷ (num.lit 2 1 ∷ (num.lit 25 2 ∷ (num.lit 3 1 ∷ [])))))
