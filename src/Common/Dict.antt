-- ===== src/Common/Dict.antt =====
-- `Map` and plain objects with text keys: association lists in insertion order.
use fast_share.Common.{◌≡◌, refl, Option, none, some, List, [], ◌∷◌, arith}
use fast_share.Common.Tests.{if◌then◌else◌}
use fast_share.Common.Text.{Text, text_eq, text_eq_iff}

module _ {ℓ} {V : Type ℓ} where
  unfoldable pub lookup : Text → List (Text × V) → Option V
  lookup k [] = none
  lookup k ((j, v) ∷ m) = if text_eq j k then some v else lookup k m

  -- `obj[k] = v`: a later entry of a key replaces the value
  unfoldable pub insert : Text → V → List (Text × V) → List (Text × V)
  insert k v [] = (k, v) ∷ []
  insert k v ((j, w) ∷ m) = if text_eq j k then (j, v) ∷ m else (j, w) ∷ insert k v m

  -- `if (!m.has(k)) m.set(k, v)`
  unfoldable pub insert_new : Text → V → List (Text × V) → List (Text × V)
  insert_new k v [] = (k, v) ∷ []
  insert_new k v ((j, w) ∷ m) = if text_eq j k then (j, w) ∷ m else (j, w) ∷ insert_new k v m

  pub lookup-insert :
      (k j : Text) (v : V) (m : List (Text × V))
      → lookup j (insert k v m) ≡ (if text_eq k j then some v else lookup j m)
  unfolding lookup insert
  lookup-insert k j v [] = refl
  lookup-insert k j v ((i, w) ∷ m) =
      ground (arith, text_eq_iff k j, text_eq_iff i k, text_eq_iff i j, lookup-insert k j v m)

  -- `m.get(k) ?? v` after the call, at the key itself
  abbrev pub first_of_two : Option V → Option V → Option V
  first_of_two none o = o
  first_of_two (some v) o = some v

  pub lookup-insert_new :
      (k j : Text) (v : V) (m : List (Text × V))
      → lookup j (insert_new k v m)
        ≡ first_of_two (lookup j m) (if text_eq k j then some v else none)
  unfolding lookup insert_new
  lookup-insert_new k j v [] = refl
  lookup-insert_new k j v ((i, w) ∷ m) =
      ground (arith, text_eq_iff k j, text_eq_iff i k, text_eq_iff i j, lookup-insert_new k j v m)
