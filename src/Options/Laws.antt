-- ===== src/Options/Laws.antt =====
-- The choices ascend, and are the fixed ones and the current value.
use fast_share.Common.{◌≡◌, refl, ◌∙◌, true, ◌||◌, List, [], ◌∷◌, ◌++◌, arith, inl, inr}
use fast_share.Common.Tests.{Bool-cases}
use fast_share.Common.Lists.{any}
use fast_share.Common.Number.{Number, NumberLaws, eq}
use fast_share.Options.{insert_by, sort, includes, with_current}

module _ {N : Type 0} ⦃num : Number N⦄ where
  -- Every number is at least `a`.
  abbrev IsAbove : N → List N → Type 0
  IsAbove a [] = Unit
  IsAbove a (x ∷ xs) = (num.le a x ≡ true) × IsAbove a xs

  abbrev pub IsAscending : List N → Type 0
  IsAscending [] = Unit
  IsAscending (x ∷ xs) = IsAbove x xs × IsAscending xs

  module _ (laws : NumberLaws num) where
    IsAbove-below : (a b : N) (xs : List N) → num.le a b ≡ true → IsAbove b xs → IsAbove a xs
    IsAbove-below a b [] h k = tt
    IsAbove-below a b (x ∷ xs) h k = (laws.le_trans a b x h k.0, IsAbove-below a b xs h k.1)

    insert_by-IsAbove :
        (a b : N) (xs : List N) → num.le a b ≡ true → IsAbove a xs → IsAbove a (insert_by b xs)
    unfolding insert_by
    insert_by-IsAbove a b [] h k = (h, tt)
    insert_by-IsAbove a b (x ∷ xs) h k = elim (Bool-cases (num.le b x)) [
      | inl e ↦ rw e (h, k)
      | inr e ↦ rw e (k.0, insert_by-IsAbove a b xs h k.1)
    ]

    insert_by-IsAscending : (a : N) (xs : List N) → IsAscending xs → IsAscending (insert_by a xs)
    unfolding insert_by
    insert_by-IsAscending a [] h = (tt, tt)
    insert_by-IsAscending a (x ∷ xs) h = elim (Bool-cases (num.le a x)) [
      | inl e ↦ rw e ((e, IsAbove-below a x xs e h.0), h)
      | inr e ↦ rw e (
        insert_by-IsAbove x a xs (ground (arith, laws.le_total a x)) h.0,
        insert_by-IsAscending a xs h.1,
      )
    ]

    sort-IsAscending : (xs : List N) → IsAscending (sort xs)
    unfolding sort
    sort-IsAscending [] = tt
    sort-IsAscending (x ∷ xs) = insert_by-IsAscending x (sort xs) (sort-IsAscending xs)

    includes-insert_by :
        (a v : N) (xs : List N) → includes (insert_by a xs) v ≡ eq a v || includes xs v
    unfolding insert_by any
    includes-insert_by a v [] = refl
    includes-insert_by a v (x ∷ xs) = ground (arith, includes-insert_by a v xs)

    includes-sort : (v : N) (xs : List N) → includes (sort xs) v ≡ includes xs v
    unfolding sort any
    includes-sort v [] = refl
    includes-sort v (x ∷ xs) = ground (arith, includes-insert_by x v (sort xs), includes-sort v xs)

    includes-snoc : (a v : N) (xs : List N) → includes (xs ++ a ∷ []) v ≡ eq a v || includes xs v
    unfolding any
    includes-snoc a v [] = refl
    includes-snoc a v (x ∷ xs) = ground (arith, includes-snoc a v xs)

    -- Equal numbers are the same number.
    includes-same :
        (a v : N) (xs : List N) → includes xs a ≡ true → eq a v ≡ true → includes xs v ≡ true
    includes-same a v xs h e = rw (laws.le_antisym a v (ground arith) (ground arith)) at h

    -- The choices of a select ascend if the fixed ones do, and are exactly the fixed ones and
    -- the current value, if the numbers meet their laws.
    with_current-choices :
        (options : List N) (value : N)
        → IsAscending options
        → IsAscending (with_current options value)
          × ((v : N) → includes (with_current options value) v ≡ eq value v || includes options v)
    unfolding with_current
    with_current-choices options value h = elim (Bool-cases (includes options value)) [
      | inl e ↦ rw e (h, λ v. ground (arith, includes-same value v options))
      | inr e ↦ rw e (
        sort-IsAscending (options ++ value ∷ []),
        λ v. includes-sort v (options ++ value ∷ []) ∙ includes-snoc value v options,
      )
    ]
