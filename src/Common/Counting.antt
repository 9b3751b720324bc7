-- ===== src/Common/Counting.antt =====
-- Counting the elements of a list that pass a test, and lists of ascending keys.
use fast_share.Common.{
  ℕ, suc, ◌+◌, ◌≤◌, ◌≡◌, refl, Bool, true, List, [], ◌∷◌, ◌++◌, arith, inl, inr,
}
use fast_share.Common.Tests.{Bool-cases}
use fast_share.Common.Lists.{count_if, update_first, remove_first}

module _ {ℓ} {A : Type ℓ} (p : A → Bool) where
  pub count_if-append : (xs ys : List A) → count_if p (xs ++ ys) ≡ count_if p xs + count_if p ys
  unfolding count_if
  count_if-append [] ys = omega arith
  count_if-append (x ∷ xs) ys = omega (arith, count_if-append xs ys)

  pub count_if-update_first :
      (q : A → Bool) (f : A → A) (xs : List A)
      → ((x : A) → q x ≡ true → p (f x) ≡ p x)
      → count_if p (update_first q f xs) ≡ count_if p xs
  unfolding count_if update_first
  count_if-update_first q f [] h = refl
  count_if-update_first q f (x ∷ xs) h = ground (arith, h x, count_if-update_first q f xs h)

  pub count_if-remove_first :
      (q : A → Bool) (xs : List A) → count_if p (remove_first q xs) ≤ count_if p xs
  unfolding count_if remove_first
  count_if-remove_first q [] = omega arith
  count_if-remove_first q (x ∷ xs) = ground (arith, count_if-remove_first q xs)

  -- Removing the first element that passes the counted test itself.
  pub count_if-remove_first_self :
      (xs : List A) → count_if p xs ≤ 1 → count_if p (remove_first p xs) ≡ 0
  unfolding count_if remove_first
  count_if-remove_first_self [] h = refl
  count_if-remove_first_self (x ∷ xs) h = ground (arith, count_if-remove_first_self xs)

-- The keys ascend strictly from `lo` and stay below `hi`.
module _ {ℓ} {A : Type ℓ} (key : A → ℕ) where
  abbrev pub IsAscending : ℕ → List A → ℕ → Type 0
  IsAscending lo [] hi = lo ≤ hi
  IsAscending lo (x ∷ xs) hi = (lo ≤ key x) × IsAscending (suc (key x)) xs hi

  pub IsAscending-lower :
      (lo lo' : ℕ) (xs : List A) (hi : ℕ) → lo' ≤ lo → IsAscending lo xs hi → IsAscending lo' xs hi
  IsAscending-lower lo lo' [] hi h k = omega arith
  IsAscending-lower lo lo' (x ∷ xs) hi h k = (omega arith, k.1)

  pub IsAscending-raise :
      (lo : ℕ) (xs : List A) (hi hi' : ℕ) → hi ≤ hi' → IsAscending lo xs hi → IsAscending lo xs hi'
  IsAscending-raise lo [] hi hi' h k = omega arith
  IsAscending-raise lo (x ∷ xs) hi hi' h k = (k.0, IsAscending-raise (suc (key x)) xs hi hi' h k.1)

  pub IsAscending-snoc :
      (lo : ℕ) (xs : List A) (hi : ℕ) (x : A)
      → key x ≡ hi
      → IsAscending lo xs hi
      → IsAscending lo (xs ++ x ∷ []) (suc hi)
  IsAscending-snoc lo [] hi x e k = omega arith
  IsAscending-snoc lo (y ∷ xs) hi x e k = (k.0, IsAscending-snoc (suc (key y)) xs hi x e k.1)

  pub IsAscending-update_first :
      (q : A → Bool) (f : A → A) (lo : ℕ) (xs : List A) (hi : ℕ)
      → ((x : A) → key (f x) ≡ key x)
      → IsAscending lo xs hi
      → IsAscending lo (update_first q f xs) hi
  unfolding update_first
  IsAscending-update_first q f lo [] hi h k = k
  IsAscending-update_first q f lo (x ∷ xs) hi h k = elim (Bool-cases (q x)) [
    | inl e ↦ rw (e, h x) k
    | inr e ↦ rw e (k.0, IsAscending-update_first q f (suc (key x)) xs hi h k.1)
  ]

  pub IsAscending-remove_first :
      (q : A → Bool) (lo : ℕ) (xs : List A) (hi : ℕ)
      → IsAscending lo xs hi
      → IsAscending lo (remove_first q xs) hi
  unfolding remove_first
  IsAscending-remove_first q lo [] hi k = k
  IsAscending-remove_first q lo (x ∷ xs) hi k = elim (Bool-cases (q x)) [
    | inl e ↦ rw e (IsAscending-lower (suc (key x)) lo xs hi (omega arith) k.1)
    | inr e ↦ rw e (k.0, IsAscending-remove_first q (suc (key x)) xs hi k.1)
  ]
