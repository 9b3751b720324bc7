-- ===== src/Common/Lists.antt =====
-- Lists measured and indexed by native numbers, and the array operations of the language that the
-- source uses: `find`, `filter`, `slice(-n)`, `splice(i, 1)`, `some`, `every`.
use Prim.Native.Nat.{ℕ, zero, suc, ◌+◌, ◌-◌}
use mathlib.Core.Bool.{Bool, false, ◌||◌}
use mathlib.Core.List.{List, [], ◌∷◌, map}
use mathlib.Core.Option.{Option, none, some}
use mathlib.Core.Path.{◌≡◌, refl, ap, subst}
use mathlib.Core.Option.{some-injective}
use mathlib.Core.Logic.{inl, inr}
use mathlib.Core.List.{◌++◌}
use fast_share.Common.Tests.{if◌then◌else◌, Bool-cases}

module _ {ℓ} {A : Type ℓ} where
  abbrev pub length : List A → ℕ
  length [] = 0
  length (x ∷ xs) = suc (length xs)

  abbrev pub get_elem? : List A → ℕ → Option A
  get_elem? [] i = none
  get_elem? (x ∷ xs) zero = some x
  get_elem? (x ∷ xs) (suc i) = get_elem? xs i

  -- A write out of bounds changes nothing.
  abbrev pub set : List A → ℕ → A → List A
  set [] i v = []
  set (x ∷ xs) zero v = v ∷ xs
  set (x ∷ xs) (suc i) v = x ∷ set xs i v

  -- `splice(i, 1)`
  abbrev pub remove_at : List A → ℕ → List A
  remove_at [] i = []
  remove_at (x ∷ xs) zero = xs
  remove_at (x ∷ xs) (suc i) = x ∷ remove_at xs i

  abbrev pub drop : ℕ → List A → List A
  drop zero xs = xs
  drop (suc n) [] = []
  drop (suc n) (x ∷ xs) = drop n xs

  -- `slice(-n)` for a positive `n`
  abbrev pub take_last : ℕ → List A → List A
  take_last n xs = drop (length xs - n) xs

  abbrev pub head_or : List A → A → A
  head_or [] d = d
  head_or (x ∷ xs) d = x

  abbrev pub last_or : List A → A → A
  last_or [] d = d
  last_or (x ∷ xs) d = last_or xs x

  abbrev pub All {κ} : (A → Type κ) → List A → Type κ
  All P [] = Unit
  All P (x ∷ xs) = P x × All P xs

  pub All-map {κ μ} :
      {P : A → Type κ} {Q : A → Type μ} (xs : List A) → ((x : A) → P x → Q x) → All P xs → All Q xs
  All-map [] f h = tt
  All-map (x ∷ xs) f h = (f x h.0, All-map xs f h.1)

  -- `find`, and the update of the object that it returns
  unfoldable pub find : (A → Bool) → List A → Option A
  find p [] = none
  find p (x ∷ xs) = if p x then some x else find p xs

  unfoldable pub update_first : (A → Bool) → (A → A) → List A → List A
  update_first p f [] = []
  update_first p f (x ∷ xs) = if p x then f x ∷ xs else x ∷ update_first p f xs

  -- `splice(findIndex(p), 1)`, which the source guards by `idx >= 0`
  unfoldable pub remove_first : (A → Bool) → List A → List A
  remove_first p [] = []
  remove_first p (x ∷ xs) = if p x then xs else x ∷ remove_first p xs

  unfoldable pub count_if : (A → Bool) → List A → ℕ
  count_if p [] = 0
  count_if p (x ∷ xs) = (if p x then 1 else 0) + count_if p xs

  unfoldable pub select : (A → Bool) → List A → List A
  select p [] = []
  select p (x ∷ xs) = if p x then x ∷ select p xs else select p xs

  unfoldable pub any : (A → Bool) → List A → Bool
  any p [] = false
  any p (x ∷ xs) = p x || any p xs

  -- the prefix `rs`, read backwards, in front of `ys`
  abbrev pub rev_onto : List A → List A → List A
  rev_onto [] ys = ys
  rev_onto (x ∷ rs) ys = rev_onto rs (x ∷ ys)

pub get_elem?-map {ℓ κ} :
    {A : Type ℓ} {B : Type κ} (f : A → B) (xs : List A) (i : ℕ) {a : A}
    → get_elem? xs i ≡ some a
    → get_elem? (map f xs) i ≡ some (f a)
get_elem?-map f [] i h = cc
get_elem?-map f (x ∷ xs) zero h = cc
get_elem?-map f (x ∷ xs) (suc i) h = get_elem?-map f xs i h

pub get_elem?-map-none {ℓ κ} :
    {A : Type ℓ} {B : Type κ} (f : A → B) (xs : List A) (i : ℕ)
    → get_elem? xs i ≡ none
    → get_elem? (map f xs) i ≡ none
get_elem?-map-none f [] i h = refl
get_elem?-map-none f (x ∷ xs) zero h = cc
get_elem?-map-none f (x ∷ xs) (suc i) h = get_elem?-map-none f xs i h

pub length-map {ℓ κ} :
    {A : Type ℓ} {B : Type κ} (f : A → B) (xs : List A) → length (map f xs) ≡ length xs
length-map f [] = refl
length-map f (x ∷ xs) = ap suc (length-map f xs)

pub All-get {ℓ κ} :
    {A : Type ℓ} (P : A → Type κ) (xs : List A) (i : ℕ) {x : A}
    → All P xs
    → get_elem? xs i ≡ some x
    → P x
All-get P [] i h e = cc
All-get P (y ∷ xs) zero {x} h e = subst P (some-injective y x e) h.0
All-get P (y ∷ xs) (suc i) h e = All-get P xs i h.1 e

module _ {ℓ κ} {A : Type ℓ} (P : A → Type κ) where
  pub All-snoc : (xs : List A) (x : A) → All P xs → P x → All P (xs ++ x ∷ [])
  All-snoc [] x h p = (p, tt)
  All-snoc (y ∷ xs) x h p = (h.0, All-snoc xs x h.1 p)

  pub All-update_first :
      (q : A → Bool) (f : A → A) (xs : List A)
      → ((x : A) → P x → P (f x))
      → All P xs
      → All P (update_first q f xs)
  unfolding update_first
  All-update_first q f [] h k = tt
  All-update_first q f (x ∷ xs) h k = elim (Bool-cases (q x)) [
    | inl e ↦ rw e (h x k.0, k.1)
    | inr e ↦ rw e (k.0, All-update_first q f xs h k.1)
  ]

  pub All-remove_first : (q : A → Bool) (xs : List A) → All P xs → All P (remove_first q xs)
  unfolding remove_first
  All-remove_first q [] k = tt
  All-remove_first q (x ∷ xs) k = elim (Bool-cases (q x)) [
    | inl e ↦ rw e k.1
    | inr e ↦ rw e (k.0, All-remove_first q xs k.1)
  ]
