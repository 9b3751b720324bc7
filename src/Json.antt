-- ===== src/Json.antt =====
-- The values that `JSON.parse` makes, and the structural comparison of
-- frontend/hooks/useStatusPolling.ts. An object is its fields in insertion order.
pub mod Keys
pub mod Probe
pub mod Sound
pub mod Laws
use fast_share.Common.{ℕ, zero, suc, ◌≡◌, ◌≢◌, Bool, true, false, not, ◌&&◌, List, [], ◌∷◌}
use fast_share.Common.Tests.{if◌then◌else◌, ◌==◌}
use fast_share.Common.Text.{Text, text_eq}
use fast_share.Common.Number.{Number, eq}

mutual
  pub data Json (N : Type 0) : Type 0 where
    undefined : Json N
    null : Json N
    flag : Bool → Json N
    number : N → Json N
    string : Text → Json N
    array : Items N → Json N
    object : Fields N → Json N

  pub data Items (N : Type 0) : Type 0 where
    nil : Items N
    cons : Json N → Items N → Items N

  pub data Fields (N : Type 0) : Type 0 where
    end : Fields N
    field : Text → Json N → Fields N → Fields N

module _ {N : Type 0} where
  unfoldable pub item_count : Items N → ℕ
  item_count nil = 0
  item_count (cons x xs) = suc (item_count xs)

  -- `xs[i]`
  unfoldable pub item_at : Items N → ℕ → Json N
  item_at nil i = undefined
  item_at (cons x xs) zero = x
  item_at (cons x xs) (suc i) = item_at xs i

  unfoldable pub field_count : Fields N → ℕ
  field_count end = 0
  field_count (field k v fs) = suc (field_count fs)

  -- `fs[k]`
  unfoldable pub field_at : Text → Fields N → Json N
  field_at k end = undefined
  field_at k (field j v fs) = if text_eq j k then v else field_at k fs

  unfoldable pub has_key : Text → Fields N → Bool
  has_key k end = false
  has_key k (field j v fs) = if text_eq j k then true else has_key k fs

module _ {N : Type 0} ⦃num : Number N⦄ where
  -- A value that is identical to itself is also equal to itself by the clauses, so the test
  -- `a === b` matters for primitive values only.
  unfoldable mutual
    unfolding item_count item_at field_count field_at text_eq

    pub deep_equal : Json N → Json N → Bool
    deep_equal undefined undefined = true
    deep_equal null null = true
    deep_equal (flag b) (flag c) = if b then c else not c
    deep_equal (number x) (number y) = eq x y
    deep_equal (string s) (string t) = text_eq s t
    deep_equal (array xs) (array ys) = item_count xs == item_count ys && every_item xs ys
    deep_equal (object fs) (object gs) = field_count fs == field_count gs && every_field fs gs
    deep_equal _ _ = false

    -- `a.every((v, i) => deepEqual(v, b[i]))`
    pub every_item : Items N → Items N → Bool
    every_item nil ys = true
    every_item (cons x xs) nil = deep_equal x undefined && every_item xs nil
    every_item (cons x xs) (cons y ys) = deep_equal x y && every_item xs ys

    -- `ka.every((k) => deepEqual(a[k], rb[k]))`
    pub every_field : Fields N → Fields N → Bool
    every_field end gs = true
    every_field (field k v fs) gs = deep_equal v (field_at k gs) && every_field fs gs
