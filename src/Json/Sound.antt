-- ===== src/Json/Sound.antt =====
-- Values that the structural comparison takes for equal answer every chain of reads alike.
use fast_share.Common.{
  ℕ, zero, suc, ◌≡◌, ◌↔◌, refl, sym, ap, true, false, List, [], ◌∷◌, arith, inl, inr, and_true,
}
use fast_share.Common.Tests.{Bool-cases, ==_iff}
use fast_share.Common.Text.{Text, text_eq, text_eq_iff}
use fast_share.Common.Number.{Number, eq}
use fast_share.Json.{
  Json, Items, Fields, item_count, item_at, field_count, field_at, has_key, deep_equal, every_item,
  every_field,
}
use fast_share.Json.Keys.{HasKeysOf, has_key-missing, field_at-missing}
use fast_share.Json.Probe.{Read, Shape, probe, IsJson, AreItemsJson, AreFieldsJson}

module _ {N : Type 0} ⦃num : Number N⦄ where
  pub deep_equal-undefined : (v : Json N) → IsJson v → deep_equal v Json.undefined ≡ false
  unfolding deep_equal IsJson
  deep_equal-undefined Json.undefined h = cc
  deep_equal-undefined Json.null h = refl
  deep_equal-undefined (Json.flag b) h = refl
  deep_equal-undefined (Json.number x) h = refl
  deep_equal-undefined (Json.string s) h = refl
  deep_equal-undefined (Json.array xs) h = refl
  deep_equal-undefined (Json.object fs) h = refl

  every_field-HasKeysOf :
      (fs gs : Fields N) → AreFieldsJson fs → every_field fs gs ≡ true → HasKeysOf fs gs
  unfolding deep_equal IsJson
  every_field-HasKeysOf Fields.end gs h e = tt
  every_field-HasKeysOf (Fields.field k v fs) gs h e = (
    elim (Bool-cases (has_key k gs)) [
      | inl e1 ↦ e1
      | inr e1 ↦ cc (
        (and_true (deep_equal v (field_at k gs)) (every_field fs gs) e).0,
        field_at-missing k gs e1,
        deep_equal-undefined v h.0,
      )
    ],
    every_field-HasKeysOf fs gs h.1 (and_true _ _ e).1,
  )

  module _ (eq_iff : (x y : N) → (eq x y ≡ true) ↔ (x ≡ y)) where
    mutual
      unfolding deep_equal IsJson probe item_at item_count field_at has_key

      pub deep_equal_sound :
          (a b : Json N)
          → IsJson a
          → deep_equal a b ≡ true
          → (p : List Read) → probe p a ≡ probe p b
      deep_equal_sound Json.undefined Json.undefined h e p = refl
      deep_equal_sound Json.null Json.null h e p = refl
      deep_equal_sound (Json.flag b) (Json.flag c) h e p =
          ap (λ d. probe p (Json.flag d)) (ground arith)
      deep_equal_sound (Json.number x) (Json.number y) h e p =
          ap (λ z. probe p (Json.number z)) ((eq_iff x y).0 e)
      deep_equal_sound (Json.string s) (Json.string t) h e p =
          ap (λ z. probe p (Json.string z)) ((text_eq_iff s t).0 e)
      deep_equal_sound (Json.array xs) (Json.array ys) h e [] =
          ap Shape.array ((==_iff _ _).0 (and_true _ _ e).0)
      deep_equal_sound (Json.array xs) (Json.array ys) h e (Read.index i ∷ p) =
          every_item_sound xs ys h ((==_iff _ _).0 (and_true _ _ e).0) (and_true _ _ e).1 i p
      deep_equal_sound (Json.array xs) (Json.array ys) h e (Read.key k ∷ p) = refl
      deep_equal_sound (Json.object fs) (Json.object gs) h e [] = refl
      deep_equal_sound (Json.object fs) (Json.object gs) h e (Read.index i ∷ p) = refl
      deep_equal_sound (Json.object fs) (Json.object gs) h e (Read.key k ∷ p) =
          elim (Bool-cases (has_key k fs)) [
            | inl e1 ↦ every_field_sound fs gs h.1 (and_true _ _ e).1 k p e1
            | inr e1 ↦
                let keys : HasKeysOf fs gs = every_field-HasKeysOf fs gs h.1 (and_true _ _ e).1 in
                let size : field_count fs ≡ field_count gs = (==_iff _ _).0 (and_true _ _ e).0 in
                rw (
                  field_at-missing k fs e1,
                  field_at-missing k gs (has_key-missing fs gs k h.0 keys size e1),
                )
          ]
      deep_equal_sound _ _ h e p = cc

      every_item_sound :
          (xs ys : Items N)
          → AreItemsJson xs
          → item_count xs ≡ item_count ys
          → every_item xs ys ≡ true
          → (i : ℕ) (p : List Read) → probe p (item_at xs i) ≡ probe p (item_at ys i)
      every_item_sound Items.nil Items.nil h n e i p = refl
      every_item_sound Items.nil (Items.cons y ys) h n e i p = absurd (omega arith)
      every_item_sound (Items.cons x xs) Items.nil h n e i p = absurd (omega arith)
      every_item_sound (Items.cons x xs) (Items.cons y ys) h n e zero p =
          deep_equal_sound x y h.0 (and_true _ _ e).0 p
      every_item_sound (Items.cons x xs) (Items.cons y ys) h n e (suc i) p =
          every_item_sound xs ys h.1 (omega arith) (and_true _ _ e).1 i p

      every_field_sound :
          (fs gs : Fields N)
          → AreFieldsJson fs
          → every_field fs gs ≡ true
          → (k : Text) (p : List Read) → has_key k fs ≡ true
          → probe p (field_at k fs) ≡ probe p (field_at k gs)
      every_field_sound Fields.end gs h e k p m = cc
      every_field_sound (Fields.field j v fs) gs h e k p m = elim (Bool-cases (text_eq j k)) [
        | inl e1 ↦
            rw (e1, sym ((text_eq_iff j k).0 e1))
              (deep_equal_sound v (field_at j gs) h.0 (and_true _ _ e).0 p)
        | inr e1 ↦ rw e1 (every_field_sound fs gs h.1 (and_true _ _ e).1 k p (rw e1 at m))
      ]
