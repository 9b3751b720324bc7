-- ===== src/Json/Laws.antt =====
-- The structural comparison decides whether two values answer every chain of property and index
-- reads alike.
use fast_share.Common.{
  ℕ, suc, ◌≡◌, ◌≢◌, ◌↔◌, refl, sym, ap, ◌∙◌, Bool, true, false, not, List, [], ◌∷◌, arith, inl, inr,
}
use fast_share.Common.Tests.{if◌then◌else◌, Bool-cases, ==_iff}
use fast_share.Common.Text.{Text, text_eq, text_eq_iff, text_eq_refl}
use fast_share.Common.Number.{Number, eq}
use fast_share.Json.{
  Json, Items, Fields, item_count, item_at, field_count, field_at, has_key, deep_equal, every_item,
  every_field,
}
use fast_share.Json.Keys.{AreKeysDistinct, HasKeysOf, field_at-missing, field_count-le}
use fast_share.Json.Probe.{Read, Shape, shape, probe, IsJson, AreItemsJson, AreFieldsJson}
use fast_share.Json.Sound.{deep_equal_sound}

flag_equal : (b c : Bool) → b ≡ c → (if b then c else not c) ≡ true
flag_equal true c e = sym e
flag_equal false c e = ap not (sym e)

module _ {N : Type 0} ⦃num : Number N⦄ where
  shape-present : (v : Json N) → IsJson v → shape v ≢ Shape.absent
  unfolding IsJson
  shape-present Json.undefined h e = cc
  shape-present Json.null h e = cc
  shape-present (Json.flag b) h e = cc
  shape-present (Json.number x) h e = cc
  shape-present (Json.string s) h e = cc
  shape-present (Json.array xs) h e = cc
  shape-present (Json.object fs) h e = cc

  -- The observers cannot tell the values of the first object's fields from the second's.
  abbrev AreAlike : Fields N → Fields N → Type 0
  AreAlike fs gs =
      (k : Text)
      → has_key k fs ≡ true
      → (p : List Read) → probe p (field_at k fs) ≡ probe p (field_at k gs)

  field_at-IsJson :
      (k : Text) (fs : Fields N) → AreFieldsJson fs → has_key k fs ≡ true → IsJson (field_at k fs)
  unfolding IsJson field_at has_key
  field_at-IsJson k Fields.end h m = cc
  field_at-IsJson k (Fields.field j v fs) h m = elim (Bool-cases (text_eq j k)) [
    | inl e1 ↦ rw e1 h.0
    | inr e1 ↦ rw e1 (field_at-IsJson k fs h.1 (rw e1 at m))
  ]

  has_key-alike :
      (k : Text) (v : Json N) (gs : Fields N)
      → IsJson v
      → shape v ≡ shape (field_at k gs)
      → has_key k gs ≡ true
  has_key-alike k v gs h f = elim (Bool-cases (has_key k gs)) [
    | inl e1 ↦ e1
    | inr e1 ↦ absurd (shape-present v h (f ∙ ap shape (field_at-missing k gs e1)))
  ]

  HasKeysOf-of :
      (fs gs : Fields N)
      → ((k : Text) → has_key k fs ≡ true → has_key k gs ≡ true)
      → HasKeysOf fs gs
  unfolding has_key
  HasKeysOf-of Fields.end gs f = tt
  HasKeysOf-of (Fields.field k v fs) gs f =
      (f k (rw (text_eq_refl k)), HasKeysOf-of fs gs (λ j m. f j (grind (arith, m))))

  has_key_other :
      (j k : Text) (fs : Fields N)
      → has_key j fs ≡ false
      → has_key k fs ≡ true
      → text_eq j k ≡ false
  has_key_other j k fs n m = elim (Bool-cases (text_eq j k)) [
    | inl e1 ↦ absurd (cc ((text_eq_iff j k).0 e1, n, m))
    | inr e1 ↦ e1
  ]

  module _ (eq_iff : (x y : N) → (eq x y ≡ true) ↔ (x ≡ y)) where
    mutual
      unfolding deep_equal IsJson probe item_at item_count field_at has_key

      deep_equal_complete :
          (a b : Json N)
          → IsJson a
          → IsJson b
          → ((p : List Read) → probe p a ≡ probe p b)
          → deep_equal a b ≡ true
      deep_equal_complete Json.undefined b h k f = cc
      deep_equal_complete Json.null Json.null h k f = refl
      deep_equal_complete (Json.flag b) (Json.flag c) h k f = flag_equal b c (cc (f []))
      deep_equal_complete (Json.number x) (Json.number y) h k f = (eq_iff x y).1 (cc (f []))
      deep_equal_complete (Json.string s) (Json.string t) h k f = (text_eq_iff s t).1 (cc (f []))
      deep_equal_complete (Json.array xs) (Json.array ys) h k f =
          let n : item_count xs ≡ item_count ys = cc (f []) in
          let r = every_item_complete xs ys h k n (λ i p. f (Read.index i ∷ p)) in
          rw ((==_iff _ _).1 n) r
      deep_equal_complete (Json.object fs) (Json.object gs) h k f =
          let up : HasKeysOf fs gs = HasKeysOf-of fs gs (λ j m.
            has_key-alike j (field_at j fs) gs (field_at-IsJson j fs h.1 m)
              (f (Read.key j ∷ []))) in
          let down : HasKeysOf gs fs = HasKeysOf-of gs fs (λ j m.
            has_key-alike j (field_at j gs) fs (field_at-IsJson j gs k.1 m)
              (sym (f (Read.key j ∷ [])))) in
          let n : field_count fs ≡ field_count gs =
            omega (arith, field_count-le fs gs h.0 up, field_count-le gs fs k.0 down) in
          rw ((==_iff _ _).1 n)
            (every_field_complete fs gs h.0 h.1 k.1 (λ j m p. f (Read.key j ∷ p)))
      deep_equal_complete _ _ h k f = let e = f [] in cc

      every_item_complete :
          (xs ys : Items N)
          → AreItemsJson xs
          → AreItemsJson ys
          → item_count xs ≡ item_count ys
          → ((i : ℕ) (p : List Read) → probe p (item_at xs i) ≡ probe p (item_at ys i))
          → every_item xs ys ≡ true
      every_item_complete Items.nil ys h k n f = refl
      every_item_complete (Items.cons x xs) Items.nil h k n f = absurd (omega arith)
      every_item_complete (Items.cons x xs) (Items.cons y ys) h k n f =
          rw (deep_equal_complete x y h.0 k.0 (f 0))
            (every_item_complete xs ys h.1 k.1 (omega arith) (λ i. f (suc i)))

      every_field_complete :
          (fs gs : Fields N)
          → AreKeysDistinct fs
          → AreFieldsJson fs
          → AreFieldsJson gs
          → AreAlike fs gs
          → every_field fs gs ≡ true
      every_field_complete Fields.end gs d h k f = refl
      every_field_complete (Fields.field j v fs) gs d h k f =
          let mine : has_key j (Fields.field j v fs) ≡ true = rw (text_eq_refl j) in
          let alike : (p : List Read) → probe p v ≡ probe p (field_at j gs) =
            λ p. rw (text_eq_refl j) at (f j mine p) in
          let there : has_key j gs ≡ true = has_key-alike j v gs h.0 (alike []) in
          rw (deep_equal_complete v (field_at j gs) h.0 (field_at-IsJson j gs k there) alike) (
            every_field_complete fs gs d.1 h.1 k (λ i m p.
              let other : text_eq j i ≡ false = has_key_other j i fs d.0 m in
              let seen : has_key i (Fields.field j v fs) ≡ true = rw other m in
              rw other at (f i seen p)))

    -- Of two values that JSON.parse makes, the comparison holds exactly when no chain of
    -- property and index reads tells them apart, if numbers are compared by equality. The order
    -- of an object's keys does not matter.
    pub deep_equal_iff :
        (a b : Json N)
        → IsJson a
        → IsJson b
        → (deep_equal a b ≡ true) ↔ ((p : List Read) → probe p a ≡ probe p b)
    deep_equal_iff a b h k = (deep_equal_sound eq_iff a b h, deep_equal_complete a b h k)
