-- ===== src/Json/Keys.antt =====
-- The keys of an object: of two objects of one size, the first with distinct keys that the second
-- has too, no key of the second is missing in the first.
use fast_share.Common.{suc, ◌≤◌, ◌≡◌, ◌≢◌, refl, true, false, arith, inl, inr}
use fast_share.Common.Tests.{if◌then◌else◌, Bool-cases}
use fast_share.Common.Text.{Text, text_eq, text_eq_iff}
use fast_share.Json.{Json, Fields, field_at, field_count, has_key}

module _ {N : Type 0} where
  unfoldable pub remove_key : Text → Fields N → Fields N
  remove_key k Fields.end = Fields.end
  remove_key k (Fields.field j v fs) =
      let rest = remove_key k fs in if text_eq j k then fs else Fields.field j v rest

  field_count-remove_key :
      (k : Text) (fs : Fields N)
      → has_key k fs ≡ true
      → field_count fs ≡ suc (field_count (remove_key k fs))
  unfolding field_count has_key remove_key
  field_count-remove_key k Fields.end h = cc
  field_count-remove_key k (Fields.field j v fs) h = ground (arith, field_count-remove_key k fs)

  has_key-remove_key :
      (j k : Text) (fs : Fields N)
      → j ≢ k
      → has_key j fs ≡ true
      → has_key j (remove_key k fs) ≡ true
  unfolding has_key remove_key
  has_key-remove_key j k Fields.end ne h = cc
  has_key-remove_key j k (Fields.field i v fs) ne h =
      ground (arith, has_key-remove_key j k fs ne, text_eq_iff i j, text_eq_iff i k)

  -- Each key occurs once.
  abbrev pub AreKeysDistinct : Fields N → Type 0
  AreKeysDistinct Fields.end = Unit
  AreKeysDistinct (Fields.field k v fs) = (has_key k fs ≡ false) × AreKeysDistinct fs

  -- Every key of the first object is one of the second.
  abbrev pub HasKeysOf : Fields N → Fields N → Type 0
  HasKeysOf Fields.end gs = Unit
  HasKeysOf (Fields.field k v fs) gs = (has_key k gs ≡ true) × HasKeysOf fs gs

  HasKeysOf-remove_key :
      (k : Text) (fs gs : Fields N)
      → has_key k fs ≡ false
      → HasKeysOf fs gs
      → HasKeysOf fs (remove_key k gs)
  unfolding has_key
  HasKeysOf-remove_key k Fields.end gs n h = tt
  HasKeysOf-remove_key k (Fields.field j v fs) gs n h = (
    has_key-remove_key j k gs (ground (arith, text_eq_iff j k)) h.0,
    HasKeysOf-remove_key k fs gs (ground arith) h.1,
  )

  pub field_count-le :
      (fs gs : Fields N) → AreKeysDistinct fs → HasKeysOf fs gs → field_count fs ≤ field_count gs
  unfolding field_count
  field_count-le Fields.end gs d h = omega arith
  field_count-le (Fields.field k v fs) gs d h = omega (
    arith,
    field_count-remove_key k gs h.0,
    field_count-le fs (remove_key k gs) d.1 (HasKeysOf-remove_key k fs gs d.0 h.1),
  )

  pub has_key-missing :
      (fs gs : Fields N) (k : Text)
      → AreKeysDistinct fs
      → HasKeysOf fs gs
      → field_count fs ≡ field_count gs
      → has_key k fs ≡ false
      → has_key k gs ≡ false
  has_key-missing fs gs k d h e n = elim (Bool-cases (has_key k gs)) [
    | inl e1 ↦ absurd (
        omega (
          arith,
          field_count-remove_key k gs e1,
          field_count-le fs (remove_key k gs) d (HasKeysOf-remove_key k fs gs n h),
        ))
    | inr e1 ↦ e1
  ]

  pub field_at-missing :
      (k : Text) (fs : Fields N) → has_key k fs ≡ false → field_at k fs ≡ Json.undefined
  unfolding has_key field_at
  field_at-missing k Fields.end h = refl
  field_at-missing k (Fields.field j v fs) h = ground (arith, field_at-missing k fs)
