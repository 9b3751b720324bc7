-- ===== src/Json/Probe.antt =====
-- What an observer of a value can find out by chains of property and index reads.
use fast_share.Common.{ℕ, ◌≡◌, Bool, true, false, List, [], ◌∷◌}
use fast_share.Common.Text.{Text}
use fast_share.Json.{Json, Items, Fields, item_count, item_at, field_at}
use fast_share.Json.Keys.{AreKeysDistinct}

pub data Read : Type 0 where
  index : ℕ → Read
  key : Text → Read

-- What an observer sees of a value without reading into it.
pub data Shape (N : Type 0) : Type 0 where
  absent null object : Shape N
  flag : Bool → Shape N
  number : N → Shape N
  string : Text → Shape N
  array : ℕ → Shape N

module _ {N : Type 0} where
  abbrev pub shape : Json N → Shape N
  shape Json.undefined = Shape.absent
  shape Json.null = Shape.null
  shape (Json.flag b) = Shape.flag b
  shape (Json.number x) = Shape.number x
  shape (Json.string s) = Shape.string s
  shape (Json.array xs) = Shape.array (item_count xs)
  shape (Json.object fs) = Shape.object

  abbrev pub child : Read → Json N → Json N
  child (Read.index i) (Json.array xs) = item_at xs i
  child (Read.key k) (Json.object fs) = field_at k fs
  child _ _ = Json.undefined

  unfoldable pub probe : List Read → Json N → Shape N
  probe [] j = shape j
  probe (r ∷ p) j = probe p (child r j)

  -- What `JSON.parse` makes: nothing is `undefined`, and no key of an object occurs twice.
  unfoldable mutual
    pub IsJson : Json N → Type 0
    IsJson Json.undefined = true ≡ false
    IsJson (Json.array xs) = AreItemsJson xs
    IsJson (Json.object fs) = AreKeysDistinct fs × AreFieldsJson fs
    IsJson _ = Unit

    pub AreItemsJson : Items N → Type 0
    AreItemsJson Items.nil = Unit
    AreItemsJson (Items.cons x xs) = IsJson x × AreItemsJson xs

    pub AreFieldsJson : Fields N → Type 0
    AreFieldsJson Fields.end = Unit
    AreFieldsJson (Fields.field k v fs) = IsJson v × AreFieldsJson fs
