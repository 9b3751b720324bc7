-- ===== src/RoutePicker/Walks.antt =====
-- Walks over the links, by which the hop count is judged, and the neighbours that the search reads.
use fast_share.Common.{
  ℕ, zero, suc, ◌≡◌, refl, ap, ◌∙◌, Bool, true, false, ◌&&◌, ◌||◌, List, [], ◌∷◌, ◌++◌, arith,
}
use fast_share.Common.Tests.{if◌then◌else◌, or_else}
use fast_share.Common.Lists.{any}
use fast_share.Common.Text.{Text, text_eq, text_eq_iff}
use fast_share.Common.Dict.{lookup, insert_new, lookup-insert, lookup-insert_new}
use fast_share.Canvas.Graph.{contains}
use fast_share.RoutePicker.{push_at, add_link, adjacency}

-- A link joins the two nodes, in one of the two directions.
unfoldable pub linked : List (Text × Text) → Text → Text → Bool
linked [] c n = false
linked ((a, b) ∷ links) c n =
    (text_eq a c && text_eq b n) || ((text_eq b c && text_eq a n) || linked links c n)

-- A walk of `n` links.
pub data Walk (links : List (Text × Text)) (from : Text) : Text → ℕ → Type 0 where
  stay : Walk links from from zero
  hop :
      {v : Text} {n : ℕ} (w : Text)
      → Walk links from v n
      → linked links v w ≡ true
      → Walk links from w (suc n)

abbrev pub neighbours : List (Text × List Text) → Text → List Text
neighbours adj cur = or_else (lookup cur adj) []

pub contains-snoc :
    (xs : List Text) (a v : Text) → contains (xs ++ a ∷ []) v ≡ contains xs v || text_eq a v
unfolding contains any
contains-snoc [] a v = ground arith
contains-snoc (x ∷ xs) a v = ground (arith, contains-snoc xs a v)

neighbours-new :
    (k cur : Text) (adj : List (Text × List Text))
    → neighbours (insert_new k [] adj) cur ≡ neighbours adj cur
neighbours-new k cur adj = ground (arith, lookup-insert_new k cur [] adj)

neighbours-push_at :
    (k v cur : Text) (adj : List (Text × List Text))
    → neighbours (push_at k v adj) cur
      ≡ (if text_eq k cur then neighbours adj k ++ v ∷ [] else neighbours adj cur)
unfolding push_at
neighbours-push_at k v cur adj =
    ground (arith, lookup-insert k cur (neighbours adj k ++ v ∷ []) adj)

contains-push_at :
    (k v cur n : Text) (adj : List (Text × List Text))
    → contains (neighbours (push_at k v adj) cur) n
      ≡ (text_eq k cur && text_eq v n) || contains (neighbours adj cur) n
contains-push_at k v cur n adj =
    ground (
      arith,
      neighbours-push_at k v cur adj,
      contains-snoc (neighbours adj k) v n,
      text_eq_iff k cur,
    )

contains-add_link :
    (a b cur n : Text) (adj : List (Text × List Text))
    → contains (neighbours (add_link (a, b) adj) cur) n
      ≡ (text_eq b cur && text_eq a n)
        || ((text_eq a cur && text_eq b n) || contains (neighbours adj cur) n)
unfolding add_link
contains-add_link a b cur n adj =
    let fresh = insert_new b [] (insert_new a [] adj) in
    let same = neighbours-new b cur (insert_new a [] adj) ∙ neighbours-new a cur adj in
    contains-push_at b a cur n (push_at a b fresh)
    ∙ ap (λ (x : Bool). (text_eq b cur && text_eq a n) || x)
        (contains-push_at a b cur n fresh
          ∙ ap (λ (x : Bool). (text_eq a cur && text_eq b n) || x)
              (ap (λ (xs : List Text). contains xs n) same))

contains-adjacency :
    (links : List (Text × Text)) (adj : List (Text × List Text)) (cur n : Text)
    → contains (neighbours (adjacency links adj) cur) n
      ≡ linked links cur n || contains (neighbours adj cur) n
unfolding adjacency linked
contains-adjacency [] adj cur n = refl
contains-adjacency ((a, b) ∷ links) adj cur n =
    ground
      (arith, contains-adjacency links (add_link (a, b) adj) cur n, contains-add_link a b cur n adj)

-- The neighbours that the search reads are the nodes at the other end of a link.
pub contains-neighbours :
    (links : List (Text × Text)) (cur n : Text)
    → contains (neighbours (adjacency links []) cur) n ≡ linked links cur n
unfolding lookup contains any
contains-neighbours links cur n = ground (arith, contains-adjacency links [] cur n)
