-- ===== src/RoutePicker.antt =====
-- frontend/components/RoutePicker.tsx: the hop count between two nodes, by a breadth-first search.
pub mod Walks
pub mod Levels
pub mod Shortest
pub mod Badges
pub mod Tests
use fast_share.Common.{
  ℕ, zero, suc, ◌+◌, ◌*◌, Bool, true, false, not, ◌&&◌, Option, none, some, List, [], ◌∷◌, ◌++◌,
}
use fast_share.Common.Tests.{if◌then◌else◌, or_else, is_some}
use fast_share.Common.Lists.{length}
use fast_share.Common.Text.{Text, text_eq}
use fast_share.Common.Dict.{lookup, insert, insert_new}
use fast_share.Canvas.Graph.{contains}

-- `adj.get(k)!.push(v)`
unfoldable pub push_at : Text → Text → List (Text × List Text) → List (Text × List Text)
unfolding insert lookup text_eq
push_at k v adj = insert k (or_else (lookup k adj) [] ++ v ∷ []) adj

-- the body of the loop over the links: an entry for each end, and each end at the other's
unfoldable pub add_link : Text × Text → List (Text × List Text) → List (Text × List Text)
unfolding push_at insert_new
add_link (a, b) adj = push_at b a (push_at a b (insert_new b [] (insert_new a [] adj)))

unfoldable pub adjacency : List (Text × Text) → List (Text × List Text) → List (Text × List Text)
unfolding add_link
adjacency [] adj = adj
adjacency (l ∷ links) adj = adjacency links (add_link l adj)

-- What the loop over the neighbours of a node ends with.
pub data Scan : Type 0 where
  found : ℕ → Scan
  going : (seen : List Text) → (queue : List (Text × ℕ)) → Scan

-- the loop over the neighbours of a node at distance `d`
unfoldable pub scan : Text → ℕ → List Text → List Text → List (Text × ℕ) → Scan
unfolding text_eq contains
scan to d [] seen queue = Scan.going seen queue
scan to d (n ∷ ns) seen queue =
    let old = scan to d ns seen queue in
    let fresh = scan to d ns (seen ++ n ∷ []) (queue ++ (n, suc d) ∷ []) in
    if text_eq n to then Scan.found (suc d) else if not (contains seen n) then fresh else old

-- the loop over the queue; every round takes one node off it
unfoldable pub search : ℕ → List (Text × List Text) → Text → List Text → List (Text × ℕ) → Option ℕ
unfolding scan lookup text_eq
search zero adj to seen queue = none
search (suc fuel) adj to seen [] = none
search (suc fuel) adj to seen ((cur, d) ∷ queue) =
    elim (scan to d (or_else (lookup cur adj) []) seen queue) [
      | Scan.found n ↦ some n
      | Scan.going seen' queue' ↦ search fuel adj to seen' queue'
    ]

-- A node is put into the queue once, so the rounds are at most the nodes, two for each link, and the
-- first one, and one more finds the queue empty.
unfoldable pub hops : List (Text × Text) → Text → Text → Option ℕ
unfolding search adjacency text_eq
hops links from to =
    if text_eq from to
    then none
    else search (2 + 2 * length links) (adjacency links []) to (from ∷ []) ((from, 0) ∷ [])
