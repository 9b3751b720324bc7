-- ===== src/Canvas/Graph/Edges/Laws.antt =====
-- The edge keys are canonical, and the lane map finds the first lane that an edge belongs to.
use fast_share.Common.{
  ℕ, suc, ◌≡◌, ◌↔◌, ◌⊎◌, Bool, ◌&&◌, ◌||◌, Option, none, some, List, [], ◌∷◌, arith,
}
use fast_share.Common.Tests.{if◌then◌else◌}
use fast_share.Common.Lists.{All}
use fast_share.Common.Text.{
  Text, text_eq, text_eq_iff, text_lt-total, text_lt-asymm, split_at_unit, Lacks,
}
use fast_share.Common.Dict.{lookup, insert_new, lookup-insert_new, first_of_two}
use fast_share.Canvas.Graph.Edges.{edge_key, mark_lane, mark_lanes, lane_map, has_edge}

pub edge_key_comm : (a b : Text) → edge_key a b ≡ edge_key b a
unfolding edge_key
edge_key_comm a b = ground (arith, text_lt-total a b, text_lt-asymm a b, text_lt-asymm b a)

-- An id that the separator of the keys does not occur in.
abbrev pub NoBar : Text → Type 0
NoBar id = Lacks 124 id

-- The unordered pairs {a, b} and {c, d} are the same.
abbrev pub SamePair : Text → Text → Text → Text → Type 0
SamePair a b c d = ((a ≡ c) × (b ≡ d)) ⊎ ((a ≡ d) × (b ≡ c))

edge_key-SamePair :
    (a b c d : Text)
    → NoBar a
    → NoBar b
    → NoBar c
    → NoBar d
    → edge_key a b ≡ edge_key c d
    → SamePair a b c d
unfolding edge_key
edge_key-SamePair a b c d ha hb hc hd e = ground (
  arith,
  split_at_unit 124 a b c d ha hc,
  split_at_unit 124 a b d c ha hd,
  split_at_unit 124 b a c d hb hc,
  split_at_unit 124 b a d c hb hd,
)

-- Two edges have one key exactly when they join the same two nodes, if no id holds the
-- separator.
edge_key_iff :
    (a b c d : Text)
    → NoBar a
    → NoBar b
    → NoBar c
    → NoBar d
    → (edge_key a b ≡ edge_key c d) ↔ SamePair a b c d
edge_key_iff a b c d ha hb hc hd =
    (edge_key-SamePair a b c d ha hb hc hd, ground (arith, edge_key_comm a b))

abbrev same_pair : Text → Text → Text → Text → Bool
same_pair x y a b = text_eq x a && text_eq y b || text_eq x b && text_eq y a

same_pair_key :
    (x y a b : Text)
    → NoBar x
    → NoBar y
    → NoBar a
    → NoBar b
    → text_eq (edge_key x y) (edge_key a b) ≡ same_pair x y a b
same_pair_key x y a b hx hy ha hb = ground (
  arith,
  text_eq_iff (edge_key x y) (edge_key a b),
  edge_key_iff x y a b hx hy ha hb,
  text_eq_iff x a,
  text_eq_iff y b,
  text_eq_iff x b,
  text_eq_iff y a,
)

-- The first path, counted from `i`, on which a and b are neighbours.
abbrev pub first_lane : ℕ → List (List Text) → Text → Text → Option ℕ
first_lane i [] a b = none
first_lane i (path ∷ paths) a b = if has_edge path a b then some i else first_lane (suc i) paths a b

module _ (a b : Text) (ha : NoBar a) (hb : NoBar b) where
  lookup-mark_lane :
      (i : ℕ) (path : List Text) (m : List (Text × ℕ))
      → All NoBar path
      → lookup (edge_key a b) (mark_lane i path m)
        ≡ first_of_two (lookup (edge_key a b) m) (if has_edge path a b then some i else none)
  unfolding mark_lane has_edge
  lookup-mark_lane i [] m h = ground arith
  lookup-mark_lane i (x ∷ []) m h = ground arith
  lookup-mark_lane i (x ∷ (y ∷ rest)) m h = ground (
    arith,
    lookup-mark_lane i (y ∷ rest) (insert_new (edge_key x y) i m) h.1,
    lookup-insert_new (edge_key x y) (edge_key a b) i m,
    same_pair_key x y a b h.0 h.1.0 ha hb,
  )

  lookup-mark_lanes :
      (i : ℕ) (paths : List (List Text)) (m : List (Text × ℕ))
      → All (All NoBar) paths
      → lookup (edge_key a b) (mark_lanes i paths m)
        ≡ first_of_two (lookup (edge_key a b) m) (first_lane i paths a b)
  unfolding mark_lanes
  lookup-mark_lanes i [] m h = ground arith
  lookup-mark_lanes i (path ∷ paths) m h = ground (
    arith,
    lookup-mark_lanes (suc i) paths (mark_lane i path m) h.1,
    lookup-mark_lane i path m h.0,
  )

  -- The lane map, filled edge by edge with string keys, gives for an edge the first path on
  -- which its ends are neighbours, if no id holds the separator of the keys.
  pub lookup-lane_map :
      (paths : List (List Text))
      → All (All NoBar) paths
      → lookup (edge_key a b) (lane_map paths) ≡ first_lane 0 paths a b
  unfolding lane_map lookup
  lookup-lane_map paths h = ground (arith, lookup-mark_lanes 0 paths [] h)
