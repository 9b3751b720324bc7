-- ===== src/Canvas/Drawing/Laws.antt =====
-- The state that a router is drawn with is that of the first lane through it, and its colour is
-- that of the links of its lane.
use fast_share.Common.{
  ℕ, zero, suc, ◌+◌, ◌<◌, ◌≡◌, refl, ap, ◌∙◌, Bool, true, false, ◌&&◌, ◌||◌, Option, none, some,
  List, [], ◌∷◌, arith,
}
use fast_share.Common.Tests.{if◌then◌else◌, or_else}
use fast_share.Common.Lists.{length, get_elem?}
use fast_share.Common.Text.{Text, text_eq, text_eq_iff}
use fast_share.Common.Number.{Number}
use fast_share.Common.Dict.{lookup, insert_new, lookup-insert_new, first_of_two}
use fast_share.Canvas.Graph.States.{lane_states, length-lane_states}
use fast_share.Canvas.Lanes.{PathState}
use fast_share.Canvas.Shapes.{CanvasGraph, CanvasNode, CanvasLink, Mode}
use fast_share.Canvas.Drawing.{
  is_inner, mark_path, mark_paths, node_states, states_in, meta_at, Colour, draw_node, draw_link,
  link_look, node_stroke, state_colour, SchedulerState, SchedulerLane,
}

-- `ids.includes(id)`
abbrev pub holds : List Text → Text → Bool
holds [] id = false
holds (x ∷ ids) id = text_eq x id || holds ids id

-- The state of the first path, counted from `i`, that holds the id.
abbrev pub first_state : List PathState → ℕ → List (List Text) → Text → Option PathState
first_state states i [] id = none
first_state states i (ids ∷ paths) id =
    if holds ids id
    then some (or_else (get_elem? states i) PathState.candidate)
    else first_state states (suc i) paths id

module _ (source dest : Text) where
  lookup-mark_path :
      (st : PathState) (ids : List Text) (id : Text) (m : List (Text × PathState))
      → lookup id (mark_path source dest st ids m)
        ≡ first_of_two
            (lookup id m)
            (if holds ids id && is_inner source dest id then some st else none)
  unfolding mark_path
  lookup-mark_path st [] id m = ground arith
  lookup-mark_path st (x ∷ ids) id m = ground (
    arith,
    lookup-mark_path st ids id m,
    lookup-mark_path st ids id (insert_new x st m),
    lookup-insert_new x id st m,
    text_eq_iff x id,
  )

  lookup-mark_paths :
      (states : List PathState) (i : ℕ) (paths : List (List Text)) (id : Text)
      (m : List (Text × PathState))
      → lookup id (mark_paths source dest states i paths m)
        ≡ first_of_two
            (lookup id m)
            (if is_inner source dest id then first_state states i paths id else none)
  unfolding mark_paths
  lookup-mark_paths states i [] id m = ground arith
  lookup-mark_paths states i (ids ∷ paths) id m = ground (
    arith,
    lookup-mark_path (or_else (get_elem? states i) PathState.candidate) ids id m,
    lookup-mark_paths states (suc i) paths id
        (mark_path source dest (or_else (get_elem? states i) PathState.candidate) ids m),
  )

  lookup-mark_all :
      (states : List PathState) (paths : List (List Text)) (id : Text)
      → is_inner source dest id ≡ true
      → lookup id (mark_paths source dest states 0 paths []) ≡ first_state states 0 paths id
  unfolding lookup
  lookup-mark_all states paths id n =
      lookup-mark_paths states 0 paths id []
      ∙ ap (λ b. if b then first_state states 0 paths id else none) n

-- The first path, counted from `i`, that holds the id.
abbrev pub first_holding : ℕ → List (List Text) → Text → Option ℕ
first_holding i [] id = none
first_holding i (ids ∷ paths) id = if holds ids id then some i else first_holding (suc i) paths id

first_state-first_holding :
    (states : List PathState) (k : ℕ) (paths : List (List Text)) (id : Text) (i : ℕ)
    → first_holding k paths id ≡ some i
    → first_state states k paths id ≡ some (or_else (get_elem? states i) PathState.candidate)
first_state-first_holding states k [] id i h = cc
first_state-first_holding states k (ids ∷ paths) id i h =
    ground (arith, first_state-first_holding states (suc k) paths id i)

first_holding_lt :
    (k : ℕ) (paths : List (List Text)) (id : Text) (i : ℕ)
    → first_holding k paths id ≡ some i
    → i < k + length paths
first_holding_lt k [] id i h = cc
first_holding_lt k (ids ∷ paths) id i h = ground (arith, first_holding_lt (suc k) paths id i)

get_elem?-lt {ℓ} :
    {A : Type ℓ} (xs : List A) (i : ℕ) → i < length xs → (x : A) × (get_elem? xs i ≡ some x)
get_elem?-lt [] i h = absurd (omega arith)
get_elem?-lt (x ∷ xs) zero h = (x, refl)
get_elem?-lt (x ∷ xs) (suc i) h = get_elem?-lt xs i (omega arith)

link_look-colour :
    {N : Type 0} ⦃num : Number N⦄ (active on_route : Bool) (st : PathState)
    (meta : Option (SchedulerLane N))
    → (link_look active on_route (some st) meta).colour ≡ state_colour st
unfolding link_look
link_look-colour active on_route PathState.optimal meta = refl
link_look-colour active on_route PathState.candidate meta = refl
link_look-colour active on_route PathState.restricted meta = refl

module _ {N : Type 0} ⦃num : Number N⦄ (g : CanvasGraph N) where
  lookup-node_states :
      (states : List PathState) (id : Text) (i : ℕ)
      → g.mode ≡ Mode.tri
      → is_inner g.source g.dest id ≡ true
      → first_holding 0 g.paths id ≡ some i
      → lookup id (node_states g states) ≡ some (or_else (get_elem? states i) PathState.candidate)
  unfolding node_states states_in
  lookup-node_states states id i m n h =
      ap (λ mode. lookup id (states_in mode g states)) m
      ∙ lookup-mark_all g.source g.dest states g.paths id n
      ∙ first_state-first_holding states 0 g.paths id i h

  in_range :
      (sched : Option (SchedulerState N)) (id : Text) (i : ℕ)
      → first_holding 0 g.paths id ≡ some i
      → i < length (lane_states sched g)
  in_range sched id i h =
      rw (length-lane_states sched g) (ground (arith, first_holding_lt 0 g.paths id i h))

  -- In the tri mode a node that is neither end of the transfer is drawn, if it is up, in the
  -- colour of every link of the first lane that it is on, whatever the scheduler says, and in
  -- red if it is down.
  pub draw_node-draw_link :
      (sched : Option (SchedulerState N)) (meta : Option (List (SchedulerLane N)))
      (link : CanvasLink N) (node : CanvasNode N) (i : ℕ)
      → g.mode ≡ Mode.tri
      → link.lane ≡ some i
      → first_holding 0 g.paths node.id ≡ some i
      → is_inner g.source g.dest node.id ≡ true
      → draw_node g (lane_states sched g) node
        ≡ (if node.up then (draw_link g (lane_states sched g) meta link).colour else Colour.red)
  unfolding draw_node draw_link node_stroke
  draw_node-draw_link sched meta link node i m l h n =
      let states = lane_states sched g in
      let there = get_elem?-lt states i (in_range sched node.id i h) in
      rw (lookup-node_states states node.id i m n h) (
        rw (
          l,
          there.1,
          link_look-colour (link.on_route || (g.multipath_on && true)) link.on_route there.0
              (meta_at (some i) meta),
        ))
