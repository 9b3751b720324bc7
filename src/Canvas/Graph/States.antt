-- ===== src/Canvas/Graph/States.antt =====
-- frontend/lib/canvas.ts, laneStates: the scheduler's states, or the active route's while it is off.
use fast_share.Common.{
  ℕ, ◌≡◌, refl, ap, not, false, ◌⊎◌, inl, inr, ◌<◌, ◌&&◌, ◌||◌, Option, none, some, List, [], ◌∷◌,
  ◌++◌, map, arith, ◌≢◌, sym, ◌↔◌, inl, ◌⊎◌, false, inr, ◌<◌,
}
use fast_share.Common.Tests.{if◌then◌else◌, ltb, Bool-cases, ◌==◌}
use fast_share.Common.Lists.{length, All, get_elem?, length-map, get_elem?-map, All-get}
use fast_share.Common.Text.{Text, units, text_eq, text_eq_iff, Lacks, not-Lacks, split_at_unit}
use fast_share.Common.Number.{Number}
use fast_share.Topology.{SchedulerState}
use fast_share.Canvas.Lanes.{PathState, scheduler_lane_states, lane_state, min_loss, losses}
use fast_share.Canvas.Shapes.{CanvasGraph}

-- `ids.join(">")`
unfoldable pub join : List Text → Text
join [] = []
join (x ∷ []) = x
join (x ∷ (y ∷ rest)) = x ++ (units ">" ++ join (y ∷ rest))

-- the callback of the fallback: a truthy route key that the path's key equals
unfoldable pub route_state : Option (List Text) → List Text → PathState
unfolding join text_eq
route_state none ids = PathState.candidate
route_state (some route) ids =
    if not (text_eq (join route) []) && text_eq (join ids) (join route)
    then PathState.optimal
    else PathState.candidate

-- `fromSched && fromSched.length === graph.paths.length`
unfoldable pub states_or_fallback :
    Option (List PathState) → List (List Text) → Option (List Text) → List PathState
unfolding route_state
states_or_fallback none paths route = map (route_state route) paths
states_or_fallback (some states) paths route =
    if length states == length paths then states else map (route_state route) paths

module _ {N : Type 0} ⦃num : Number N⦄ where
  unfoldable pub lane_states : Option (SchedulerState N) → CanvasGraph N → List PathState
  unfolding states_or_fallback scheduler_lane_states
  lane_states sched g = states_or_fallback (scheduler_lane_states sched) g.paths g.route

length-states_or_fallback :
    (o : Option (List PathState)) (paths : List (List Text)) (route : Option (List Text))
    → length (states_or_fallback o paths route) ≡ length paths
unfolding states_or_fallback
length-states_or_fallback none paths route = length-map (route_state route) paths
length-states_or_fallback (some states) paths route =
    ground (arith, length-map (route_state route) paths)

-- An id that is not empty and does not hold the separator of the route keys.
abbrev pub IsPlainId : Text → Type 0
IsPlainId id = (id ≢ []) × Lacks 62 id

join-ne-nil : (xs : List Text) → xs ≢ [] → All IsPlainId xs → join xs ≢ []
unfolding join
join-ne-nil [] n h e = n refl
join-ne-nil (x ∷ []) n h e = h.0.0 e
join-ne-nil ([] ∷ (y ∷ rest)) n h e = h.0.0 refl
join-ne-nil ((c ∷ x) ∷ (y ∷ rest)) n h e = cc

join-injective :
    (xs ys : List Text) → All IsPlainId xs → All IsPlainId ys → join xs ≡ join ys → xs ≡ ys
unfolding join
join-injective [] [] h k e = refl
join-injective [] (y ∷ ys) h k e = absurd (join-ne-nil (y ∷ ys) (λ p. cc) k (sym e))
join-injective (x ∷ xs) [] h k e = absurd (join-ne-nil (x ∷ xs) (λ p. cc) h e)
join-injective (x ∷ []) (y ∷ []) h k e = cc
join-injective (x ∷ []) (y ∷ (z ∷ ys)) h k e = absurd (not-Lacks 62 x y (join (z ∷ ys)) h.0.1 e)
join-injective (x ∷ (z ∷ xs)) (y ∷ []) h k e =
    absurd (not-Lacks 62 y x (join (z ∷ xs)) k.0.1 (sym e))
join-injective (x ∷ (w ∷ xs)) (y ∷ (z ∷ ys)) h k e =
    let (heads, tails) = split_at_unit 62 x (join (w ∷ xs)) y (join (z ∷ ys)) h.0.1 k.0.1 e in
    cc (join-injective (w ∷ xs) (z ∷ ys) h.1 k.1 tails)

route_state_iff :
    (route ids : List Text)
    → route ≢ []
    → All IsPlainId route
    → All IsPlainId ids
    → (route_state (some route) ids ≡ PathState.optimal) ↔ (ids ≡ route)
unfolding route_state
route_state_iff route ids n h k = ground (
  arith,
  join-ne-nil route n h,
  text_eq_iff (join route) [],
  text_eq_iff (join ids) (join route),
  join-injective ids route k h,
  λ (e : ids ≡ route). ap join e,
)

-- Whatever the scheduler sends, the canvas has exactly one state for each lane of the graph.
pub length-lane_states :
    {N : Type 0} ⦃num : Number N⦄ (sched : Option (SchedulerState N)) (g : CanvasGraph N)
    → length (lane_states sched g) ≡ length g.paths
unfolding lane_states
length-lane_states sched g = length-states_or_fallback (scheduler_lane_states sched) g.paths g.route

-- `schedulerLaneStates` is of no use: there is no scheduler, or it is off, or it has one lane at
-- most, or not a lane for each path.
abbrev pub IsIdle : {N : Type 0} → Option (SchedulerState N) → List (List Text) → Type 0
IsIdle none paths = Unit {0}
IsIdle (some s) paths = (s.enabled ≡ false) ⊎ (length s.lanes < 2) ⊎ (length s.lanes ≢ length paths)

scheduler_lane_states-none :
    (N : Type 0) ⦃num : Number N⦄ → scheduler_lane_states {N = N} none ≡ none
unfolding scheduler_lane_states
scheduler_lane_states-none N = refl

module _ {N : Type 0} ⦃num : Number N⦄ where
  scheduler_lane_states-off :
      (s : SchedulerState N)
      → (s.enabled ≡ false) ⊎ (length s.lanes < 2)
      → scheduler_lane_states (some s) ≡ none
  unfolding scheduler_lane_states
  scheduler_lane_states-off s off = ground (arith, off)

  length-scheduler_lane_states :
      (s : SchedulerState N)
      → (scheduler_lane_states (some s) ≡ none)
        ⊎ ((states : List PathState) × (scheduler_lane_states (some s) ≡ some states)
            × (length states ≡ length s.lanes))
  unfolding scheduler_lane_states
  length-scheduler_lane_states s = elim (Bool-cases (not s.enabled || ltb (length s.lanes) 2)) [
    | inl e ↦ inl (rw e)
    | inr e ↦ inr (_, rw e, length-map (lane_state (min_loss (losses s.lanes))) s.lanes)
  ]

  states_or_fallback-IsIdle :
      (sched : Option (SchedulerState N)) (paths : List (List Text)) (route : Option (List Text))
      → IsIdle sched paths
      → states_or_fallback (scheduler_lane_states sched) paths route ≡ map (route_state route) paths
  unfolding states_or_fallback
  states_or_fallback-IsIdle none paths route idle = rw (scheduler_lane_states-none N) refl
  states_or_fallback-IsIdle (some s) paths route (inl off) =
      rw (scheduler_lane_states-off s (inl off)) refl
  states_or_fallback-IsIdle (some s) paths route (inr (inl few)) =
      rw (scheduler_lane_states-off s (inr few)) refl
  states_or_fallback-IsIdle (some s) paths route (inr (inr other)) =
      elim (length-scheduler_lane_states s) [
        | inl e ↦ rw e refl
        | inr (states, e, len) ↦ rw e (ground (arith, len, other))
      ]

-- While there is no scheduler, or it is off, or it has fewer than two lanes or not one for each
-- path, and no id is empty or holds the separator of the route keys, the optimal lanes are
-- exactly those that are the active route, if that is not empty.
pub lane_states-route :
    {N : Type 0} ⦃num : Number N⦄ (sched : Option (SchedulerState N)) (g : CanvasGraph N)
    (route ids : List Text) (lane : ℕ)
    → IsIdle sched g.paths
    → g.route ≡ some route
    → route ≢ []
    → All IsPlainId route
    → All (All IsPlainId) g.paths
    → get_elem? g.paths lane ≡ some ids
    → (get_elem? (lane_states sched g) lane ≡ some PathState.optimal) ↔ (ids ≡ route)
unfolding lane_states
lane_states-route sched g route ids lane idle on n h k e =
    let found = get_elem?-map (route_state g.route) g.paths lane e in
    let plain = All-get (All IsPlainId) g.paths lane k e in
    rw (states_or_fallback-IsIdle sched g.paths g.route idle)
      (ground (arith, found, route_state_iff route ids n h plain))
