-- ===== src/PacketLayer/Ingest.antt =====
-- frontend/components/PacketLayer.tsx, the ingest effect: the new packet events, drawn once each.
pub mod Cases
pub mod Cursor
pub mod Dots
pub mod Keys
pub mod Timed
use fast_share.Common.{
  ℕ, suc, ◌+◌, ◌%◌, Bool, true, false, not, ◌&&◌, ◌||◌, Option, none, some, List, [], ◌∷◌, ◌++◌,
}
use fast_share.Common.Tests.{or_else, if◌then◌else◌, ltb, leb, ◌==◌}
use fast_share.Common.Lists.{
  length, get_elem?, head_or, last_or, find, update_first, remove_first, count_if,
}
use fast_share.Common.Text.{Text, units}
use fast_share.Common.Number.{Number, lt}
use fast_share.Types.{Snapshot, PacketEvent, PacketStatus}
use fast_share.Canvas.Lanes.{PathState}
use fast_share.Canvas.Shapes.{CanvasGraph, Point}
use fast_share.Canvas.Graph.Paths.{lane_ids, lane_path}
use fast_share.Canvas.Graph.{is_transferring, field_or}
use fast_share.Canvas.Graph.States.{lane_states}
use fast_share.Anim.{build_timings, pos_along}
use fast_share.PacketLayer.{
  Dir, Phase, Sprite, Blast, Layer, Latest, data_total, origin, push, slow_k, graph_of, spawn_ack,
}

-- PATH_STATE_FILL, PATH_STATE_STROKE
abbrev pub path_state_fill : PathState → Text
path_state_fill PathState.optimal = units "fill-green-400"
path_state_fill PathState.candidate = units "fill-blue-400"
path_state_fill PathState.restricted = units "fill-red-400"

abbrev pub path_state_stroke : PathState → Text
path_state_stroke PathState.optimal = units "stroke-green-500"
path_state_stroke PathState.candidate = units "stroke-blue-500"
path_state_stroke PathState.restricted = units "stroke-red-500"

abbrev pub is_frame : Dir → Bool
is_frame Dir.frame = true
is_frame Dir.ack = false

abbrev pub is_timeout : Phase → Bool
is_timeout Phase.timeout = true
is_timeout _ = false

module _ {N : Type 0} where
  -- a DATA dot
  abbrev pub is_data : Sprite N → Bool
  is_data s = is_frame s.dir

  -- a DATA dot of this sequence number
  abbrev pub is_data_of : ℕ → Sprite N → Bool
  is_data_of seq s = is_frame s.dir && s.seq == seq

  -- the test of `activeData`
  abbrev pub is_active : ℕ → Sprite N → Bool
  is_active seq s = is_data_of seq s && not (is_timeout s.phase)

  abbrev pub both :
      Option (List Text) → Option (List (Point N)) → Option (List Text × List (Point N))
  both (some ids) (some path) = some (ids, path)
  both _ _ = none

module _ {N : Type 0} ⦃num : Number N⦄ (latest : Latest N) (now : N) where
  unfoldable pub data_sprite : ℕ → ℕ → ℕ → ℕ → List Text → List (Point N) → Sprite N
  unfolding slow_k
  data_sprite id seq retries lane ids path =
      let g = graph_of latest in
      let states = lane_states (field_or (λ s. s.scheduler) latest.status none) g in
      let state = or_else (get_elem? states lane) PathState.candidate in
      record {
        id = id;
        seq = seq;
        retries = retries;
        dir = Dir.frame;
        phase = Phase.travel;
        started_at = now;
        timings = build_timings g ids (num.mul (num.of_nat data_total) (slow_k latest.speed)) false;
        path = path;
        lane = lane;
        fill = path_state_fill state;
        stroke_cls = path_state_stroke state;
        letter = if ltb 1 (length g.paths) then some (65 + lane % 26) else none;
        ack_seen = false;
        timeout_at = num.of_nat 0;
        pos = head_or path origin;
      }

  -- `(speed ?? 1) < 1`
  unfoldable pub is_slow : Bool
  is_slow = lt (or_else latest.speed (num.of_nat 1)) (num.of_nat 1)

  -- the path of a new DATA dot: its ids and points, where both are there
  unfoldable pub lane_route : ℕ → Option (List Text × List (Point N))
  lane_route lane =
      both (lane_ids (graph_of latest) (some lane)) (lane_path (graph_of latest) (some lane))

  unfoldable pub spawn_data : ℕ → ℕ → Option ℕ → Layer N → Layer N
  unfolding data_sprite lane_route is_slow count_if
  spawn_data seq retries spec_lane l =
      let lane = or_else spec_lane 0 in
      elim (lane_route lane) [
        | none ↦ l
        | some (ids, path) ↦
            if is_slow && leb 5 (count_if is_data l.sprites)
            then l
            else push (data_sprite l.next_id seq retries lane ids path) l
      ]

  -- the position at which a DATA dot times out
  unfoldable pub timeout_pos : Sprite N → Point N
  timeout_pos s =
      or_else (pos_along s.path s.timings (num.sub now s.started_at)) (last_or s.path origin)

  unfoldable pub time_out : Sprite N → Sprite N
  unfolding timeout_pos
  time_out s = record s { pos = timeout_pos s; phase = Phase.timeout; timeout_at = now }

  -- `data.ackSeen = true`
  abbrev pub see_ack : ℕ → Layer N → Layer N
  see_ack seq l = record l {
    sprites = update_first (is_active seq) (λ s. record s { ack_seen = true }) l.sprites;
  }

  -- the dot `s` turns red where it is, and a blast is drawn there
  abbrev pub expire : ℕ → Sprite N → Layer N → Layer N
  expire seq s l = record l {
    sprites = update_first (is_active seq) time_out l.sprites;
    blasts =
        l.blasts
        ++ record { id = l.next_id; x = (timeout_pos s).x; y = (timeout_pos s).y; at = now } ∷ [];
    next_id = suc l.next_id;
  }

  -- `sprites.splice(idx, 1)` for the first DATA dot of the frame, if there is one
  abbrev pub drop_dot : ℕ → Layer N → Layer N
  drop_dot seq l = record l { sprites = remove_first (is_data_of seq) l.sprites }

  unfoldable pub on_sent : PacketEvent N → Layer N → Layer N
  unfolding spawn_data find
  on_sent e l = elim (find (is_active e.seq) l.sprites) [
    | none ↦ spawn_data e.seq e.retries e.lane l
    | some _ ↦ l
  ]

  unfoldable pub on_acked : PacketEvent N → Layer N → Layer N
  unfolding spawn_ack update_first find
  on_acked e l = elim (find (is_active e.seq) l.sprites) [
    | none ↦ spawn_ack latest e.seq e.retries now (or_else e.lane 0) l
    | some _ ↦ see_ack e.seq l
  ]

  unfoldable pub on_timeout : PacketEvent N → Layer N → Layer N
  unfolding time_out timeout_pos update_first find
  on_timeout e l = elim (find (is_active e.seq) l.sprites) [ none ↦ l | some s ↦ expire e.seq s l ]

  unfoldable pub on_retransmitted : PacketEvent N → Layer N → Layer N
  unfolding spawn_data remove_first
  on_retransmitted e l = spawn_data e.seq e.retries e.lane (drop_dot e.seq l)

  -- the `switch`
  unfoldable pub draw : PacketStatus → PacketEvent N → Layer N → Layer N
  unfolding on_sent on_acked on_timeout on_retransmitted
  draw PacketStatus.sent = on_sent
  draw PacketStatus.waiting = on_sent
  draw PacketStatus.acked = on_acked
  draw PacketStatus.timeout = on_timeout
  draw PacketStatus.failed = on_timeout
  draw PacketStatus.retransmitted = on_retransmitted

  -- one round of the loop over the events
  unfoldable pub ingest_event : PacketEvent N → Layer N → Layer N
  unfolding draw
  ingest_event e l = if leb e.id l.last_id then l else draw e.status e (record l { last_id = e.id })

  unfoldable pub ingest_events : List (PacketEvent N) → Layer N → Layer N
  unfolding ingest_event
  ingest_events [] l = l
  ingest_events (e ∷ es) l = ingest_events es (ingest_event e l)

  -- the effect on `[events, status?.transfer_status]`
  unfoldable pub ingest : Layer N → Layer N
  unfolding ingest_events
  ingest l =
      if field_or (λ s. is_transferring s.transfer_status) latest.status false
      then ingest_events latest.events l
      else record l { sprites = []; last_id = 0 }
