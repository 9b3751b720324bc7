-- ===== src/Switching/Strip.antt =====
-- frontend/components/PathSwitchHud.tsx: the strip of lane picks, the carets below it, the rows of
-- the lanes and the labels of the speed.
pub mod Laws
pub mod Next
use fast_share.Common.{
  ℕ, zero, suc, ◌+◌, ◌*◌, ◌≡◌, Bool, true, false, ◌&&◌, Option, none, some, List, [], ◌∷◌, ◌++◌,
  map,
}
use fast_share.Common.Tests.{if◌then◌else◌, ltb, ◌==◌, or_else, is_some}
use fast_share.Common.Lists.{length, get_elem?, take_last, select}
use fast_share.Common.Text.{Text, units, decimal}
use fast_share.Common.Number.{Number, eq, lt, min_of}
use fast_share.Topology.{SchedulerLane, SchedulerState, SchedulerMode}
use fast_share.Types.{PacketEntry}
use fast_share.Canvas.Lanes.{PathState, scheduler_lane_states}
use fast_share.Switching.{Marker, MarkerKind}

-- MODE_LABEL
abbrev pub mode_label : SchedulerMode → Text
mode_label SchedulerMode.explore = units "exploring"
mode_label SchedulerMode.round_robin = units "even split"
mode_label SchedulerMode.weighted = units "weighted"
mode_label SchedulerMode.single = units "single path"
mode_label SchedulerMode.disabled = units "off"

pub data ModeTone : Type 0 where
  green cyan slate : ModeTone

abbrev pub mode_tone : SchedulerMode → ModeTone
mode_tone SchedulerMode.weighted = ModeTone.green
mode_tone SchedulerMode.explore = ModeTone.cyan
mode_tone _ = ModeTone.slate

-- TICKS
abbrev pub ticks : ℕ
ticks = 56

-- A caret below the strip: its place in tenths of a pixel, its kind and its number.
pub record Caret : Type 0 where
  pub left : ℕ
  pub kind : MarkerKind
  pub seq : ℕ

pub record LaneRow (N : Type 0) : Type 0 where
  pub name : Text
  pub state : PathState
  pub share : N
  pub width : N
  pub loss : N
  pub flagged : Bool

-- `states?.[lane] ?? "candidate"`
abbrev pub state_of : Option (List PathState) → ℕ → PathState
state_of none lane = PathState.candidate
state_of (some states) lane = or_else (get_elem? states lane) PathState.candidate

-- nothing for -1, otherwise a caret; 4 pixels per tick, 1.5 from the tick's left
abbrev pub with_caret : Option ℕ → Marker → List Caret → List Caret
with_caret none m rest = rest
with_caret (some i) m rest = record { left = i * 40 + 15; kind = m.kind; seq = m.seq } ∷ rest

module _ {N : Type 0} where
  -- `findIndex((p) => p.seq === seq)`, counted from `i`; `none` for -1
  unfoldable pub index_from : ℕ → ℕ → List (PacketEntry N) → Option ℕ
  index_from i seq [] = none
  index_from i seq (p ∷ rows) = if p.seq == seq then some i else index_from (suc i) seq rows

  -- `packets.filter((p) => p.lane !== undefined)` and its last ticks
  unfoldable pub picks : List (PacketEntry N) → List (PacketEntry N)
  unfolding select
  picks packets = select (λ p. is_some p.lane) packets

  unfoldable pub visible : List (PacketEntry N) → List (PacketEntry N)
  unfolding picks
  visible packets = take_last ticks (picks packets)

  -- `rows.length ? rows[rows.length - 1].seq : 0`
  unfoldable pub last_seq : List (PacketEntry N) → ℕ
  last_seq [] = 0
  last_seq (p ∷ []) = p.seq
  last_seq (p ∷ (q ∷ rows)) = last_seq (q ∷ rows)

  -- one caret per marker whose row is visible
  unfoldable pub carets : List Marker → List (PacketEntry N) → List Caret
  unfolding index_from
  carets [] rows = []
  carets (m ∷ markers) rows = with_caret (index_from 0 m.seq rows) m (carets markers rows)

  abbrev pub is_multi : Option (SchedulerState N) → Bool
  is_multi none = false
  is_multi (some sched) = sched.enabled && ltb 1 (length sched.lanes)

  -- the colours of the ticks
  unfoldable pub strip : Option (List PathState) → List (PacketEntry N) → List PathState
  strip states rows = map (λ p. state_of states (or_else p.lane 0)) rows

module _ {N : Type 0} ⦃num : Number N⦄ where
  -- `multi ? schedulerLaneStates(sched) : null`
  unfoldable pub hud_states : Option (SchedulerState N) → Option (List PathState)
  unfolding scheduler_lane_states
  hud_states sched = if is_multi sched then scheduler_lane_states sched else none

  unfoldable pub lane_row : Option (List PathState) → SchedulerLane N → LaneRow N
  unfolding min_of
  lane_row states l = record {
    name = l.name;
    state = state_of states l.lane;
    share = num.round (num.mul l.weight (num.of_nat 100));
    width = min_of (num.of_nat 100) (num.mul l.weight (num.of_nat 100));
    loss = num.round (num.mul l.window_loss (num.of_nat 100));
    flagged = l.flagged;
  }

  -- the labels of ANIM_SPEEDS, and the text behind them
  abbrev pub speed_label : N → Text
  speed_label v =
      if eq v (num.of_nat 1)
      then units "1×"
      else if eq v (num.lit 25 2)
      then units "¼×"
      else units "½×"

  abbrev pub pace_text : (N → Text) → N → Text
  pace_text text_of speed =
      if lt speed (num.of_nat 1)
      then units "slow-mo " ++ (text_of (num.div (num.of_nat 1) speed) ++ units "×")
      else units "real time"
