-- ===== src/Telemetry.antt =====
-- The readouts of frontend/components/NetworkingStats.tsx, the panels of
-- frontend/components/tabs/StatsTab.tsx and the table of frontend/components/PacketMonitor.tsx.
pub mod Laws
pub mod Tests
use fast_share.Common.{
  ℕ, ◌+◌, Bool, true, false, ◌||◌, Option, none, some, List, [], ◌∷◌, ◌++◌, map,
}
use fast_share.Common.Tests.{if◌then◌else◌, ltb, ◌==◌, or_else}
use fast_share.Common.Lists.{length, get_elem?, take_last}
use fast_share.Common.Text.{Text, units, decimal}
use fast_share.Common.Number.{Number, lt, min_of}
use fast_share.Topology.{SchedulerLane, SchedulerState, SchedulerMode}
use fast_share.Types.{Snapshot, PacketEntry, PacketStatus}
use fast_share.Canvas.Lanes.{PathState, scheduler_lane_states}
use fast_share.Formats.{Rounding, format_bytes, format_seconds}
use fast_share.Switching.Strip.{state_of}

-- The counters; a missing status shows zeros.
pub record Counters : Type 0 where
  pub sent : ℕ
  pub acked : ℕ
  pub retries : ℕ
  pub sequence : ℕ
  pub lost : ℕ
  pub duplicates : ℕ
  pub crc_errors : ℕ
  pub samples : ℕ
  pub wire_bytes : ℕ

abbrev no_counters : Counters
no_counters = record {
  sent = 0;
  acked = 0;
  retries = 0;
  sequence = 0;
  lost = 0;
  duplicates = 0;
  crc_errors = 0;
  samples = 0;
  wire_bytes = 0;
}

unfoldable pub counters : {N : Type 0} → Option (Snapshot N) → Counters
counters none = no_counters
counters (some s) = record {
  sent = s.packets_sent;
  acked = s.packets_acked;
  retries = s.retransmissions;
  sequence = s.current_sequence;
  lost = s.packets_lost;
  duplicates = s.duplicate_packets;
  crc_errors = s.checksum_errors;
  samples = s.rtt_samples;
  wire_bytes = s.wire_bytes;
}

-- `status?.field` of a field that may be null
abbrev pub field_of : {N A : Type 0} → (Snapshot N → Option A) → Option (Snapshot N) → Option A
field_of f none = none
field_of f (some s) = f s

unfoldable pub samples_text : ℕ → Text
unfolding decimal
samples_text n = decimal n ++ (units " sample" ++ (if n == 1 then [] else units "s"))

module _ {N : Type 0} ⦃num : Number N⦄ (r : Rounding N) where
  unfoldable pub fmt_ms : Option N → Text
  fmt_ms none = units "--"
  fmt_ms (some v) = r.to_fixed 1 v ++ units " ms"

  unfoldable pub fmt_kbps : Option N → Text
  fmt_kbps none = units "--"
  fmt_kbps (some v) = r.to_fixed 1 v ++ units " KB/s"

  unfoldable pub fmt_eta : Option N → Text
  fmt_eta none = units "--"
  fmt_eta (some v) = if num.le v (num.of_nat 0) then units "done" else r.to_fixed 1 v ++ units " s"

  unfoldable pub rtt_sub : Option (Snapshot N) → Text
  unfolding fmt_ms
  rtt_sub status =
      if ltb 0 (counters status).samples
      then units "min "
        ++ (fmt_ms (field_of (λ s. s.rtt_min_ms) status)
            ++ (units " · max " ++ fmt_ms (field_of (λ s. s.rtt_max_ms) status)))
      else units "awaiting first ACK"

  abbrev pub kilobytes : ℕ → Text
  kilobytes n = r.to_fixed 1 (num.div (num.of_nat n) (num.of_nat 1024)) ++ units " KB"

  abbrev pub wire_text : Option (Snapshot N) → Text
  wire_text status = kilobytes (counters status).wire_bytes

  -- `status?.confirmed_bytes ? ... : "0 KB"`
  unfoldable pub confirmed_text : Option (Snapshot N) → Text
  confirmed_text none = units "0 KB"
  confirmed_text (some s) =
      if s.confirmed_bytes == 0 then units "0 KB" else kilobytes s.confirmed_bytes

  -- `lossPct.toFixed(2)%`
  unfoldable pub loss_text : Option (Snapshot N) → Text
  loss_text none = r.to_fixed 2 (num.of_nat 0) ++ units "%"
  loss_text (some s) = r.to_fixed 2 s.loss_percent ++ units "%"

  -- StatsTab: the readout below the progress bar
  unfoldable pub bytes_text : Option (Snapshot N) → Text
  unfolding format_bytes
  bytes_text none = format_bytes r 0 ++ (units " / " ++ format_bytes r 0)
  bytes_text (some s) =
      format_bytes r s.confirmed_bytes ++ (units " / " ++ format_bytes r s.file_size)

  unfoldable pub elapsed_text : Option (Snapshot N) → Text
  unfolding format_seconds
  elapsed_text none = format_seconds r (num.of_nat 0) ++ units "s"
  elapsed_text (some s) = format_seconds r s.elapsed_seconds ++ units "s"

  -- the line of a resumed transfer, `none` where it is hidden
  unfoldable pub resumed_text : Option (Snapshot N) → Option Text
  unfolding format_bytes decimal
  resumed_text none = none
  resumed_text (some s) =
      if ltb 0 s.resumed_from_seq
      then some (
          units "⏩ Resumed at #"
          ++ (decimal (s.resumed_from_seq + 1)
              ++ (units " — " ++ (format_bytes r s.resumed_bytes ++ units " reused, not re-sent"))))
      else none

-- MODE_HINT
abbrev pub mode_hint : SchedulerMode → Text
mode_hint SchedulerMode.explore = units "exploring every lane (fresh view before judging)"
mode_hint SchedulerMode.round_robin = units "even split while the rolling windows fill"
mode_hint SchedulerMode.weighted =
    units "weighted by lane health — probes keep flagged lanes visible"
mode_hint SchedulerMode.single = units "single path — no lane choice to make"
mode_hint SchedulerMode.disabled = units "scheduler off — traffic stays on the route"

-- What the last badge of a lane says: "flag", or the share of the picks.
pub data LaneBadge (N : Type 0) : Type 0 where
  flagged : LaneBadge N
  share : N → LaneBadge N

pub record PathRow (N : Type 0) : Type 0 where
  pub name : Text
  pub state : PathState
  pub counts : ℕ × ℕ
  pub loss : N
  pub width : N
  pub badge : LaneBadge N

module _ {N : Type 0} ⦃num : Number N⦄ where
  abbrev pub percent_of : N → N
  percent_of x = num.round (num.mul x (num.of_nat 100))

  unfoldable pub path_row : Option (List PathState) → SchedulerLane N → PathRow N
  unfolding min_of
  path_row states l = record {
    name = l.name;
    state = state_of states l.lane;
    counts = (l.sent, l.lost);
    loss = percent_of l.window_loss;
    width = min_of (num.of_nat 100) (percent_of l.window_loss);
    badge = if l.flagged then LaneBadge.flagged else LaneBadge.share (percent_of l.weight);
  }

  -- PathsPanel, `none` where it renders nothing
  unfoldable pub path_rows : Option (SchedulerState N) → Option (List (PathRow N))
  unfolding path_row scheduler_lane_states
  path_rows none = none
  path_rows (some sched) = some (map (path_row (scheduler_lane_states (some sched))) sched.lanes)

-- PacketMonitor: the parts that a view shows
pub data View : Type 0 where
  table trace both : View

abbrev pub shows_table : View → Bool
shows_table View.trace = false
shows_table _ = true

abbrev pub shows_trace : View → Bool
shows_trace View.table = false
shows_trace _ = true

-- `packets.slice(-150)`
abbrev pub table_rows : {N : Type 0} → List (PacketEntry N) → List (PacketEntry N)
table_rows packets = take_last 150 packets

-- `getStatusBadge`
unfoldable pub status_badge : PacketStatus → ℕ → Text
unfolding decimal
status_badge PacketStatus.acked retries = units "✓ ACKED"
status_badge PacketStatus.retransmitted retries =
    units "↻ RETRIED (" ++ (decimal retries ++ units ")")
status_badge PacketStatus.timeout retries = units "✕ TIMEOUT"
status_badge PacketStatus.sent retries = units "→ SENT"
status_badge PacketStatus.waiting retries = units "… WAITING"
status_badge PacketStatus.failed retries = units "✕ FAILED"
