-- ===== src/Switching/Tests.antt =====
-- Flags that change on small schedulers.
use fast_share.Common.{ℕ, ◌≡◌, ◌↔◌, refl, true, none, some, map, arith, List, [], ◌∷◌}
use mathlib.Core.List.{Memᴰ}
use fast_share.Common.Counting.{IsAscending}
use fast_share.Common.Lists.{length, select}
use fast_share.Topology.{SchedulerLane}
use fast_share.Canvas.Tests.{lane_of_loss, three_lanes}
use fast_share.Switching.{Marker, first_hud, on_scheduler, flags_key, added}
use fast_share.Types.{PacketEntry, PacketType, PacketStatus}
use fast_share.Switching.Strip.{carets, visible, picks, last_seq}
use fast_share.Switching.Strip.Next.{caret_at, carets-added}
use fast_share.Switching.Added.{marker_at, added_iff, IsChange}

-- the first lane fails, the third recovers
abbrev later : List (SchedulerLane ℕ)
later = record (lane_of_loss 0 5) { flagged = true } ∷ lane_of_loss 1 9 ∷ lane_of_loss 2 30 ∷ []

two_markers :
    length
      (on_scheduler 7
        (some (record three_lanes { lanes = later }))
        (on_scheduler 6 (some three_lanes) first_hud)).markers
    ≡ 2
unfolding on_scheduler
two_markers = refl

abbrev failed : Marker
failed = marker_at 7 0 (record (lane_of_loss 0 5) { flagged = true })

added_iff_example :
    (Memᴰ failed (added 7 (flags_key three_lanes.lanes) 0 later)
      ↔ IsChange 7 three_lanes.lanes later failed)
    × IsAscending
        (λ (x : Marker). x.lane)
        0
        (added 7 (flags_key three_lanes.lanes) 0 later)
        (length later)
added_iff_example = added_iff 7 three_lanes.lanes later failed

abbrev row : ℕ → ℕ → PacketEntry ℕ
row seq lane = record {
  seq = seq;
  type = PacketType.payload;
  size = 1024;
  status = PacketStatus.acked;
  retries = 0;
  rtt_ms = none;
  lane = some lane;
}

-- Two picks, and the one after the change.
carets-added_example :
    carets
      (added 7 (flags_key three_lanes.lanes) 0 later)
      (visible (row 6 0 ∷ row 7 2 ∷ row 8 1 ∷ []))
    ≡ map (caret_at 2) (added 7 (flags_key three_lanes.lanes) 0 later)
unfolding picks visible last_seq select
carets-added_example =
    carets-added (row 6 0 ∷ row 7 2 ∷ []) (row 8 1) (flags_key three_lanes.lanes) later refl refl
      (omega arith, (omega arith, tt))
