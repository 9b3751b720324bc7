-- ===== src/Switching.antt =====
-- What the dashboard makes of a change of the lanes' flags: the markers of
-- frontend/components/PathSwitchHud.tsx and the notice of frontend/components/TopologyCanvas.tsx.
pub mod Added
pub mod Laws
pub mod Strip
pub mod Tests
use fast_share.Common.{
  ℕ, zero, suc, ◌+◌, Bool, true, false, not, ◌&&◌, Option, none, some, List, [], ◌∷◌, ◌++◌, map,
}
use fast_share.Common.Tests.{if◌then◌else◌, ◌==◌}
use fast_share.Common.Lists.{length, get_elem?, take_last, find}
use fast_share.Common.Text.{Text, units, text_eq}
use fast_share.Topology.{SchedulerLane, SchedulerState}
use fast_share.Types.{TransferStatus}
use fast_share.Canvas.Graph.{is_transferring}

pub data MarkerKind : Type 0 where
  flag recover : MarkerKind

pub record Marker : Type 0 where
  pub seq : ℕ
  pub kind : MarkerKind
  pub lane : ℕ
  pub name : Text

-- The references and the state of the component.
pub record Hud : Type 0 where
  pub markers : List Marker
  pub flags : Option Text
  pub prev_transfer : Option TransferStatus

abbrev pub first_hud : Hud
first_hud = record { markers = []; flags = none; prev_transfer = none }

abbrev pub transfers : Option TransferStatus → Bool
transfers none = false
transfers (some s) = is_transferring s

-- the effect on `[transferStatus]`: a fresh transfer drops the markers
unfoldable pub on_transfer : Option TransferStatus → Hud → Hud
on_transfer status h =
    if transfers status && not (transfers h.prev_transfer)
    then record { markers = []; flags = none; prev_transfer = status }
    else record h { prev_transfer = status }

-- `prev[i] === "1"`
unfoldable pub was_flagged : Text → ℕ → Bool
was_flagged prev i = elim (get_elem? prev i) [ none ↦ false | some c ↦ c == 49 ]

unfoldable pub differs : Bool → Bool → Bool
differs true b = not b
differs false b = b

abbrev pub kind_of : Bool → MarkerKind
kind_of true = MarkerKind.flag
kind_of false = MarkerKind.recover

pub record Banner : Type 0 where
  pub notice : Option (MarkerKind × Text)
  pub flags : Option Text

-- the timer of 5000 ms
abbrev pub clear_notice : Banner → Banner
clear_notice b = record b { notice = none }

module _ {N : Type 0} where
  -- `lanes.map((l) => (l.flagged ? "1" : "0")).join("")`
  unfoldable pub flags_key : List (SchedulerLane N) → Text
  flags_key lanes = map (λ l. if l.flagged then 49 else 48) lanes

  -- the loop over the lanes, from lane `i` on
  unfoldable pub added : ℕ → Text → ℕ → List (SchedulerLane N) → List Marker
  unfolding was_flagged differs
  added last prev i [] = []
  added last prev i (l ∷ lanes) =
      let rest = added last prev (suc i) lanes in
      if differs l.flagged (was_flagged prev i)
      then record { seq = suc last; kind = kind_of l.flagged; lane = i; name = l.name } ∷ rest
      else rest

  -- the effect on `[sched]`; `last` is the sequence number of the last row with a lane, or 0
  unfoldable pub on_scheduler : ℕ → Option (SchedulerState N) → Hud → Hud
  unfolding flags_key added text_eq
  on_scheduler last none h = record h { flags = none }
  on_scheduler last (some sched) h = elim h.flags [
    | none ↦ record h { flags = some (flags_key sched.lanes) }
    | some prev ↦
        if text_eq prev (flags_key sched.lanes)
        then record h { flags = some (flags_key sched.lanes) }
        else record h {
          flags = some (flags_key sched.lanes);
          markers = elim (added last prev 0 sched.lanes) [
            | [] ↦ h.markers
            | ◌∷◌ m ms ↦ take_last 8 (h.markers ++ m ∷ ms)
          ];
        }
  ]

  -- TopologyCanvas: `lanes.find((l, i) => l.flagged !== (prev[i] === "1"))`, from lane `i` on
  unfoldable pub first_changed : Text → ℕ → List (SchedulerLane N) → Option (SchedulerLane N)
  unfolding was_flagged differs
  first_changed prev i [] = none
  first_changed prev i (l ∷ lanes) =
      let rest = first_changed prev (suc i) lanes in
      if differs l.flagged (was_flagged prev i) then some l else rest

  -- the banner of a changed lane
  abbrev pub notice_text : SchedulerLane N → Text
  notice_text l =
      if l.flagged
      then units "PATH " ++ (l.name ++ units " flagged — shifting traffic to healthier paths")
      else units "PATH " ++ (l.name ++ units " recovered — back in the schedule")

  unfoldable pub on_scheduler_notice : Option (SchedulerState N) → Banner → Banner
  unfolding flags_key first_changed text_eq
  on_scheduler_notice none b = record b { flags = none }
  on_scheduler_notice (some sched) b = elim b.flags [
    | none ↦ record b { flags = some (flags_key sched.lanes) }
    | some prev ↦
        if text_eq prev (flags_key sched.lanes)
        then record b { flags = some (flags_key sched.lanes) }
        else record {
          flags = some (flags_key sched.lanes);
          notice = elim (first_changed prev 0 sched.lanes) [
            | none ↦ b.notice
            | some l ↦ some (kind_of l.flagged, notice_text l)
          ];
        }
  ]
