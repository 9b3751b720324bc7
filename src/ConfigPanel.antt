-- ===== src/ConfigPanel.antt =====
-- frontend/components/tabs/ConfigTab.tsx: the receiver row, and the topology panel with the draft of
-- the scheduler's window. The choices of its selects are those of Options.
pub mod Laws
pub mod Policy
pub mod Tests
use fast_share.Common.{
  ℕ, Bool, true, false, not, ◌&&◌, ◌||◌, Option, none, some, List, [], ◌∷◌, ◌++◌,
}
use fast_share.Common.Tests.{if◌then◌else◌, ltb, or_else}
use fast_share.Common.Lists.{length, find}
use fast_share.Common.Text.{Text, units, text_eq, decimal}
use fast_share.Common.Number.{Number, eq}
use fast_share.Topology.{TopologySnapshot, PresetInfo, MultipathPolicy}
use fast_share.Types.{Config, Snapshot}
use fast_share.Dock.{server_running, server_error}
use fast_share.Settings.{cleaned}

-- `String(n)`, and `Number(text)` where it is finite.
pub record NumberText (N : Type 0) : Type 0 where
  pub text_of : N → Text
  pub finite_of : Text → Option N

-- `mp.window` and `windowDraft`
pub record WindowField (N : Type 0) : Type 0 where
  pub window : N
  pub draft : Text

pub data Receiver : Type 0 where
  active error offline : Receiver

pub data SchedulerLabel : Type 0 where
  single multipath_on lane_a_only : SchedulerLabel

abbrev pub label_of : Text → Option PresetInfo → Text
label_of d none = d
label_of d (some p) = p.label

abbrev pub locked : Bool → Bool → Bool
locked busy transferring = busy || transferring

module _ {N : Type 0} where
  unfoldable pub receiver : Option (Snapshot N) → Receiver
  receiver s =
      if server_running s
      then Receiver.active
      else if server_error s
      then Receiver.error
      else Receiver.offline

  abbrev pub port_of : Config → Option (Snapshot N) → ℕ
  port_of config none = config.udp_port
  port_of config (some s) = s.server_port

  unfoldable pub bound_address : Config → Option (Snapshot N) → Text
  unfolding decimal
  bound_address config s = config.server_ip ++ (units ":" ++ decimal (port_of config s))

  abbrev pub is_multi : TopologySnapshot N → Bool
  is_multi t = ltb 1 (length t.paths)

  unfoldable pub preset_label : TopologySnapshot N → Text
  unfolding find text_eq
  preset_label t = label_of t.preset (find (λ p. text_eq p.id t.preset) t.presets)

  unfoldable pub scheduler_label : TopologySnapshot N → SchedulerLabel
  scheduler_label t =
      if not (is_multi t)
      then SchedulerLabel.single
      else if t.multipath.enabled
      then SchedulerLabel.multipath_on
      else SchedulerLabel.lane_a_only

  -- the switch of the scheduler is disabled, and the fields below it are shown
  abbrev pub switch_disabled : Bool → Bool → TopologySnapshot N → Bool
  switch_disabled busy transferring t = locked busy transferring || not (is_multi t)

  abbrev pub shows_policy : TopologySnapshot N → Bool
  shows_policy t = t.multipath.enabled && is_multi t

  -- the test of `commitWindow` on a finite number
  abbrev pub takes : ⦃num : Number N⦄ → N → N → Bool
  takes ⦃num⦄ n window =
      num.le (num.of_nat 4) n && (num.le n (num.of_nat 10000) && not (eq n window))

  module _ ⦃num : Number N⦄ (texts : NumberText N) where
    abbrev pub first_field : N → WindowField N
    first_field window = record { window = window; draft = texts.text_of window }

    -- the effect on `[mp.window]`
    unfoldable pub follow : N → WindowField N → WindowField N
    follow window f = if eq window f.window then f else first_field window

    -- NumberInput passes on the digits of what is typed
    unfoldable pub type_draft : Text → WindowField N → WindowField N
    unfolding cleaned
    type_draft value f = record f { draft = cleaned value }

    -- `commitWindow`, on leaving the field, and what it passes to `onSetMultipath`
    unfoldable pub commit_window : WindowField N → WindowField N × Option N
    commit_window f = elim (texts.finite_of f.draft) [
      | none ↦ (first_field f.window, none)
      | some n ↦ if takes n f.window then (f, some n) else (first_field f.window, none)
    ]
