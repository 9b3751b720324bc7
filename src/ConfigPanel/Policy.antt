-- ===== src/ConfigPanel/Policy.antt =====
-- frontend/components/tabs/ConfigTab.tsx: what the controls of the topology panel send, and the
-- choices of its selects.
use fast_share.Common.{Bool, not, ◌&&◌, Option, none, some, List, [], ◌∷◌, ◌++◌}
use fast_share.Common.Tests.{if◌then◌else◌}
use fast_share.Common.Lists.{length}
use fast_share.Common.Text.{Text, units, decimal}
use fast_share.Common.Number.{Number}
use fast_share.Topology.{TopologySnapshot}
use fast_share.Options.{with_current}
use fast_share.ConfigPanel.{
  WindowField, NumberText, is_multi, locked, switch_disabled, shows_policy, commit_window,
}

-- A `Partial<MultipathPolicy>`, or the name of a preset.
pub data Sent (N : Type 0) : Type 0 where
  preset : Text → Sent N
  enabled : Bool → Sent N
  flag_loss probe_share window : N → Sent N

-- A choice in a select, a press of the switch, and leaving the field of the window.
pub data Control (N : Type 0) : Type 0 where
  preset_chosen : Text → Control N
  switched : Control N
  flag_chosen probe_chosen : N → Control N
  window_left : WindowField N → Control N

module _ {N : Type 0} where
  abbrev pub sent_window : Option N → List (Sent N)
  sent_window none = []
  sent_window (some n) = Sent.window n ∷ []

  unfoldable pub paths_text : TopologySnapshot N → Text
  unfolding decimal
  paths_text t =
      if is_multi t then decimal (length t.paths) ++ units " paths" else units "single path"

module _ {N : Type 0} ⦃num : Number N⦄ where
  -- FLAG_OPTIONS and PROBE_OPTIONS with the value that is set
  abbrev pub flag_options : N → List N
  flag_options value =
      with_current
        (num.lit 5 2
          ∷ num.lit 1 1
          ∷ num.lit 15 2
          ∷ num.lit 2 1
          ∷ num.lit 25 2
          ∷ num.lit 3 1
          ∷ num.lit 4 1
          ∷ num.lit 5 1
          ∷ [])
        value

  abbrev pub probe_options : N → List N
  probe_options value =
      with_current
        (num.lit 5 2 ∷ num.lit 1 1 ∷ num.lit 15 2 ∷ num.lit 2 1 ∷ num.lit 25 2 ∷ num.lit 3 1 ∷ [])
        value

  -- What a control sends; one that is disabled or not shown sends nothing.
  unfoldable pub sends : NumberText N → Bool → Bool → TopologySnapshot N → Control N → List (Sent N)
  unfolding commit_window
  sends texts busy transferring t (Control.preset_chosen name) =
      if locked busy transferring then [] else Sent.preset name ∷ []
  sends texts busy transferring t Control.switched =
      if switch_disabled busy transferring t
      then []
      else Sent.enabled (not t.multipath.enabled) ∷ []
  sends texts busy transferring t (Control.flag_chosen v) =
      if shows_policy t && not (locked busy transferring) then Sent.flag_loss v ∷ [] else []
  sends texts busy transferring t (Control.probe_chosen v) =
      if shows_policy t && not (locked busy transferring) then Sent.probe_share v ∷ [] else []
  sends texts busy transferring t (Control.window_left f) =
      if shows_policy t then sent_window (commit_window texts f).1 else []
