-- ===== src/Shell/Actions.antt =====
-- frontend/app/page.tsx: what the page makes of an action's answer.
use fast_share.Common.{Bool, true, Option, none, some}
use fast_share.Common.Tests.{if◌then◌else◌}
use fast_share.Common.Text.{Text}
use fast_share.Common.Number.{Number}
use fast_share.Types.{TestingConfig}
use fast_share.Requests.{Request, Fetched, Texts}
use fast_share.Requests.Actions.{Hook, Action, perform, run_once}
use fast_share.Shell.{Shell, Pick}

abbrev pub source_of : Option Pick → Option Text
source_of none = none
source_of (some p) = some p.source

abbrev pub dest_of : Option Pick → Option Text
dest_of none = none
dest_of (some p) = some p.dest

module _ {N : Type 0} ⦃num : Number N⦄ (texts : Texts N) (fetch : Request N → Fetched N) where
  -- an action through `runOnce`
  abbrev pub act_on : Option Text → Action N → Hook N → Hook N × Bool
  act_on file a h = run_once (perform texts fetch file a) h

  -- `onStart`
  abbrev pub start_transfer : Option Text → Bool → Option Pick → Hook N → Hook N × Bool
  start_transfer file resume pick h =
      act_on file (Action.transfer_started resume (source_of pick) (dest_of pick)) h

  -- `onRunTest`: the faults first, then the transfer
  unfoldable pub run_test : Option Text → TestingConfig N → Option Pick → Hook N → Hook N
  run_test file cfg pick h =
      let (applied, ok) = act_on file (Action.testing_applied cfg) h in
      if ok then (start_transfer file true pick applied).0 else applied

  -- `onSetPreset`: a new preset drops the picked route
  unfoldable pub set_preset : Option Text → Text → Shell N → Hook N → Shell N × Hook N
  set_preset file name s h =
      let (h', ok) = act_on file (Action.preset_set name) h in
      (if ok then record s { route_pick = none } else s, h')
