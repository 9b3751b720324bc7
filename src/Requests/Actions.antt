-- ===== src/Requests/Actions.antt =====
-- frontend/hooks/useTransferActions.ts: the actions of the dashboard, each through `runOnce`.
use fast_share.Common.{ℕ, suc, Bool, true, false, Option, none, some, List, [], ◌∷◌, ◌++◌}
use fast_share.Common.Text.{Text, units}
use fast_share.Common.Number.{Number}
use fast_share.Types.{Config, TestingConfig}
use fast_share.Json.{Fields}
use fast_share.Requests.{
  Request, Fetched, Result, Texts, json, start_json, status, topology, start_transfer, save_config,
  NodeConfigPatch, start_server, stop_server, cancel_transfer, testing_config, save_node_config,
  set_preset, multipath_config,
}

-- The state that the actions share, with the requests sent and the refreshes done so far.
pub record Hook (N : Type 0) : Type 0 where
  pub busy : Bool
  pub error : Option Text
  pub sent : List (Request N)
  pub refreshes : ℕ

-- What `fn()` does: the requests that it sends, and what its promise settles with.
pub record Ran (N : Type 0) : Type 0 where
  pub requests : List (Request N)
  pub result : Result N

module _ {N : Type 0} (texts : Texts N) (fetch : Request N → Fetched N) where
  -- an action of one request
  abbrev pub send : Request N → Ran N
  send r = record { requests = r ∷ []; result = json texts (fetch r) }

  -- `post(...).then(() => api.status())`
  unfoldable pub then_status : Ran N → Ran N
  then_status ran = elim ran.result [
    | Result.failure msg ↦ ran
    | Result.value v ↦ record {
      requests = ran.requests ++ status ∷ [];
      result = json texts (fetch status);
    }
  ]

  -- `startTransfer`: without a file it throws before anything is sent
  unfoldable pub start : Option Text → Bool → Option Text → Option Text → Ran N
  start none resume source dest = record {
    requests = [];
    result = Result.failure (units "no file selected");
  }
  start (some file) resume source dest =
      let r = start_transfer texts file resume source dest in
      record { requests = r ∷ []; result = start_json texts (fetch r) }

-- what `refreshStatus` asks for, both at once
abbrev pub refresh_requests : {N : Type 0} → List (Request N)
refresh_requests = status ∷ topology ∷ []

-- `runOnce` until `fn()` settles
abbrev pub begin_run : {N : Type 0} → Hook N → Hook N
begin_run h = record h { busy = true; error = none }

abbrev pub error_of : {N : Type 0} → Result N → Option Text
error_of (Result.value v) = none
error_of (Result.failure msg) = some msg

-- the rest of `runOnce`: the state after the refresh
abbrev pub end_run : {N : Type 0} → Ran N → Hook N → Hook N
end_run ran h = record h {
  busy = false;
  error = elim ran.result [ Result.value v ↦ h.error | Result.failure msg ↦ some msg ];
  sent = h.sent ++ (ran.requests ++ refresh_requests);
  refreshes = suc h.refreshes;
}

abbrev pub succeeded : {N : Type 0} → Result N → Bool
succeeded (Result.value v) = true
succeeded (Result.failure msg) = false

unfoldable pub run_once : {N : Type 0} → Ran N → Hook N → Hook N × Bool
run_once ran h = (end_run ran (begin_run h), succeeded ran.result)

-- The actions that the hook returns.
pub data Action (N : Type 0) : Type 0 where
  server_started server_stopped transfer_cancelled : Action N
  config_saved : Config → Action N
  testing_applied : TestingConfig N → Action N
  node_config_saved : NodeConfigPatch N → Action N
  node_config_reset preset_set : Text → Action N
  multipath_set : Fields N → Action N
  transfer_started : Bool → Option Text → Option Text → Action N

-- `{ id, reset: true }`
abbrev pub reset_of : {N : Type 0} → Text → NodeConfigPatch N
reset_of id = record {
  id = id;
  reset = some true;
  latency_ms = none;
  loss_enabled = none;
  loss_probability = none;
  corrupt_enabled = none;
  corrupt_probability = none;
  enabled = none;
}

module _ {N : Type 0} ⦃num : Number N⦄ (texts : Texts N) (fetch : Request N → Fetched N) where
  -- what each action gives to `runOnce`; `file` is the selected one
  unfoldable pub perform : Option Text → Action N → Ran N
  unfolding then_status start
  perform file Action.server_started = send texts fetch start_server
  perform file Action.server_stopped = send texts fetch stop_server
  perform file Action.transfer_cancelled = send texts fetch cancel_transfer
  perform file (Action.config_saved c) = then_status texts fetch (send texts fetch (save_config c))
  perform file (Action.testing_applied c) = send texts fetch (testing_config c)
  perform file (Action.node_config_saved p) = send texts fetch (save_node_config p)
  perform file (Action.node_config_reset id) = send texts fetch (save_node_config (reset_of id))
  perform file (Action.preset_set name) = send texts fetch (set_preset name)
  perform file (Action.multipath_set patch) = send texts fetch (multipath_config patch)
  perform file (Action.transfer_started resume source dest) =
      start texts fetch file resume source dest
