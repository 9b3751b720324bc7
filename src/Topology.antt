-- ===== src/Topology.antt =====
-- frontend/lib/topology.ts: the answer of GET /api/topology, and the scheduler's state.
-- `N` is the type of numbers that need not be whole; `undefined` and `null` are `none`.
use fast_share.Common.{ℕ, Bool, List, Option}
use fast_share.Common.Text.{Text}

pub data TopologyRole : Type 0 where
  hub cluster leaf source dest router : TopologyRole

-- Effective per-node config: the node's override, else the global values.
pub record NodeConfigView (N : Type 0) : Type 0 where
  pub latency_ms : N
  pub loss_enabled : Bool
  pub loss_probability : N
  pub corrupt_enabled : Bool
  pub corrupt_probability : N
  pub enabled : Bool

pub record TopologyNode (N : Type 0) : Type 0 where
  pub id : Text
  pub label : Text
  pub role : TopologyRole
  pub host : Text
  pub port : ℕ
  pub up : Bool
  pub config : Option (NodeConfigView N)

pub record TopologyLink (N : Type 0) : Type 0 where
  pub id : Text
  pub a : Text
  pub b : Text
  pub latency_ms : N

pub record LinkStats (N : Type 0) : Type 0 where
  pub data_packets : ℕ
  pub ack_packets : ℕ
  pub dropped : ℕ
  pub latency_ms : N

pub record PresetInfo : Type 0 where
  pub id : Text
  pub label : Text
  pub source : Text
  pub dest : Text

pub record MultipathPolicy (N : Type 0) : Type 0 where
  pub enabled : Bool
  pub window : N
  pub flag_loss : N
  pub recover_loss : N
  pub probe_share : N
  pub explore_per_lane : ℕ
  pub min_samples : ℕ

-- `link_stats` is a dictionary: an association list by link id.
pub record TopologySnapshot (N : Type 0) : Type 0 where
  pub enabled : Bool
  pub nodes : List (TopologyNode N)
  pub links : List (TopologyLink N)
  pub route : Option (List Text)
  pub source : Text
  pub dest : Text
  pub link_stats : List (Text × LinkStats N)
  pub preset : Text
  pub presets : List PresetInfo
  pub paths : List (List Text)
  pub multipath : MultipathPolicy N

-- Per-lane rolling stats from the source-side scheduler.
pub record SchedulerLane (N : Type 0) : Type 0 where
  pub lane : ℕ
  pub name : Text
  pub sent : ℕ
  pub lost : ℕ
  pub attempts : ℕ
  pub window_loss : N
  pub flagged : Bool
  pub weight : N

pub data SchedulerMode : Type 0 where
  explore round_robin weighted single disabled : SchedulerMode

pub record SchedulerState (N : Type 0) : Type 0 where
  pub mode : SchedulerMode
  pub enabled : Bool
  pub window : N
  pub flag_loss : N
  pub recover_loss : N
  pub probe_share : N
  pub lanes : List (SchedulerLane N)

pub record NodeLogLine (N : Type 0) : Type 0 where
  pub t : N
  pub text : Text
