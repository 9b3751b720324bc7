-- ===== src/Inspector.antt =====
-- frontend/components/NodeInspector.tsx: the form of a node's override. The children model its
-- console of log lines and the place of the floating card.
pub mod Console
pub mod Placement
pub mod Laws
pub mod Tests
use fast_share.Common.{ℕ, Bool, true, false, not, ◌&&◌, ◌||◌, Option, none, some, List, [], ◌∷◌}
use fast_share.Common.Tests.{if◌then◌else◌, ltb, or_else}
use fast_share.Common.Text.{Text, units}
use fast_share.Common.Number.{Number}
use fast_share.Topology.{TopologyNode, NodeConfigView}
use fast_share.Requests.{NodeConfigPatch}

pub record Form (N : Type 0) : Type 0 where
  pub latency : Text
  pub loss_on : Bool
  pub loss_prob : N
  pub corrupt_on : Bool
  pub corrupt_prob : N
  pub enabled : Bool

-- `String(n)`, and `Number(text)` where `Number.isInteger` holds of it and it is not negative.
pub record LatencyText (N : Type 0) : Type 0 where
  pub text_of : N → Text
  pub integer_of : Text → Option ℕ

-- The node that is shown, and the state of the component.
pub record Inspector (N : Type 0) : Type 0 where
  pub node : TopologyNode N
  pub form : Form N
  pub dirty : Bool
  pub error : Option Text

-- What can happen to the inspector; a node comes with another selection and with every topology.
pub data Edit (N : Type 0) : Type 0 where
  node_shown : TopologyNode N → Edit N
  latency_typed : Text → Edit N
  loss_toggled corrupt_toggled enabled_toggled : Bool → Edit N
  loss_picked corrupt_picked : N → Edit N
  save_begun : Edit N
  save_answered reset_answered : Bool → Edit N

module _ {N : Type 0} ⦃num : Number N⦄ (texts : LatencyText N) where
  -- the configuration that `c?.x ?? d` falls back on
  abbrev pub fallback : NodeConfigView N
  fallback = record {
    latency_ms = num.of_nat 10;
    loss_enabled = false;
    loss_probability = num.lit 1 1;
    corrupt_enabled = false;
    corrupt_probability = num.lit 1 1;
    enabled = true;
  }

  unfoldable pub from_node : TopologyNode N → Form N
  from_node node =
      let c = or_else node.config fallback in
      record {
        latency = texts.text_of c.latency_ms;
        loss_on = c.loss_enabled;
        loss_prob = c.loss_probability;
        corrupt_on = c.corrupt_enabled;
        corrupt_prob = c.corrupt_probability;
        enabled = c.enabled;
      }

  abbrev pub opened : TopologyNode N → Inspector N
  opened node = record { node = node; form = from_node node; dirty = false; error = none }

  -- the effect on `[node, dirty]`
  unfoldable pub settle : Inspector N → Inspector N
  settle s = if not s.dirty then record s { form = from_node s.node } else s

  abbrev pub touch : Inspector N → Inspector N
  touch s = record s { dirty = true; error = none }

  abbrev pub change_form : (Form N → Form N) → Inspector N → Inspector N
  change_form f s = record (touch s) { form = f s.form }

  abbrev pub latency_message : Text
  latency_message = units "Hop latency must be 1–1000 ms."

  unfoldable pub validate : Form N → Option Text
  validate f = elim (texts.integer_of f.latency) [
    | none ↦ some latency_message
    | some n ↦ if ltb n 1 || ltb 1000 n then some latency_message else none
  ]

  -- the argument of `onSave`
  unfoldable pub patch : Text → Form N → NodeConfigPatch N
  patch id f = record {
    id = id;
    reset = none;
    latency_ms = texts.integer_of f.latency;
    loss_enabled = some f.loss_on;
    loss_probability = some f.loss_prob;
    corrupt_enabled = some f.corrupt_on;
    corrupt_probability = some f.corrupt_prob;
    enabled = some f.enabled;
  }

  -- `save` until it waits for `onSave`, and what it passes to it
  unfoldable pub save : Inspector N → Inspector N × Option (NodeConfigPatch N)
  unfolding validate patch
  save s = elim (validate s.form) [
    | some msg ↦ (record s { error = some msg }, none)
    | none ↦ (s, some (patch s.node.id s.form))
  ]

  -- the rest of `save` and of `reset`, with the effect that a change of `dirty` runs
  unfoldable pub answered : Bool → Inspector N → Inspector N
  unfolding settle
  answered ok s = if ok then settle (record s { dirty = false; error = none }) else s

  -- another node, or the same one with another configuration
  unfoldable pub show_node : TopologyNode N → Inspector N → Inspector N
  unfolding settle
  show_node node s = settle (record s { node = node })

  unfoldable pub edit : Edit N → Inspector N → Inspector N
  unfolding show_node save answered
  edit (Edit.node_shown node) s = show_node node s
  edit (Edit.latency_typed v) s = change_form (λ f. record f { latency = v }) s
  edit (Edit.loss_toggled v) s = change_form (λ f. record f { loss_on = v }) s
  edit (Edit.loss_picked v) s = change_form (λ f. record f { loss_prob = v }) s
  edit (Edit.corrupt_toggled v) s = change_form (λ f. record f { corrupt_on = v }) s
  edit (Edit.corrupt_picked v) s = change_form (λ f. record f { corrupt_prob = v }) s
  edit (Edit.enabled_toggled v) s = change_form (λ f. record f { enabled = v }) s
  edit Edit.save_begun s = (save s).0
  edit (Edit.save_answered ok) s = answered ok s
  edit (Edit.reset_answered ok) s = answered ok s

  -- `busy || !dirty`, with which the button of `save` is disabled
  abbrev pub can_save : Bool → Inspector N → Bool
  can_save busy s = not (busy || not s.dirty)
