-- ===== src/Inspector/Tests.antt =====
-- The inspector on the sample nodes: its form, its console and its place.
use fast_share.Common.{◌≡◌, refl, true, false, none, some, List, [], ◌∷◌, arith, ℕ, ◌⊎◌, ◌/◌}
use fast_share.Common.Text.{Text, units, decimal, digits_value}
use fast_share.Common.Number.Hundredths.{hundredths, hundredths_laws}
use fast_share.Topology.{TopologyRole, TopologyNode, NodeLogLine}
use fast_share.Samples.{node}
use fast_share.Options.{prob_options}
use fast_share.Inspector.{
  LatencyText, Inspector, Edit, opened, edit, save, patch, show_node, from_node, can_save,
}
use fast_share.Inspector.Laws.{edits, edits-IsSynced, save-show_node, IsInRange}
use fast_share.Inspector.Console.{Console, Reply, mounted, pull_logs, switch, answer}
use fast_share.Inspector.Console.Laws.{Reach, Step, Reach-IsShown}
use fast_share.Inspector.Placement.{Anchor, Bounds, place, place-IsInside, IsInside, card_w, card_h}

-- Texts of hundredths: the latencies of the tests are whole.
abbrev latencies : LatencyText ℕ
latencies = record { text_of = λ n. decimal (n / 100); integer_of = λ t. some (digits_value t) }

abbrev node_a : TopologyNode ℕ
node_a = node (units "a1") TopologyRole.router 6202

abbrev node_b : TopologyNode ℕ
node_b = node (units "b1") TopologyRole.router 6203

abbrev typed : List (Edit ℕ)
typed = Edit.latency_typed (units "250") ∷ (Edit.corrupt_toggled true ∷ [])

abbrev edited : Inspector ℕ
edited = edits latencies typed (opened latencies node_a)

opened_form : (opened latencies node_a).form.latency ≡ units "10"
unfolding from_node decimal
opened_form = refl

-- What is typed for a node is saved, and the button waits for a change.
saved_typed :
    (save latencies edited).1
    ≡ some (record (patch latencies (units "a1") (from_node latencies node_a)) {
      latency_ms = some 250;
      corrupt_enabled = some true;
    })
unfolding edit save from_node digits_value
saved_typed = refl

nothing_to_save : can_save latencies false (opened latencies node_a) ≡ false
nothing_to_save = refl

too_slow :
    (save latencies
      (edits latencies (Edit.latency_typed (units "1001") ∷ []) (opened latencies node_a))).1
    ≡ none
unfolding edit save digits_value
too_slow = refl

-- Saved, and then another node is shown.
abbrev settled : Inspector ℕ
settled =
    edits latencies
      (Edit.latency_typed (units "250") ∷ (Edit.save_answered true ∷ (Edit.node_shown node_b ∷ [])))
      (opened latencies node_a)

settled_clean : settled.dirty ≡ false
unfolding edit
settled_clean = refl

edits-IsSynced_example : settled.form ≡ from_node latencies settled.node
edits-IsSynced_example =
    edits-IsSynced latencies
      (Edit.latency_typed (units "250") ∷ (Edit.save_answered true ∷ (Edit.node_shown node_b ∷ [])))
      node_a settled_clean

edited_dirty : edited.dirty ≡ true
unfolding edit
edited_dirty = refl

edited-IsInRange : IsInRange latencies edited.form
unfolding edit digits_value
edited-IsInRange = (250, refl, omega arith, omega arith)

save-show_node_example :
    (save latencies (show_node latencies node_b edited)).1
    ≡ some (patch latencies (units "b1") edited.form)
save-show_node_example = save-show_node latencies edited node_b edited_dirty edited-IsInRange

abbrev line : NodeLogLine ℕ
line = record { t = 0; text = units "a1 up" }

-- The answer to a refresh by the button comes after another node is shown: its lines are shown.
late_refresh_shown :
    (answer 1
      (Reply.lines (line ∷ []))
      (switch (units "b1") (pull_logs (mounted (units "a1"))))).logs
    ≡ line ∷ []
unfolding answer
late_refresh_shown = refl

-- The answer to a poll that comes so late is not.
late_poll_dropped :
    (answer 0
      (Reply.lines (line ∷ []))
      (switch (units "b1") (pull_logs (mounted (units "a1"))))).logs
    ≡ []
unfolding answer
late_poll_dropped = refl

-- In the sample, every line of a log starts with its node's name.
abbrev LogOf : Text → List (NodeLogLine ℕ) → Type 0
LogOf id ls = (id ≡ units "a1") × (ls ≡ line ∷ [])

abbrev shown : Console ℕ
shown = answer 0 (Reply.lines (line ∷ [])) (mounted (units "a1"))

Reach-IsShown_example : (shown.logs ≡ []) ⊎ LogOf shown.node shown.logs
Reach-IsShown_example = Reach-IsShown LogOf (
    Reach.next (Reach.start (units "a1")) (
      Step.replied 0 (record { node = units "a1"; run = some 0 }) (Reply.lines (line ∷ [])) refl
        (refl, refl)))

abbrev corner : Anchor ℕ
corner = record { x = 60000; y = 2000 }

abbrev canvas : Bounds ℕ
canvas = record { width = 64000; height = 48000 }

-- Near the right edge the card lies left of its node.
corner-place : place (some corner) (some canvas) ≡ some (record { left = 26600; top = 800 })
unfolding place
corner-place = refl

place-IsInside_example : IsInside {N = ℕ} 26600 64000 card_w × IsInside {N = ℕ} 800 48000 card_h
place-IsInside_example =
    place-IsInside hundredths_laws corner canvas {p = record { left = 26600; top = 800 }}
      corner-place

choices : prob_options {N = ℕ} 30 ≡ 5 ∷ (10 ∷ (25 ∷ (30 ∷ (50 ∷ (90 ∷ [])))))
unfolding prob_options
choices = refl
