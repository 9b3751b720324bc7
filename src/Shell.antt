-- ===== src/Shell.antt =====
-- frontend/app/page.tsx: the tabs, the drawers, the picked route and the speed of the animation. The
-- widths and the visibility of the sidebars are those of PanelLayout.
pub mod Actions
pub mod Panes
pub mod Laws
pub mod Tests
use fast_share.Common.{ℕ, ◌≡◌, Bool, true, false, not, ◌&&◌, Option, none, some, List, [], ◌∷◌}
use fast_share.Common.Tests.{if◌then◌else◌, is_some}
use fast_share.Common.Lists.{find, any}
use fast_share.Common.Text.{Text, units, text_eq}
use fast_share.Common.Number.{Number, eq}
use fast_share.Topology.{TopologyNode, TopologySnapshot}
use fast_share.Types.{Snapshot}
use fast_share.PanelLayout.{Layout, toggle_left, toggle_right, close_all}
use fast_share.Selection.{on_key}

pub data LeftTab : Type 0 where
  config lab node : LeftTab

pub data RightTab : Type 0 where
  stats packets : RightTab

pub record Pick : Type 0 where
  pub source : Text
  pub dest : Text

pub record Shell (N : Type 0) : Type 0 where
  pub layout : Layout N
  pub left_state : LeftTab
  pub right_tab : RightTab
  pub selected : Option Text
  pub route_pick : Option Pick
  pub anim_speed : N

abbrev pub tab_eq : LeftTab → LeftTab → Bool
tab_eq LeftTab.config LeftTab.config = true
tab_eq LeftTab.lab LeftTab.lab = true
tab_eq LeftTab.node LeftTab.node = true
tab_eq _ b = false

-- What the handlers of the page do.
pub data Act : Type 0 where
  left_toggled right_toggled config_opened all_closed : Act
  node_selected : Option Text → Act
  left_picked : LeftTab → Act
  right_picked : RightTab → Act
  route_picked : Pick → Act
  key_pressed : Text → Act

module _ {N : Type 0} ⦃num : Number N⦄ where
  abbrev pub with_layout : Layout N → Shell N → Shell N
  with_layout l s = record s { layout = l }

  abbrev pub hide_right : Shell N → Shell N
  hide_right s = record s { layout = record s.layout { right_visible = false } }

  abbrev pub hide_left : Shell N → Shell N
  hide_left s = record s { layout = record s.layout { left_visible = false } }

  abbrev pub show_left : Shell N → Shell N
  show_left s = record s { layout = record s.layout { left_visible = true } }

  abbrev pub set_tab : Option LeftTab → Shell N → Shell N
  set_tab none s = s
  set_tab (some t) s = record s { left_state = t }

  -- `desktop` is what `isDesktop()` answers
  unfoldable pub open_left : Bool → Option LeftTab → Shell N → Shell N
  open_left desktop tab s =
      let s' = set_tab tab s in if not desktop then show_left (hide_right s') else show_left s'

  unfoldable pub toggle_left_side : Bool → Shell N → Shell N
  toggle_left_side desktop s =
      if not s.layout.left_visible && not desktop
      then with_layout (toggle_left (hide_right s).layout) s
      else with_layout (toggle_left s.layout) s

  unfoldable pub toggle_right_side : Bool → Shell N → Shell N
  toggle_right_side desktop s =
      if not s.layout.right_visible && not desktop
      then with_layout (toggle_right (hide_left s).layout) s
      else with_layout (toggle_right s.layout) s

  abbrev pub open_config : Bool → Shell N → Shell N
  open_config desktop s = open_left desktop (some LeftTab.config) s

  -- `if (id) openLeft("node")`: the empty id is falsy
  unfoldable pub select_node : Bool → Option Text → Shell N → Shell N
  select_node desktop none s = record s { selected = none }
  select_node desktop (some []) s = record s { selected = some [] }
  select_node desktop (some (c ∷ id)) s =
      open_left desktop (some LeftTab.node) (record s { selected = some (c ∷ id) })

  unfoldable pub act : Bool → Act → Shell N → Shell N
  unfolding open_left toggle_left_side toggle_right_side select_node
  act desktop Act.left_toggled s = toggle_left_side desktop s
  act desktop Act.right_toggled s = toggle_right_side desktop s
  act desktop Act.config_opened s = open_config desktop s
  act desktop Act.all_closed s = with_layout (close_all s.layout) s
  act desktop (Act.node_selected id) s = select_node desktop id s
  act desktop (Act.left_picked t) s = record s { left_state = t }
  act desktop (Act.right_picked t) s = record s { right_tab = t }
  act desktop (Act.route_picked p) s = record s { route_pick = some p }
  act desktop (Act.key_pressed k) s = record s { selected = on_key k s.selected }

  -- `topology?.nodes.find((n) => n.id === selectedNode) ?? null`
  unfoldable pub selected_node : Option (TopologySnapshot N) → Shell N → Option (TopologyNode N)
  unfolding find text_eq
  selected_node none s = none
  selected_node (some t) s = elim s.selected [
    | none ↦ none
    | some id ↦ find (λ n. text_eq n.id id) t.nodes
  ]

  unfoldable pub left_tab : Option (TopologySnapshot N) → Shell N → LeftTab
  unfolding selected_node
  left_tab t s =
      if tab_eq s.left_state LeftTab.node && not (is_some (selected_node t s))
      then LeftTab.config
      else s.left_state

  unfoldable pub left_tabs : Option (TopologySnapshot N) → Shell N → List LeftTab
  unfolding selected_node
  left_tabs t s =
      LeftTab.config
      ∷ (LeftTab.lab ∷ (if is_some (selected_node t s) then LeftTab.node ∷ [] else []))

  abbrev pub topology_on : Option (TopologySnapshot N) → Option (Snapshot N) → Bool
  topology_on t none = false
  topology_on t (some s) = s.config.topology_enabled && is_some t

  unfoldable pub active_pick : Option (TopologySnapshot N) → Shell N → Option Pick
  active_pick t s = elim s.route_pick [
    | some p ↦ some p
    | none ↦ elim t [ none ↦ none | some g ↦ some (record { source = g.source; dest = g.dest }) ]
  ]

  -- what a transfer is started with
  unfoldable pub topology_pick :
      Option (TopologySnapshot N) → Option (Snapshot N) → Shell N → Option Pick
  unfolding active_pick
  topology_pick t status s = if topology_on t status then active_pick t s else none

  abbrev pub anim_speeds : List N
  anim_speeds = num.lit 25 2 ∷ (num.lit 5 1 ∷ (num.of_nat 1 ∷ []))

  -- `changeAnimSpeed`, and the text that it stores; `text_of` is `String`
  abbrev pub change_speed : N → Shell N → Shell N
  change_speed v s = record s { anim_speed = v }

  -- the effect on `prefersReducedMotion`; `stored` is `Number` of the stored text, `none` where
  -- nothing is stored, it is no number, or the storage throws
  unfoldable pub hydrate_speed : Bool → Option N → Shell N → Shell N
  unfolding any
  hydrate_speed reduced stored s =
      let slow : Shell N = if reduced then record s { anim_speed = num.lit 25 2 } else s in
      elim stored [
        | none ↦ slow
        | some v ↦ if any (λ a. eq a v) anim_speeds then record s { anim_speed = v } else slow
      ]
