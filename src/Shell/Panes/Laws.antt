-- ===== src/Shell/Panes/Laws.antt =====
-- The left sidebar always shows one pane, below the heading of its tab.
use fast_share.Common.{◌≡◌, refl, not, ◌&&◌, Option, none, some, List, [], ◌∷◌}
use fast_share.Common.Tests.{if◌then◌else◌, is_some}
use fast_share.Common.Lists.{find}
use fast_share.Common.Number.{Number}
use fast_share.Topology.{TopologySnapshot, TopologyNode}
use fast_share.Shell.{LeftTab, Shell, tab_eq, selected_node, left_tab, left_tabs}
use fast_share.Shell.Panes.{LeftPane, tab_of, active_tab, panes_of, left_panes, left_heading}

-- The tab that is shown for a chosen tab and a selected node, and the tabs that there are.
abbrev shown_tab : {N : Type 0} → LeftTab → Option (TopologyNode N) → LeftTab
shown_tab tab selected =
    if tab_eq tab LeftTab.node && not (is_some selected) then LeftTab.config else tab

abbrev tabs_for : {N : Type 0} → Option (TopologyNode N) → List LeftTab
tabs_for selected =
    LeftTab.config ∷ (LeftTab.lab ∷ (if is_some selected then LeftTab.node ∷ [] else []))

one_pane :
    {N : Type 0} (tab : LeftTab) (selected : Option (TopologyNode N))
    → (p : LeftPane N) × (panes_of (shown_tab tab selected) selected ≡ p ∷ [])
      × (active_tab (shown_tab tab selected) (tabs_for selected) ≡ some (tab_of p))
unfolding panes_of active_tab find
one_pane LeftTab.config none = (LeftPane.config, refl, refl)
one_pane LeftTab.config (some n) = (LeftPane.config, refl, refl)
one_pane LeftTab.lab none = (LeftPane.lab, refl, refl)
one_pane LeftTab.lab (some n) = (LeftPane.lab, refl, refl)
one_pane LeftTab.node none = (LeftPane.config, refl, refl)
one_pane LeftTab.node (some n) = (LeftPane.node n, refl, refl)

module _ {N : Type 0} ⦃num : Number N⦄ where
  -- Whatever is selected and chosen, the left sidebar shows exactly one pane, and its heading is
  -- that of the pane.
  left_panes-one :
      (t : Option (TopologySnapshot N)) (s : Shell N)
      → (p : LeftPane N) × (left_panes t s ≡ p ∷ []) × (left_heading t s ≡ some (tab_of p))
  unfolding left_panes left_heading left_tab left_tabs
  left_panes-one t s = one_pane s.left_state (selected_node t s)
