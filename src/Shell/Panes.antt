-- ===== src/Shell/Panes.antt =====
-- frontend/app/page.tsx, what the page renders of its state, with the heading that
-- frontend/components/SidePanel.tsx gives the pane of a sidebar.
pub mod Laws
use fast_share.Common.{
  ℕ, Bool, true, false, not, ◌&&◌, ◌||◌, Option, none, some, List, [], ◌∷◌, ◌++◌,
}
use fast_share.Common.Tests.{if◌then◌else◌, is_some}
use fast_share.Common.Lists.{find}
use fast_share.Common.Number.{Number}
use fast_share.Topology.{TopologySnapshot, TopologyNode}
use fast_share.Types.{Snapshot}
use fast_share.Dock.{transferring}
use fast_share.Shell.{
  LeftTab, RightTab, Pick, Shell, tab_eq, selected_node, left_tab, left_tabs, topology_on,
  active_pick,
}

pub data LeftPane (N : Type 0) : Type 0 where
  config lab : LeftPane N
  node : TopologyNode N → LeftPane N

-- The island with the route picker: the ends that it shows, and whether it is disabled.
pub record Island : Type 0 where
  pub pick : Pick
  pub disabled : Bool

abbrev pub tab_of : {N : Type 0} → LeftPane N → LeftTab
tab_of LeftPane.config = LeftTab.config
tab_of LeftPane.lab = LeftTab.lab
tab_of (LeftPane.node n) = LeftTab.node

-- SidePanel: `tabs.find((t) => t.id === value) ?? tabs[0]`, `none` without tabs
unfoldable pub active_tab : LeftTab → List LeftTab → Option LeftTab
unfolding find
active_tab value tabs = elim (find (λ t. tab_eq t value) tabs) [
  | some t ↦ some t
  | none ↦ elim tabs [ [] ↦ none | ◌∷◌ t ts ↦ some t ]
]

-- the children of the left SidePanel
unfoldable pub panes_of : {N : Type 0} → LeftTab → Option (TopologyNode N) → List (LeftPane N)
panes_of LeftTab.config selected = LeftPane.config ∷ []
panes_of LeftTab.lab selected = LeftPane.lab ∷ []
panes_of LeftTab.node none = []
panes_of LeftTab.node (some n) = LeftPane.node n ∷ []

module _ {N : Type 0} ⦃num : Number N⦄ where
  unfoldable pub left_panes : Option (TopologySnapshot N) → Shell N → List (LeftPane N)
  unfolding panes_of left_tab selected_node
  left_panes t s = panes_of (left_tab t s) (selected_node t s)

  unfoldable pub left_heading : Option (TopologySnapshot N) → Shell N → Option LeftTab
  unfolding active_tab left_tab left_tabs
  left_heading t s = active_tab (left_tab t s) (left_tabs t s)

  -- `topologyOn && topology && activePick`
  unfoldable pub island :
      Bool → Option (TopologySnapshot N) → Option (Snapshot N) → Shell N → Option Island
  unfolding active_pick
  island busy t status s = elim (active_pick t s) [
    | none ↦ none
    | some p ↦
        if topology_on t status
        then some (record { pick = p; disabled = transferring status || busy })
        else none
  ]

  -- the backdrop that closes both sidebars
  abbrev pub shows_backdrop : Shell N → Bool
  shows_backdrop s = s.layout.left_visible || s.layout.right_visible
