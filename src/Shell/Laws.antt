-- ===== src/Shell/Laws.antt =====
-- The drawers, the tabs and the speed of the page, and what a test run sends.
use fast_share.Common.{
  ◌≡◌, refl, Bool, true, false, ◌&&◌, Option, none, some, List, [], ◌∷◌, ◌++◌, arith, inl, inr,
}
use fast_share.Common.Tests.{Bool-cases, is_some, if◌then◌else◌}
use fast_share.Common.Lists.{any}
use fast_share.Common.Text.{Text}
use fast_share.Common.Number.{Number, NumberLaws, eq}
use fast_share.Topology.{TopologySnapshot}
use fast_share.Types.{TestingConfig}
use fast_share.Requests.{
  Request, Fetched, Texts, json, testing_config, start_transfer, status, topology,
}
use fast_share.Requests.Actions.{Hook, Action, perform, run_once, succeeded}
use fast_share.Requests.{Result}
use fast_share.Requests.Actions.{start, Ran, refresh_requests}
use mathlib.Core.List.{append_assoc, append-nil}
use fast_share.Shell.Actions.{run_test, source_of, dest_of}
use fast_share.Shell.{
  Pick, Shell, LeftTab, Act, act, left_tab, left_tabs, selected_node, tab_eq, hydrate_speed,
  anim_speeds,
}

module _ {N : Type 0} ⦃num : Number N⦄ where
  abbrev pub acts : Bool → List Act → Shell N → Shell N
  acts desktop [] s = s
  acts desktop (a ∷ es) s = acts desktop es (act desktop a s)

  -- At most one sidebar is open.
  abbrev pub HasOneDrawer : Shell N → Type 0
  HasOneDrawer s = s.layout.left_visible && s.layout.right_visible ≡ false

  act-HasOneDrawer : (a : Act) (s : Shell N) → HasOneDrawer s → HasOneDrawer (act false a s)
  unfolding act
  act-HasOneDrawer Act.left_toggled s h = ground arith
  act-HasOneDrawer Act.right_toggled s h = ground arith
  act-HasOneDrawer Act.config_opened s h = ground arith
  act-HasOneDrawer Act.all_closed s h = refl
  act-HasOneDrawer (Act.node_selected none) s h = h
  act-HasOneDrawer (Act.node_selected (some [])) s h = h
  act-HasOneDrawer (Act.node_selected (some (c ∷ id))) s h = ground arith
  act-HasOneDrawer (Act.left_picked t) s h = h
  act-HasOneDrawer (Act.right_picked t) s h = h
  act-HasOneDrawer (Act.route_picked p) s h = h
  act-HasOneDrawer (Act.key_pressed k) s h = h

  -- Below the desktop width the handlers of the page, in whatever order, leave at most one
  -- sidebar open if at most one was open.
  pub acts-HasOneDrawer :
      (es : List Act) (s : Shell N) → HasOneDrawer s → HasOneDrawer (acts false es s)
  acts-HasOneDrawer [] s h = h
  acts-HasOneDrawer (a ∷ es) s h = acts-HasOneDrawer es (act false a s) (act-HasOneDrawer a s h)

  -- The tab that is shown is one of those offered, and the NODE tab only while a node is selected.
  left_tab-offered :
      (t : Option (TopologySnapshot N)) (s : Shell N)
      → (any (tab_eq (left_tab t s)) (left_tabs t s) ≡ true)
        × (left_tab t s ≡ LeftTab.node → is_some (selected_node t s) ≡ true)
  unfolding left_tab left_tabs any
  left_tab-offered t s = (ground arith, ground arith)

  module _ (laws : NumberLaws num) where
    -- The speed that is read from the storage, or taken for less motion, is one of those offered.
    hydrate_speed-offered :
        (reduced : Bool) (stored : Option N) (s : Shell N)
        → any (λ a. eq a s.anim_speed) anim_speeds ≡ true
        → any (λ a. eq a (hydrate_speed reduced stored s).anim_speed) anim_speeds ≡ true
    unfolding hydrate_speed any
    hydrate_speed-offered true none s h =
        ground (arith, laws.le_total (num.lit 25 2) (num.lit 25 2))
    hydrate_speed-offered false none s h = h
    hydrate_speed-offered true (some v) s h =
        ground (arith, laws.le_total (num.lit 25 2) (num.lit 25 2))
    hydrate_speed-offered false (some v) s h = ground (arith, h)

module _ {N : Type 0} ⦃num : Number N⦄ (texts : Texts N) (fetch : Request N → Fetched N) where
  -- What a test run sends after the refresh that follows the faults: with a file, and if they were
  -- accepted, the start of a transfer; and a second refresh even where there is no file to start
  -- with.
  abbrev pub after_faults : Option Text → Option Pick → Result N → List (Request N)
  after_faults file pick (Result.failure msg) = []
  after_faults none pick (Result.value v) = status ∷ topology ∷ []
  after_faults (some f) pick (Result.value v) =
      start_transfer texts f true (source_of pick) (dest_of pick) ∷ status ∷ topology ∷ []

  after_faults_if :
      (file : Option Text) (pick : Option Pick) (r : Result N)
      → after_faults file pick r ≡ (
          if succeeded r
          then (start texts fetch file true (source_of pick) (dest_of pick)).requests
            ++ refresh_requests
          else [])
  unfolding start
  after_faults_if none pick (Result.value v) = refl
  after_faults_if none pick (Result.failure msg) = refl
  after_faults_if (some f) pick (Result.value v) = refl
  after_faults_if (some f) pick (Result.failure msg) = refl

  -- Two runs, the second only if the first succeeds.
  two_runs : (ran later : Ran N) (h : Hook N) → Hook N
  two_runs ran later h = let (h', ok) = run_once ran h in if ok then (run_once later h').0 else h'

  two_runs-sent :
      (ran later : Ran N) (h : Hook N)
      → ((two_runs ran later h).sent
          ≡ h.sent
            ++ ((ran.requests ++ refresh_requests)
                ++ (if succeeded ran.result then later.requests ++ refresh_requests else [])))
        × ((two_runs ran later h).busy ≡ false)
  unfolding two_runs run_once
  two_runs-sent ran later h = elim (Bool-cases (succeeded ran.result)) [
    | inl e ↦ simp (e, append_assoc) (refl, refl)
    | inr e ↦ simp (e, append_assoc, append-nil) (refl, refl)
  ]

  -- A test run sends the faults and the two requests of the refresh after them; then, only if
  -- the faults were accepted and a file is selected, the start of a transfer between the picked
  -- ends; and, if the faults were accepted, the requests of a second refresh, also where no file
  -- is selected. No action sends anything else, and the busy flag is down at its end.
  pub run_test-sent :
      (file : Option Text) (cfg : TestingConfig N) (pick : Option Pick) (h : Hook N)
      → ((run_test texts fetch file cfg pick h).sent
          ≡ h.sent
            ++ testing_config cfg
              ∷ status
              ∷ topology
              ∷ after_faults file pick (json texts (fetch (testing_config cfg))))
        × ((run_test texts fetch file cfg pick h).busy ≡ false)
  unfolding run_test perform two_runs
  run_test-sent file cfg pick h =
      rw (after_faults_if file pick (json texts (fetch (testing_config cfg)))) (
        two_runs-sent (perform texts fetch file (Action.testing_applied cfg))
          (perform texts fetch file (Action.transfer_started true (source_of pick) (dest_of pick)))
          h)
