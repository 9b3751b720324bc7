-- ===== src/Shell/Tests.antt =====
-- The page on the sample topology.
use fast_share.Common.{◌≡◌, refl, ℕ, true, false, none, some, List, [], ◌∷◌, ◌++◌, ◌&&◌}
use fast_share.Common.Text.{units}
use fast_share.Common.Number.Hundredths.{hundredths}
use fast_share.Types.{TestingConfig}
use fast_share.PanelLayout.{defaults}
use fast_share.Json.{Json}
use fast_share.Requests.{Request, Fetched, Texts, json, testing_config}
use fast_share.Requests.Actions.{Hook, perform, run_once}
use fast_share.Samples.{topology, tri_snapshot, snapshot}
use fast_share.Shell.{Shell, LeftTab, RightTab, Act, act, left_tab, topology_pick, hydrate_speed}
use fast_share.Requests.{status as get_status, topology as get_topology}
use fast_share.Shell.Actions.{run_test, set_preset}
use fast_share.Shell.Laws.{acts, acts-HasOneDrawer, run_test-sent, after_faults}

abbrev first_shell : Shell ℕ
first_shell = record {
  layout = defaults;
  left_state = LeftTab.config;
  right_tab = RightTab.stats;
  selected = none;
  route_pick = none;
  anim_speed = 100;
}

-- On a phone both drawers are open at first, one over the other.
both_open : first_shell.layout.left_visible && first_shell.layout.right_visible ≡ true
unfolding defaults
both_open = refl

abbrev closed : Shell ℕ
closed = act false Act.all_closed first_shell

abbrev taps : List Act
taps = Act.left_toggled ∷ (Act.right_toggled ∷ (Act.node_selected (some (units "a1")) ∷ []))

tapped_tab : left_tab (some topology) (acts false taps closed) ≡ LeftTab.node
unfolding left_tab act
tapped_tab = refl

-- A node that is gone takes its tab with it.
gone_tab : left_tab none (acts false taps closed) ≡ LeftTab.config
unfolding left_tab act
gone_tab = refl

acts-HasOneDrawer_example :
    (acts false taps closed).layout.left_visible && (acts false taps closed).layout.right_visible
    ≡ false
unfolding act
acts-HasOneDrawer_example = acts-HasOneDrawer taps closed refl

-- The topology's own ends are used until others are picked, and none while it is off.
default_pick :
    topology_pick (some topology) (some tri_snapshot) first_shell
    ≡ some (record { source = units "src"; dest = units "dst" })
unfolding topology_pick
default_pick = refl

direct_pick : topology_pick (some topology) (some snapshot) first_shell ≡ none
unfolding topology_pick
direct_pick = refl

-- The stored speed wins over the system's wish for less motion.
stored_speed : (hydrate_speed true (some 50) first_shell).anim_speed ≡ 50
unfolding hydrate_speed
stored_speed = refl

abbrev plain_texts : Texts ℕ
plain_texts = record {
  text_of = λ v. units "?";
  null_read = units "null read";
  not_json = units "not json";
  encode = λ t. t;
}

abbrev accepting : Request ℕ → Fetched ℕ
accepting r = Fetched.answered (record { ok = true; status = 200; body = some (Json.flag true) })

abbrev rest : Hook ℕ
rest = record { busy = false; error = none; sent = []; refreshes = 0 }

abbrev faults : TestingConfig ℕ
faults = record {
  loss_enabled = true;
  loss_probability = 10;
  corrupt_enabled = false;
  corrupt_probability = 0;
}

run_test-sent_example :
    ((run_test plain_texts accepting (some (units "a.bin")) faults none rest).sent
      ≡ rest.sent
        ++ testing_config faults
          ∷ get_status
          ∷ get_topology
          ∷ after_faults plain_texts accepting
              (some (units "a.bin"))
              none
              (json plain_texts (accepting (testing_config faults))))
    × ((run_test plain_texts accepting (some (units "a.bin")) faults none rest).busy ≡ false)
run_test-sent_example = run_test-sent plain_texts accepting (some (units "a.bin")) faults none rest

-- A new preset drops the picked route.
preset_drops_pick :
    (set_preset plain_texts accepting none
      (units "star")
      (record first_shell { route_pick = some (record { source = units "a1"; dest = units "b1" }) })
      rest).0.route_pick
    ≡ none
unfolding set_preset json perform run_once
preset_drops_pick = refl
