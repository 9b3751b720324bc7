-- ===== src/FaultPanel/Tests.antt =====
-- The fault simulation on the sample snapshot.
use fast_share.Common.{◌≡◌, refl, true, false, some, ℕ, ◌/◌}
use fast_share.Common.Text.{units, decimal}
use fast_share.Common.Lists.{get_elem?}
use fast_share.Common.Number.Hundredths.{hundredths}
use fast_share.Types.{Snapshot}
use fast_share.Samples.{snapshot}
use fast_share.FaultPanel.{
  Act, Scenario, scenarios, first_panel, pick, act, sim_badge, run_disabled, ScenarioTone,
}

abbrev loss50 : Scenario ℕ
loss50 = record {
  id = units "loss50";
  label = units "Test 3 · 50% Loss";
  loss = 50;
  corrupt = 0;
  expected = units "Heavy retransmission · may hit retry limit";
  tone = ScenarioTone.red;
}

third : get_elem? (scenarios {N = ℕ}) 2 ≡ some loss50
unfolding scenarios
third = refl

picked_badge : sim_badge (λ n. decimal (n / 100)) (pick loss50 first_panel) ≡ units "drop 50%"
unfolding sim_badge pick decimal
picked_badge = refl

-- A poll with the same values keeps what is picked.
edits_stay :
    act (Act.polled (some snapshot) (some snapshot)) (pick loss50 first_panel)
    ≡ pick loss50 first_panel
unfolding act
edits_stay = refl

needs_file : run_disabled (some snapshot) false false true ≡ true
needs_file = refl

abbrev lossy : Snapshot ℕ
lossy = record snapshot { testing = record snapshot.testing { loss_enabled = true } }
