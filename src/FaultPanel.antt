-- ===== src/FaultPanel.antt =====
-- frontend/components/TestingPanel.tsx: the fault simulation, and the scenarios of
-- frontend/lib/testingScenarios.ts.
pub mod Laws
pub mod Tests
use fast_share.Common.{
  ℕ, Bool, true, false, not, ◌&&◌, ◌||◌, Option, none, some, List, [], ◌∷◌, ◌++◌,
}
use fast_share.Common.Tests.{if◌then◌else◌}
use fast_share.Common.Text.{Text, units}
use fast_share.Common.Number.{Number, eq, lt}
use fast_share.Types.{TestingConfig, Snapshot}
use fast_share.Dock.{transferring}

pub data ScenarioTone : Type 0 where
  green amber red violet : ScenarioTone

pub record Scenario (N : Type 0) : Type 0 where
  pub id : Text
  pub label : Text
  pub loss : N
  pub corrupt : N
  pub expected : Text
  pub tone : ScenarioTone

pub record Panel (N : Type 0) : Type 0 where
  pub loss_on : Bool
  pub loss_prob : N
  pub corrupt_on : Bool
  pub corrupt_prob : N
  pub active : Text

-- What can happen to the panel: a poll brings the backend's values, before and after it.
pub data Act (N : Type 0) : Type 0 where
  polled : Option (Snapshot N) → Option (Snapshot N) → Act N
  picked : Scenario N → Act N
  loss_toggled corrupt_toggled : Act N
  loss_set corrupt_set : N → Act N

abbrev pub testing_of : {N : Type 0} → Option (Snapshot N) → Option (TestingConfig N)
testing_of none = none
testing_of (some s) = some s.testing

-- `===` of two flags
abbrev pub same_flag : Bool → Bool → Bool
same_flag true b = b
same_flag false b = not b

module _ {N : Type 0} ⦃num : Number N⦄ where
  unfoldable pub scenarios : List (Scenario N)
  scenarios =
      record {
        id = units "normal";
        label = units "Test 1 · Normal";
        loss = num.of_nat 0;
        corrupt = num.of_nat 0;
        expected = units "All packets ACKed · 0 retransmissions";
        tone = ScenarioTone.green;
      }
      ∷ record {
        id = units "loss10";
        label = units "Test 2 · 10% Loss";
        loss = num.lit 1 1;
        corrupt = num.of_nat 0;
        expected = units "Some timeouts → retransmission → still completes";
        tone = ScenarioTone.amber;
      }
      ∷ record {
        id = units "loss50";
        label = units "Test 3 · 50% Loss";
        loss = num.lit 5 1;
        corrupt = num.of_nat 0;
        expected = units "Heavy retransmission · may hit retry limit";
        tone = ScenarioTone.red;
      }
      ∷ record {
        id = units "corrupt10";
        label = units "Test 4 · 10% Corruption";
        loss = num.of_nat 0;
        corrupt = num.lit 1 1;
        expected = units "CRC-32 catches bit flips → dropped → retransmit";
        tone = ScenarioTone.violet;
      }
      ∷ []

  abbrev pub first_panel : Panel N
  first_panel = record {
    loss_on = false;
    loss_prob = num.lit 1 1;
    corrupt_on = false;
    corrupt_prob = num.lit 1 1;
    active = units "loss10";
  }

  -- the effect's body
  abbrev pub follow : Option (TestingConfig N) → Panel N → Panel N
  follow none p = record p {
    loss_on = false;
    loss_prob = num.lit 1 1;
    corrupt_on = false;
    corrupt_prob = num.lit 1 1;
  }
  follow (some t) p = record p {
    loss_on = t.loss_enabled;
    loss_prob = t.loss_probability;
    corrupt_on = t.corrupt_enabled;
    corrupt_prob = t.corrupt_probability;
  }

  -- the effect's four dependencies are as they were
  unfoldable pub same_testing : Option (TestingConfig N) → Option (TestingConfig N) → Bool
  same_testing none none = true
  same_testing none (some t) = false
  same_testing (some t) none = false
  same_testing (some t) (some u) =
      same_flag t.loss_enabled u.loss_enabled
      && (eq t.loss_probability u.loss_probability
          && (same_flag t.corrupt_enabled u.corrupt_enabled
              && eq t.corrupt_probability u.corrupt_probability))

  unfoldable pub pick : Scenario N → Panel N → Panel N
  pick s p = record {
    active = s.id;
    loss_on = lt (num.of_nat 0) s.loss;
    loss_prob = s.loss;
    corrupt_on = lt (num.of_nat 0) s.corrupt;
    corrupt_prob = s.corrupt;
  }

  -- what Apply and Run Test pass on
  abbrev pub cfg : Panel N → TestingConfig N
  cfg p = record {
    loss_enabled = p.loss_on;
    loss_probability = p.loss_prob;
    corrupt_enabled = p.corrupt_on;
    corrupt_probability = p.corrupt_prob;
  }

  unfoldable pub act : Act N → Panel N → Panel N
  unfolding pick same_testing
  act (Act.polled before after) p =
      if same_testing (testing_of before) (testing_of after) then p else follow (testing_of after) p
  act (Act.picked s) p = pick s p
  act Act.loss_toggled p = record p { loss_on = not p.loss_on }
  act Act.corrupt_toggled p = record p { corrupt_on = not p.corrupt_on }
  act (Act.loss_set v) p = record p { loss_prob = v }
  act (Act.corrupt_set v) p = record p { corrupt_prob = v }

  -- the badge; `text_of` is `String`
  abbrev pub percent_text : (N → Text) → N → Text
  percent_text text_of p = text_of (num.round (num.mul p (num.of_nat 100))) ++ units "%"

  unfoldable pub sim_badge : (N → Text) → Panel N → Text
  sim_badge text_of p =
      let drop = units "drop " ++ percent_text text_of p.loss_prob in
      let corrupt = units "corrupt " ++ percent_text text_of p.corrupt_prob in
      if p.loss_on
      then (if p.corrupt_on then drop ++ (units " · " ++ corrupt) else drop)
      else (if p.corrupt_on then corrupt else units "OFF")

-- with which Run Test is disabled
abbrev pub run_disabled : {N : Type 0} → Option (Snapshot N) → Bool → Bool → Bool → Bool
run_disabled status busy has_file server_running =
    busy || (not has_file || (not server_running || transferring status))
