-- ===== src/FaultPanel/Laws.antt =====
-- The panel follows the backend while nothing is edited.
use fast_share.Common.{◌≡◌, refl, ap, ◌∙◌, true, Option, none, some, List, [], ◌∷◌, arith, inl, inr}
use fast_share.Common.Tests.{Bool-cases}
use fast_share.Common.Lists.{last_or}
use fast_share.Common.Number.{Number, NumberLaws}
use fast_share.Types.{TestingConfig, Snapshot}
use fast_share.FaultPanel.{Panel, Act, testing_of, first_panel, follow, same_testing, act}

module _ {N : Type 0} ⦃num : Number N⦄ where
  -- polls that bring these snapshots, after `before`
  abbrev pub polls : Option (Snapshot N) → List (Option (Snapshot N)) → Panel N → Panel N
  polls before [] p = p
  polls before (s ∷ ss) p = polls s ss (act (Act.polled before s) p)

  follow_twice : (t u : Option (TestingConfig N)) (p : Panel N) → follow t (follow u p) ≡ follow t p
  follow_twice none none p = refl
  follow_twice none (some u) p = refl
  follow_twice (some t) none p = refl
  follow_twice (some t) (some u) p = refl

  module _ (laws : NumberLaws num) where
    same_testing_sound : (t u : Option (TestingConfig N)) → same_testing t u ≡ true → t ≡ u
    unfolding same_testing
    same_testing_sound none none h = refl
    same_testing_sound none (some u) h = cc
    same_testing_sound (some t) none h = cc
    same_testing_sound (some t) (some u) h = ground (
      arith,
      laws.le_antisym t.loss_probability u.loss_probability,
      laws.le_antisym t.corrupt_probability u.corrupt_probability,
    )

    poll_follows :
        (before s : Option (Snapshot N)) (p : Panel N)
        → p ≡ follow (testing_of before) first_panel
        → act (Act.polled before s) p ≡ follow (testing_of s) first_panel
    unfolding act
    poll_follows before s p h =
        elim (Bool-cases (same_testing (testing_of before) (testing_of s))) [
          | inl e ↦
              rw (e, act)
                (h
                  ∙ ap (λ t. follow t first_panel)
                      (same_testing_sound (testing_of before) (testing_of s) e))
          | inr e ↦
              rw (e, act)
                (ap (follow (testing_of s)) h
                  ∙ follow_twice (testing_of s) (testing_of before) first_panel)
        ]

    -- While nothing is edited, the panel shows the values of the last snapshot, whatever polls come.
    polls_follow :
        (before : Option (Snapshot N)) (ss : List (Option (Snapshot N))) (p : Panel N)
        → p ≡ follow (testing_of before) first_panel
        → polls before ss p ≡ follow (testing_of (last_or ss before)) first_panel
    polls_follow before [] p h = h
    polls_follow before (s ∷ ss) p h =
        polls_follow s ss (act (Act.polled before s) p) (poll_follows before s p h)
