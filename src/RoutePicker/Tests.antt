-- ===== src/RoutePicker/Tests.antt =====
-- Hop counts in a small graph.
use fast_share.Common.Lists.{head_or}
use fast_share.Common.{◌≢◌, ap, arith, ◌≡◌, refl, none, some, List, [], ◌∷◌}
use fast_share.Common.Text.{Text, units}
use fast_share.RoutePicker.{hops}
use fast_share.RoutePicker.Shortest.{IsShortest, hops-IsShortest}

-- a square with a tail, and a pair apart
abbrev square : List (Text × Text)
square =
    (units "a", units "b")
    ∷ (units "b", units "c")
    ∷ (units "c", units "d")
    ∷ (units "d", units "a")
    ∷ (units "d", units "e")
    ∷ (units "x", units "y")
    ∷ []

two_hops : hops square (units "a") (units "e") ≡ some 2
unfolding hops
two_hops = refl

one_hop_back : hops square (units "a") (units "d") ≡ some 1
unfolding hops
one_hop_back = refl

out_of_reach : hops square (units "a") (units "y") ≡ none
unfolding hops
out_of_reach = refl

one_node : hops square (units "a") (units "a") ≡ none
unfolding hops
one_node = refl

a_not_e : units "a" ≢ units "e"
a_not_e e = omega (arith, ap (λ (t : Text). head_or t 0) e)

hops-IsShortest_example :
    IsShortest square (units "a") (units "e") (hops square (units "a") (units "e"))
hops-IsShortest_example = hops-IsShortest square (units "a") (units "e") a_not_e
