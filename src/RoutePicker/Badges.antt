-- ===== src/RoutePicker/Badges.antt =====
-- frontend/components/RoutePicker.tsx: the badges behind the two selects, and their options.
use fast_share.Common.{ℕ, Option, none, some, List, [], ◌∷◌, ◌++◌, map}
use fast_share.Common.Tests.{if◌then◌else◌, ltb, ◌==◌, is_some}
use fast_share.Common.Lists.{length, count_if}
use fast_share.Common.Text.{Text, units, text_eq, decimal}
use fast_share.Topology.{TopologySnapshot, TopologyNode}
use fast_share.RoutePicker.{hops}

pub data BadgeTone : Type 0 where
  amber violet slate cyan : BadgeTone

-- `${n.label} · :${n.port}` of each node
unfoldable pub options : {N : Type 0} → List (TopologyNode N) → List (Text × Text)
unfolding decimal
options nodes = map (λ n. (n.id, n.label ++ (units " · :" ++ decimal n.port))) nodes

-- `${hopCount} hop${hopCount === 1 ? "" : "s"} · `, or nothing
unfoldable pub hop_text : Option ℕ → Text
unfolding decimal
hop_text none = []
hop_text (some n) =
    decimal n ++ (units " hop" ++ ((if n == 1 then [] else units "s") ++ units " · "))

unfoldable pub up_text : {N : Type 0} → List (TopologyNode N) → Text
unfolding decimal count_if
up_text nodes =
    decimal (count_if (λ n. n.up) nodes) ++ (units "/" ++ (decimal (length nodes) ++ units " up"))

module _ {N : Type 0} where
  unfoldable pub paths_badge : TopologySnapshot N → List (BadgeTone × Text)
  unfolding decimal
  paths_badge topology =
      if ltb 1 (length topology.paths)
      then (
        (if topology.multipath.enabled then BadgeTone.violet else BadgeTone.slate),
        decimal (length topology.paths) ++ units " paths",
      )
        ∷ []
      else []

  unfoldable pub badges : TopologySnapshot N → Text → Text → List (BadgeTone × Text)
  unfolding hops text_eq paths_badge hop_text up_text
  badges topology source dest =
      let count = hops (map (λ l. (l.a, l.b)) topology.links) source dest in
      if text_eq source dest
      then (BadgeTone.amber, units "Same node") ∷ []
      else paths_badge topology
        ++ (
          (if is_some count then BadgeTone.cyan else BadgeTone.slate),
          hop_text count ++ up_text topology.nodes,
        )
          ∷ []
