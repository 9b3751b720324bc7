-- ===== src/Inspector/Console.antt =====
-- frontend/components/NodeInspector.tsx: the console of the NODE tab, which polls the log of the
-- node shown. A request is asynchronous: those that wait for their answer are the list `waiting`.
pub mod Laws
use fast_share.Common.{ℕ, suc, Bool, true, false, ◌&&◌, Option, none, some, List, [], ◌∷◌, ◌++◌}
use fast_share.Common.Tests.{if◌then◌else◌, ◌==◌}
use fast_share.Common.Lists.{get_elem?, remove_at}
use fast_share.Common.Text.{Text}
use fast_share.Topology.{NodeLogLine}

-- A request for the log of a node: `pull` of the effect's run with that number, or `pullLogs`.
pub record Pull : Type 0 where
  pub node : Text
  pub run : Option ℕ

-- What a request settles with.
pub data Reply (N : Type 0) : Type 0 where
  lines : List (NodeLogLine N) → Reply N
  failure : Text → Reply N

-- `run` counts the runs of the effect; its `alive` is that the run is the last one.
pub record Console (N : Type 0) : Type 0 where
  pub node : Text
  pub run : ℕ
  pub mounted : Bool
  pub logs : List (NodeLogLine N)
  pub log_err : Option Text
  pub waiting : List Pull

module _ {N : Type 0} where
  -- `void pull()` on mounting, and every 2000 ms
  abbrev pub pull : Console N → Console N
  pull c = record c { waiting = c.waiting ++ record { node = c.node; run = some c.run } ∷ [] }

  -- the button, `void pullLogs()`
  abbrev pub pull_logs : Console N → Console N
  pull_logs c = record c { waiting = c.waiting ++ record { node = c.node; run = none } ∷ [] }

  abbrev pub mounted : Text → Console N
  mounted id =
      pull (record { node = id; run = 0; mounted = true; logs = []; log_err = none; waiting = [] })

  -- the effect's cleanup and its next run, when another node is shown
  abbrev pub switch : Text → Console N → Console N
  switch id c = pull (record c { node = id; run = suc c.run; logs = [] })

  abbrev pub unmount : Console N → Console N
  unmount c = record c { mounted = false }

  abbrev pub show : Reply N → Console N → Console N
  show (Reply.lines ls) c = record c { logs = ls; log_err = none }
  show (Reply.failure msg) c = record c { log_err = some msg }

  -- `alive`, which `pullLogs` does not look at; after unmounting nothing is set any more
  abbrev pub is_alive : Pull → Console N → Bool
  is_alive p c = c.mounted && elim p.run [ none ↦ true | some r ↦ r == c.run ]

  -- the answer to the request at `i`
  unfoldable pub answer : ℕ → Reply N → Console N → Console N
  answer i reply c = elim (get_elem? c.waiting i) [
    | none ↦ c
    | some p ↦
        let rest : Console N = record c { waiting = remove_at c.waiting i } in
        if is_alive p c then show reply rest else rest
  ]
