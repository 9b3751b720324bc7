-- ===== src/Polling.antt =====
-- frontend/hooks/useStatusPolling.ts: the polling loop. A call of `tick` is asynchronous: it runs to
-- its first `await`, and again from each `await` to the next when the answer is there. The calls
-- that wait are the list `running`. A caught error, of a request or of a property read of `null`, is
-- `none`.
pub mod Runs
pub mod Laws
pub mod Success
pub mod Tests
use fast_share.Common.{◌≡◌}
use fast_share.Common.{
  ℕ, zero, suc, Bool, true, false, not, ◌&&◌, ◌||◌, Option, none, some, List, [], ◌∷◌, ◌++◌, ◌+◌,
}
use fast_share.Common.Tests.{if◌then◌else◌, ◌>>=◌}
use fast_share.Common.Lists.{get_elem?, set, remove_at}
use fast_share.Common.Text.{Text, units, text_eq}
use fast_share.Common.Number.{Number, eq}
use fast_share.Json.{Json, Items, Fields, field_at, deep_equal}

-- "controller unreachable — is the Python backend running?"
abbrev pub unreachable : Text
unreachable = units "controller unreachable — is the Python backend running?"

-- The hook's state, with the number of setter calls that React sees.
pub record Poll (N : Type 0) : Type 0 where
  pub status : Json N
  pub packets : Json N
  pub events : Json N
  pub feed : Json N
  pub topology : Json N
  pub error : Option Text
  pub cursor : Json N
  pub in_flight : Bool
  pub sets : ℕ

-- What a call of `tick` waits for; `since` is the cursor that it sent.
pub data Call (N : Type 0) : Type 0 where
  for_status : Call N
  for_packets : (since status : Json N) → (want_topology : Bool) → Call N
  for_topology : (since status packets : Json N) → Call N

pub data Reply (N : Type 0) : Type 0 where
  answered : Json N → Reply N
  failed : Reply N

-- The effect: the hook's state, the calls that wait, and the flag `cancelled`.
pub record Machine (N : Type 0) : Type 0 where
  pub poll : Poll N
  pub running : List (Call N)
  pub cancelled : Bool

abbrev pub one_if : Bool → ℕ
one_if true = 1
one_if false = 0

module _ {N : Type 0} ⦃num : Number N⦄ where
  -- `-1`
  abbrev pub minus_one : Json N
  minus_one = Json.number (num.sub (num.of_nat 0) (num.of_nat 1))

  unfoldable pub mounted : Machine N
  mounted = record {
    poll = record {
      status = Json.null;
      packets = Json.array Items.nil;
      events = Json.array Items.nil;
      feed = Json.array Items.nil;
      topology = Json.null;
      error = none;
      cursor = minus_one;
      in_flight = false;
      sets = 0;
    };
    running = [];
    cancelled = false;
  }

  -- `v.k`: an error on null and undefined; of other values only objects have these properties
  unfoldable pub read : Text → Json N → Option (Json N)
  unfolding field_at
  read k Json.undefined = none
  read k Json.null = none
  read k (Json.object fs) = some (field_at k fs)
  read k _ = some Json.undefined

  abbrev pub is_true : Json N → Bool
  is_true (Json.flag true) = true
  is_true _ = false

  -- `if (v)`
  unfoldable pub is_truthy : Json N → Bool
  is_truthy Json.undefined = false
  is_truthy Json.null = false
  is_truthy (Json.flag b) = b
  is_truthy (Json.number x) = not (eq x (num.of_nat 0))
  is_truthy (Json.string s) = not (text_eq s [])
  is_truthy _ = true

  -- `s.config.topology_enabled === true`
  unfoldable pub wants_topology : Json N → Option Bool
  unfolding read
  wants_topology s = do
    c ← read (units "config") s
    e ← read (units "topology_enabled") c
    some (is_true e)

  -- `setIfChanged`: the value that the state has after it, and whether the setter was called
  unfoldable pub changed : Json N → Json N → Bool
  unfolding deep_equal
  changed prev next = not (deep_equal prev next)

  unfoldable pub kept : Json N → Json N → Json N
  unfolding changed
  kept prev next = if changed prev next then next else prev

  unfoldable pub set_status : Json N → Poll N → Poll N
  unfolding changed kept
  set_status s p = record p {
    status = kept p.status s;
    sets = one_if (changed p.status s) + p.sets;
  }

  unfoldable pub set_packets : Json N → Poll N → Poll N
  unfolding changed kept
  set_packets v p = record p {
    packets = kept p.packets v;
    sets = one_if (changed p.packets v) + p.sets;
  }

  unfoldable pub set_events : Json N → Poll N → Poll N
  unfolding changed kept
  set_events v p = record p {
    events = kept p.events v;
    sets = one_if (changed p.events v) + p.sets;
  }

  unfoldable pub set_feed : Json N → Poll N → Poll N
  unfolding changed kept
  set_feed v p = record p { feed = kept p.feed v; sets = one_if (changed p.feed v) + p.sets }

  unfoldable pub set_topology : Json N → Poll N → Poll N
  unfolding changed kept
  set_topology v p = record p {
    topology = kept p.topology v;
    sets = one_if (changed p.topology v) + p.sets;
  }

  -- `setError((prev) => prev === null ? prev : null)`, which React drops when the value is the same
  unfoldable pub clear_error : Poll N → Poll N
  clear_error p = elim p.error [ none ↦ p | some _ ↦ record p { error = none; sets = suc p.sets } ]

  -- `setError((prev) => (prev === UNREACHABLE ? prev : UNREACHABLE))`
  unfoldable pub report : Poll N → Poll N
  unfolding text_eq
  report p =
      let raised : Poll N = record p { error = some unreachable; sets = suc p.sets } in
      elim p.error [ none ↦ raised | some e ↦ if text_eq e unreachable then p else raised ]

  -- the statements behind the last `await`, up to `catch`
  unfoldable pub apply : Json N → Json N → Option (Json N) → Poll N → Option (Poll N)
  unfolding read set_status set_packets set_events set_feed set_topology clear_error is_truthy
  apply s v tp p = do
    cursor ← read (units "cursor") v
    packets ← read (units "packets") v
    events ← read (units "events") v
    feed ← read (units "feed") v
    let next : Poll N =
          set_feed feed (
            set_events events
              (set_packets packets (set_status s (record p { cursor = cursor })))) in
        some (
          clear_error
            (elim tp [ none ↦ next | some t ↦ if is_truthy t then set_topology t next else next ]))

  -- `finally`: the call is over
  abbrev pub finish : ℕ → Poll N → Machine N → Machine N
  finish i p m = record m { poll = record p { in_flight = false }; running = remove_at m.running i }

  -- `catch`, reached only while the effect is not cancelled
  abbrev pub finish_caught : ℕ → Option (Poll N) → Machine N → Machine N
  finish_caught i none m = finish i (report m.poll) m
  finish_caught i (some p) m = finish i p m

  abbrev pub await : ℕ → Call N → Machine N → Machine N
  await i c m = record m { running = set m.running i c }

  -- the call of `tick` until its first `await`
  unfoldable pub tick : Bool → Machine N → Machine N
  tick hidden m = if hidden || m.poll.in_flight then m else record m {
    poll = record m.poll { in_flight = true };
    running = m.running ++ Call.for_status ∷ [];
  }

  -- the call at `i` runs on from its `await`, the effect not cancelled
  unfoldable pub go_on : ℕ → Call N → Reply N → Machine N → Machine N
  unfolding wants_topology apply report
  go_on i c Reply.failed m = finish_caught i none m
  go_on i Call.for_status (Reply.answered s) m = elim (wants_topology s) [
    | none ↦ finish_caught i none m
    | some want ↦ await i (Call.for_packets m.poll.cursor s want) m
  ]
  go_on i (Call.for_packets since s want) (Reply.answered v) m =
      if want
      then await i (Call.for_topology since s v) m
      else finish_caught i (apply s v none m.poll) m
  go_on i (Call.for_topology since s v) (Reply.answered t) m =
      finish_caught i (apply s v (some t) m.poll) m

  unfoldable pub reply : ℕ → Reply N → Machine N → Machine N
  unfolding go_on
  reply i r m = elim (get_elem? m.running i) [
    | none ↦ m
    | some c ↦ if m.cancelled then finish i m.poll m else go_on i c r m
  ]

  -- the effect's cleanup; its timer and its listener are gone with it
  abbrev pub unmount : Machine N → Machine N
  unmount m = record m { cancelled = true }

  -- `refreshStatus`: each of the two requests that succeeded
  unfoldable pub refresh : Reply N → Reply N → Poll N → Poll N
  unfolding set_status set_topology
  refresh s t p =
      let q : Poll N = elim s [ Reply.answered v ↦ set_status v p | Reply.failed ↦ p ] in
      elim t [ Reply.answered v ↦ set_topology v q | Reply.failed ↦ q ]

  -- What can happen to the effect: a timer or a visibility change calls `tick`, an answer comes to a
  -- call that waits, an action refreshes the state or sets the error, and the component goes away.
  pub data Step (m : Machine N) : Machine N → Type 0 where
    ticked : (hidden : Bool) → m.cancelled ≡ false → Step m (tick hidden m)
    replied : (i : ℕ) (r : Reply N) → Step m (reply i r m)
    refreshed : (s t : Reply N) → Step m (record m { poll = refresh s t m.poll })
    set_error : (e : Option Text) → Step m (record m { poll = record m.poll { error = e } })
    unmounted : Step m (unmount m)

  pub data Reach : Machine N → Type 0 where
    start : Reach mounted
    next : {m m' : Machine N} → Reach m → Step m m' → Reach m'
