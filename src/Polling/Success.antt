-- ===== src/Polling/Success.antt =====
-- What a poll whose requests succeed makes of the state.
use fast_share.Common.{
  ℕ, suc, ◌≡◌, refl, sym, ap, ◌∙◌, true, false, Option, none, some, List, [], ◌∷◌, inl, inr, ◌⊎◌,
}
use mathlib.Core.Path.{subst}
use fast_share.Common.Tests.{is_some, if◌then◌else◌, Bool-cases, Option-cases}
use fast_share.Common.Text.{Text, units}
use fast_share.Common.Number.{Number}
use fast_share.Json.{Json, Fields, field_at, deep_equal}
use fast_share.Polling.{
  Poll, Reply, Machine, tick, reply, go_on, wants_topology, apply, read, kept, changed, set_status,
  set_packets, set_events, set_feed, set_topology, clear_error, is_truthy,
}
use fast_share.Polling.Laws.{poll_once, resting, reply_status}

module _ {N : Type 0} ⦃num : Number N⦄ where
  -- What a part of the state becomes: it stays where the answer is structurally equal to it.
  pub data Becomes (old new after : Json N) : Type 0 where
    same : deep_equal old new ≡ true → after ≡ old → Becomes old new after
    replaced : deep_equal old new ≡ false → after ≡ new → Becomes old new after

  kept-Becomes : (old new : Json N) → Becomes old new (kept old new)
  unfolding kept changed
  kept-Becomes old new = elim (Bool-cases (deep_equal old new)) [
    | inl e ↦ Becomes.same e (simp e)
    | inr e ↦ Becomes.replaced e (simp e)
  ]

  -- The topology's answer counts where it is truthy; a falsy one leaves the state.
  abbrev pub TopologyBecomes : Json N → Option (Json N) → Json N → Type 0
  TopologyBecomes old none after = after ≡ old
  TopologyBecomes old (some t) after =
      ((is_truthy t ≡ true) × Becomes old t after) ⊎ ((is_truthy t ≡ false) × (after ≡ old))

  -- The state after a poll that succeeds, with the topology's answer if the snapshot asks for it.
  pub record IsPolled (p : Poll N) (s : Json N) (fs : Fields N) (t : Option (Json N))
      (m : Machine N) : Type 0 where
    pub rests : (m.running ≡ []) × (m.poll.in_flight ≡ false)
    pub quiet : m.poll.error ≡ none
    pub moved : m.poll.cursor ≡ field_at (units "cursor") fs
    pub status : Becomes p.status s m.poll.status
    pub packets : Becomes p.packets (field_at (units "packets") fs) m.poll.packets
    pub events : Becomes p.events (field_at (units "events") fs) m.poll.events
    pub feed : Becomes p.feed (field_at (units "feed") fs) m.poll.feed
    pub topology : TopologyBecomes p.topology t m.poll.topology

  cleared : Poll N → ℕ → Poll N
  cleared q n = record q { error = none; sets = n }

  clear_error-cleared : (q : Poll N) → (n : ℕ) × (clear_error q ≡ cleared q n)
  unfolding clear_error cleared
  clear_error-cleared q = elim (Option-cases q.error) [
    | inl e ↦
        let stays : clear_error q ≡ q = simp (e, clear_error) in
        (q.sets, stays ∙ ap (λ (x : Option Text). record q { error = x }) e)
    | inr (t, e) ↦ (suc q.sets, simp (e, clear_error))
  ]

  abbrev applied : Json N → Fields N → Poll N → Poll N
  applied s fs p = set_feed (field_at (units "feed") fs) (
      set_events (field_at (units "events") fs) (
        set_packets (field_at (units "packets") fs)
          (set_status s (record p { cursor = field_at (units "cursor") fs }))))

  settled_poll : Json N → Fields N → Option (Json N) → Poll N → Poll N
  settled_poll s fs none p = applied s fs p
  settled_poll s fs (some t) p =
      if is_truthy t then set_topology t (applied s fs p) else applied s fs p

  with_topology-IsPolled :
      (p : Poll N) (s : Json N) (fs : Fields N) (t : Option (Json N)) (topology : Json N) (n : ℕ)
      → TopologyBecomes p.topology t topology
      → IsPolled p s fs t (
          resting (record (applied s fs (record p { in_flight = true })) {
            topology = topology;
            error = none;
            sets = n;
          }))
  unfolding set_feed set_events set_packets set_status
  with_topology-IsPolled p s fs t topology n h = record {
    rests = (refl, refl);
    quiet = refl;
    moved = refl;
    status = kept-Becomes p.status s;
    packets = kept-Becomes p.packets (field_at (units "packets") fs);
    events = kept-Becomes p.events (field_at (units "events") fs);
    feed = kept-Becomes p.feed (field_at (units "feed") fs);
    topology = h;
  }

  settled_poll-IsPolled :
      (p : Poll N) (s : Json N) (fs : Fields N) (t : Option (Json N)) (n : ℕ)
      → IsPolled p s fs t
          (resting (cleared (settled_poll s fs t (record p { in_flight = true })) n))
  unfolding settled_poll cleared set_feed set_events set_packets set_status set_topology
  settled_poll-IsPolled p s fs none n = with_topology-IsPolled p s fs none p.topology n refl
  settled_poll-IsPolled p s fs (some t) n = elim (Bool-cases (is_truthy t)) [
    | inl e ↦ rw e (
        with_topology-IsPolled p s fs (some t) (kept p.topology t) n
          (inl (e, kept-Becomes p.topology t)))
    | inr e ↦ rw e (with_topology-IsPolled p s fs (some t) p.topology n (inr (e, refl)))
  ]

  -- The topology's answer is there exactly if the snapshot asks for it.
  abbrev pub answers : Json N → Fields N → Option (Json N) → List (Reply N)
  answers s fs none = Reply.answered s ∷ Reply.answered (Json.object fs) ∷ []
  answers s fs (some t) = Reply.answered s ∷ Reply.answered (Json.object fs) ∷ Reply.answered t ∷ []

  poll_once-settled :
      (p : Poll N) (s : Json N) (fs : Fields N) (t : Option (Json N))
      → wants_topology s ≡ some (is_some t)
      → poll_once (answers s fs t) (resting p)
        ≡ resting (clear_error (settled_poll s fs t (record p { in_flight = true })))
  unfolding tick reply go_on apply read settled_poll
  poll_once-settled p s fs none e =
      ap (reply 0 (Reply.answered (Json.object fs))) (reply_status p s false e)
  poll_once-settled p s fs (some t) e =
      ap (λ m. reply 0 (Reply.answered t) (reply 0 (Reply.answered (Json.object fs)) m))
        (reply_status p s true e)

  -- A poll whose requests succeed, with an object as the packets answer, ends with the effect at
  -- rest, no error and the answer's cursor; the topology is asked for exactly if the snapshot
  -- has it on; and each part of the state stays as it is where the answer is structurally equal
  -- to it, and becomes the answer otherwise, but for the topology, which an answer that is not
  -- truthy leaves as it is.
  pub poll_once-IsPolled :
      (p : Poll N) (s : Json N) (fs : Fields N) (t : Option (Json N))
      → wants_topology s ≡ some (is_some t)
      → IsPolled p s fs t (poll_once (answers s fs t) (resting p))
  poll_once-IsPolled p s fs t e =
      let (n, clear) = clear_error-cleared (settled_poll s fs t (record p { in_flight = true })) in
      subst (IsPolled p s fs t) (sym (poll_once-settled p s fs t e ∙ ap resting clear))
        (settled_poll-IsPolled p s fs t n)
