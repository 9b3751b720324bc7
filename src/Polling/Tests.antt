-- ===== src/Polling/Tests.antt =====
-- Polls with small answers.
use fast_share.Common.{ℕ, ◌≡◌, ◌↔◌, refl, Bool, true, false, some, List, [], ◌∷◌, arith}
use fast_share.Common.Text.{units}
use fast_share.Common.Number.{eq}
use fast_share.Common.Number.Hundredths.{hundredths}
use fast_share.Json.{Json, Items, Fields, deep_equal}
use fast_share.Json.{has_key}
use fast_share.Common.Text.{text_eq}
use fast_share.Json.Probe.{Read, probe, IsJson}
use fast_share.Json.Laws.{deep_equal_iff}
use fast_share.Polling.{
  Poll, Reply, Machine, Step, Reach, mounted, tick, reply, report, wants_topology, unmount,
}
use fast_share.Polling.Runs.{IsGuarded, Reach-IsGuarded}
use fast_share.Polling.Laws.{IsFailing, poll_once, resting, poll_once-failing}
use fast_share.Polling.Success.{IsPolled, answers, poll_once-IsPolled}

hundredths_eq_iff : (x y : ℕ) → (eq x y ≡ true) ↔ (x ≡ y)
hundredths_eq_iff x y = ground arith

abbrev config : Bool → Json ℕ
config on = Json.object (Fields.field (units "topology_enabled") (Json.flag on) Fields.end)

abbrev snapshot : Bool → Json ℕ
snapshot on = Json.object (
    Fields.field (units "port") (Json.number 500100)
      (Fields.field (units "config") (config on) Fields.end))

-- the same with its keys the other way round
abbrev turned : Bool → Json ℕ
turned on = Json.object (
    Fields.field (units "config") (config on)
      (Fields.field (units "port") (Json.number 500100) Fields.end))

abbrev packets : Fields ℕ
packets = Fields.field (units "cursor") (Json.number 700) (
    Fields.field (units "packets") (Json.array Items.nil) (
      Fields.field (units "events") (Json.array (Items.cons (Json.string (units "e")) Items.nil))
        (Fields.field (units "feed") (Json.array Items.nil) Fields.end)))

order_does_not_matter : deep_equal (snapshot true) (turned true) ≡ true
unfolding deep_equal
order_does_not_matter = refl

values_matter : deep_equal (snapshot true) (snapshot false) ≡ false
unfolding deep_equal
values_matter = refl

snapshot-IsJson : IsJson (snapshot true)
unfolding IsJson has_key text_eq
snapshot-IsJson = ((refl, (refl, tt)), (tt, (((refl, tt), (tt, tt)), tt)))

turned-IsJson : IsJson (turned true)
unfolding IsJson has_key text_eq
turned-IsJson = ((refl, (refl, tt)), (((refl, tt), (tt, tt)), (tt, tt)))

asks : wants_topology (snapshot true) ≡ some true
unfolding wants_topology text_eq
asks = refl

deep_equal_iff_example :
    (deep_equal (snapshot true) (turned true) ≡ true)
    ↔ ((p : List Read) → probe p (snapshot true) ≡ probe p (turned true))
deep_equal_iff_example =
    deep_equal_iff hundredths_eq_iff (snapshot true) (turned true) snapshot-IsJson turned-IsJson

abbrev start : Poll ℕ
start = (mounted {N = ℕ}).poll

poll_once-failing_example :
    poll_once (Reply.answered (snapshot true) ∷ Reply.failed ∷ []) (resting start)
    ≡ resting (report start)
poll_once-failing_example =
    poll_once-failing start (Reply.answered (snapshot true) ∷ Reply.failed ∷ [])
      (IsFailing.at_packets (snapshot true) true asks)

poll_once-IsPolled_example :
    IsPolled start
      (snapshot true)
      packets
      (some (Json.number 100))
      (poll_once (answers (snapshot true) packets (some (Json.number 100))) (resting start))
poll_once-IsPolled_example =
    poll_once-IsPolled start (snapshot true) packets (some (Json.number 100)) asks

Reach-IsGuarded_example :
    IsGuarded (reply 0 (Reply.answered (snapshot true)) (tick {N = ℕ} false mounted))
unfolding mounted
Reach-IsGuarded_example = Reach-IsGuarded (
    Reach.next (Reach.next Reach.start (Step.ticked false refl))
      (Step.replied 0 (Reply.answered (snapshot true))))

abbrev gone : Machine ℕ
gone = unmount (tick false (resting start))
