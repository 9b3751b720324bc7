-- ===== src/Polling/Laws.antt =====
-- What a poll does to the state: on success, on any failure, and after the component has gone.
use fast_share.Common.{ℕ, ◌≡◌, ap, ◌∙◌, Bool, true, false, none, some, List, [], ◌∷◌, inl, inr}
use fast_share.Common.Tests.{Bool-cases, Option-cases}
use fast_share.Common.Lists.{All, get_elem?}
use fast_share.Common.Text.{text_eq}
use fast_share.Common.Number.{Number}
use fast_share.Json.{Json}
use fast_share.Polling.{
  Poll, Call, Reply, Machine, tick, reply, go_on, finish_caught, wants_topology, apply, read,
  report, unreachable,
}
use fast_share.Polling.Runs.{reply_gone, reply_missing}

module _ {N : Type 0} ⦃num : Number N⦄ where
  -- The answers reach the only running call one after the other.
  abbrev pub replies : List (Reply N) → Machine N → Machine N
  replies [] m = m
  replies (r ∷ rs) m = replies rs (reply 0 r m)

  -- A poll that starts on an idle, visible, mounted effect.
  abbrev pub poll_once : List (Reply N) → Machine N → Machine N
  poll_once rs m = replies rs (tick false m)

  -- The mounted effect with no poll running.
  abbrev pub resting : Poll N → Machine N
  resting p = record { poll = record p { in_flight = false }; running = []; cancelled = false }

  -- The answers of a poll that fails: one request is refused, or an answer is `null` where the source
  -- reads a property of it.
  pub data IsFailing : List (Reply N) → Type 0 where
    at_status : IsFailing (Reply.failed ∷ [])
    bad_status : (s : Json N) → wants_topology s ≡ none → IsFailing (Reply.answered s ∷ [])
    at_packets :
        (s : Json N) (want : Bool)
        → wants_topology s ≡ some want
        → IsFailing (Reply.answered s ∷ Reply.failed ∷ [])
    null_packets :
        (s : Json N)
        → wants_topology s ≡ some false
        → IsFailing (Reply.answered s ∷ Reply.answered Json.null ∷ [])
    at_topology :
        (s v : Json N)
        → wants_topology s ≡ some true
        → IsFailing (Reply.answered s ∷ Reply.answered v ∷ Reply.failed ∷ [])
    null_before_topology :
        (s t : Json N)
        → wants_topology s ≡ some true
        → IsFailing (Reply.answered s ∷ Reply.answered Json.null ∷ Reply.answered t ∷ [])

  -- The effect while its one call waits.
  abbrev pub waiting : Poll N → Call N → Machine N
  waiting p c = record { poll = record p { in_flight = true }; running = c ∷ []; cancelled = false }

  caught : (p : Poll N) (c : Call N) → finish_caught 0 none (waiting p c) ≡ resting (report p)
  unfolding report
  caught p c = elim (Option-cases p.error) [
    | inl e ↦ simp (e, report)
    | inr (t, e) ↦ elim (Bool-cases (text_eq t unreachable)) [
      | inl same ↦ simp (e, same, report)
      | inr other ↦ simp (e, other, report)
    ]
  ]

  pub reply_status :
      (p : Poll N) (s : Json N) (want : Bool)
      → wants_topology s ≡ some want
      → reply 0 (Reply.answered s) (waiting p Call.for_status)
        ≡ waiting p (Call.for_packets p.cursor s want)
  unfolding reply go_on
  reply_status p s want e = simp (e, reply, go_on)

  -- A poll that fails, at whatever request, changes nothing but the error: the cursor stays, so
  -- the next poll asks for the same events again, and the effect rests.
  pub poll_once-failing :
      (p : Poll N) (rs : List (Reply N))
      → IsFailing rs
      → poll_once rs (resting p) ≡ resting (report p)
  unfolding tick reply go_on apply read
  poll_once-failing p rs IsFailing.at_status = caught p Call.for_status
  poll_once-failing p rs (IsFailing.bad_status s e) =
      simp (e, reply, go_on, caught p Call.for_status)
  poll_once-failing p rs (IsFailing.at_packets s want e) =
      ap (reply 0 Reply.failed) (reply_status p s want e)
      ∙ caught p (Call.for_packets p.cursor s want)
  poll_once-failing p rs (IsFailing.null_packets s e) =
      ap (reply 0 (Reply.answered Json.null)) (reply_status p s false e)
      ∙ caught p (Call.for_packets p.cursor s false)
  poll_once-failing p rs (IsFailing.at_topology s v e) =
      ap (λ m. reply 0 Reply.failed (reply 0 (Reply.answered v) m)) (reply_status p s true e)
      ∙ caught p (Call.for_topology p.cursor s v)
  poll_once-failing p rs (IsFailing.null_before_topology s t e) =
      ap (λ m. reply 0 (Reply.answered t) (reply 0 (Reply.answered Json.null) m))
        (reply_status p s true e)
      ∙ caught p (Call.for_topology p.cursor s Json.null)

  report_idem : (p : Poll N) → resting (report (report p)) ≡ resting (report p)
  unfolding report
  report_idem p = elim (Option-cases p.error) [
    | inl e ↦ simp (e, report)
    | inr (t, e) ↦ elim (Bool-cases (text_eq t unreachable)) [
      | inl same ↦ simp (e, same, report)
      | inr other ↦ simp (e, other, report)
    ]
  ]

  abbrev pub polls : List (List (Reply N)) → Machine N → Machine N
  polls [] m = m
  polls (rs ∷ rest) m = polls rest (poll_once rs m)

  -- However many polls fail in a row, the state is that after the first: the error is set once
  -- per outage.
  polls-failing :
      (p : Poll N) (rs : List (Reply N)) (rest : List (List (Reply N)))
      → IsFailing rs
      → All IsFailing rest
      → polls (rs ∷ rest) (resting p) ≡ resting (report p)
  polls-failing p rs [] h k = poll_once-failing p rs h
  polls-failing p rs (qs ∷ rest) h k =
      ap (λ m. polls (qs ∷ rest) m) (poll_once-failing p rs h)
      ∙ polls-failing (report p) qs rest k.0 k.1
      ∙ report_idem p

  -- After the component has gone, an answer changes nothing but the in-flight flag.
  reply-cancelled :
      (i : ℕ) (r : Reply N) (m : Machine N)
      → m.cancelled ≡ true
      → (reply i r m).poll ≡ record m.poll { in_flight = (reply i r m).poll.in_flight }
  reply-cancelled i r m gone = elim (Option-cases (get_elem? m.running i)) [
    | inl e ↦ let same = reply_missing i r m e in rw same
    | inr (c, e) ↦ let same = reply_gone i r m c e gone in rw same
  ]
