-- ===== src/Dashboard/Ends.antt =====
-- frontend/hooks/useTransferActions.ts, runOnce, while the polling effect goes on: what an action
-- leaves behind whatever polls, answers and picked files come between its steps.
use fast_share.Common.{
  ◌≡◌, refl, ap, ◌∙◌, ℕ, Bool, true, false, Option, none, some, inl, inr, ◌⊎◌, List, ◌++◌, arith,
}
use fast_share.Common.Tests.{Bool-cases, Option-cases}
use fast_share.Common.Text.{Text, text_eq}
use fast_share.Common.Number.{Number}
use fast_share.Types.{ResumeInfo}
use fast_share.Json.{Json}
use fast_share.Selection.{File}
use fast_share.Requests.Actions.{Ran, error_of, refresh_requests}
use fast_share.Requests.{Result, Request}
use fast_share.Common.Lists.{get_elem?}
use fast_share.Polling.{
  Machine, Reply, Poll, unreachable, refresh, reply, tick, unmount, clear_error, report, apply,
  finish_caught, go_on, Call, wants_topology, read,
}
use fast_share.Dashboard.Laws.{refresh-error}
use fast_share.Dashboard.{
  Dashboard, follow_status, with_machine, choose_file, resume_answered, begin_action, settle_action,
  same_status, transfer_status,
}

-- The error is as before, or what a poll makes of it.
abbrev pub IsFrom : Option Text → Option Text → Type 0
IsFrom before e = (e ≡ before) ⊎ (e ≡ none) ⊎ (e ≡ some unreachable)

IsFrom-then : (e0 e1 e2 : Option Text) → IsFrom e0 e1 → IsFrom e1 e2 → IsFrom e0 e2
IsFrom-then e0 e1 e2 (inl h) (inl k) = inl (k ∙ h)
IsFrom-then e0 e1 e2 (inr (inl h)) (inl k) = inr (inl (k ∙ h))
IsFrom-then e0 e1 e2 (inr (inr h)) (inl k) = inr (inr (k ∙ h))
IsFrom-then e0 e1 e2 h (inr k) = inr k

begun-error : (e : Option Text) → IsFrom none e → (e ≡ none) ⊎ (e ≡ some unreachable)
begun-error e (inl h) = inl h
begun-error e (inr h) = h

-- Nothing, or a state with no error.
abbrev pub IsQuiet : {N : Type 0} → Option (Poll N) → Type 0
IsQuiet none = Unit {0}
IsQuiet (some p) = p.error ≡ none

module _ {N : Type 0} ⦃num : Number N⦄ where
  clear_error-error : (p : Poll N) → (clear_error p).error ≡ none
  unfolding clear_error
  clear_error-error p = elim (Option-cases p.error) [
    | inl e ↦ simp (e, clear_error) refl
    | inr (msg, e) ↦ simp (e, clear_error) refl
  ]

  report-error : (p : Poll N) → IsFrom p.error (report p).error
  unfolding report
  report-error p = elim (Option-cases p.error) [
    | inl e ↦ simp (e, report) (inr (inr refl))
    | inr (msg, e) ↦ elim (Bool-cases (text_eq msg unreachable)) [
      | inl k ↦ rw (e, k, report) (inl e)
      | inr k ↦ rw (e, k, report) (inr (inr refl))
    ]
  ]

  apply-IsQuiet : (s v : Json N) (tp : Option (Json N)) (p : Poll N) → IsQuiet (apply s v tp p)
  unfolding apply read
  apply-IsQuiet s Json.undefined tp p = tt
  apply-IsQuiet s Json.null tp p = tt
  apply-IsQuiet s (Json.flag b) tp p = simp clear_error-error refl
  apply-IsQuiet s (Json.number x) tp p = simp clear_error-error refl
  apply-IsQuiet s (Json.string t) tp p = simp clear_error-error refl
  apply-IsQuiet s (Json.array xs) tp p = simp clear_error-error refl
  apply-IsQuiet s (Json.object fs) tp p = simp clear_error-error refl

  finish_caught-error :
      (i : ℕ) (o : Option (Poll N)) (m : Machine N)
      → IsQuiet o
      → IsFrom m.poll.error (finish_caught i o m).poll.error
  finish_caught-error i none m h = report-error m.poll
  finish_caught-error i (some p) m h = inr (inl h)

  go_on-error :
      (i : ℕ) (c : Call N) (r : Reply N) (m : Machine N)
      → IsFrom m.poll.error (go_on i c r m).poll.error
  unfolding go_on
  go_on-error i c Reply.failed m = finish_caught-error i none m tt
  go_on-error i Call.for_status (Reply.answered s) m = elim (Option-cases (wants_topology s)) [
    | inl e ↦ rw (e, go_on) (finish_caught-error i none m tt)
    | inr (want, e) ↦ rw (e, go_on) (inl refl)
  ]
  go_on-error i (Call.for_packets since s true) (Reply.answered v) m = inl refl
  go_on-error i (Call.for_packets since s false) (Reply.answered v) m =
      finish_caught-error i (apply s v none m.poll) m (apply-IsQuiet s v none m.poll)
  go_on-error i (Call.for_topology since s v) (Reply.answered t) m =
      finish_caught-error i (apply s v (some t) m.poll) m (apply-IsQuiet s v (some t) m.poll)

  reply-error : (i : ℕ) (r : Reply N) (m : Machine N) → IsFrom m.poll.error (reply i r m).poll.error
  unfolding reply
  reply-error i r m = elim (Option-cases (get_elem? m.running i)) [
    | inl e ↦ rw (e, reply) (inl refl)
    | inr (c, e) ↦ elim (Bool-cases m.cancelled) [
      | inl gone ↦ rw (e, gone, reply) (inl refl)
      | inr here ↦ simp (e, here, reply) (go_on-error i c r m)
    ]
  ]

  tick-error : (hidden : Bool) (m : Machine N) → (tick hidden m).poll.error ≡ m.poll.error
  unfolding tick
  tick-error hidden m = ground arith

  -- What happens while no action begins or settles: polls start and go on, a refresh is answered,
  -- the component goes, a file is picked and a check is answered.
  pub data Meanwhile (d : Dashboard N) : Dashboard N → Type 0 where
    nothing : Meanwhile d d
    ticked :
        {d' : Dashboard N} (hidden : Bool)
        → Meanwhile d d'
        → Meanwhile d (with_machine (tick hidden d'.machine) d')
    replied :
        {d' : Dashboard N} (i : ℕ) (r : Reply N)
        → Meanwhile d d'
        → Meanwhile d (with_machine (reply i r d'.machine) d')
    refreshed :
        {d' : Dashboard N} (s t : Reply N)
        → Meanwhile d d'
        → Meanwhile d (with_machine (record d'.machine { poll = refresh s t d'.machine.poll }) d')
    unmounted :
        {d' : Dashboard N} → Meanwhile d d' → Meanwhile d (with_machine (unmount d'.machine) d')
    chosen : {d' : Dashboard N} (f : Option File) → Meanwhile d d' → Meanwhile d (choose_file f d')
    checked :
        {d' : Dashboard N} (i : ℕ) (r : Option (ResumeInfo N))
        → Meanwhile d d'
        → Meanwhile d (resume_answered i r d')

  -- Of the actions nothing changes, and the error only as polls change it.
  pub record IsSteady (d d' : Dashboard N) : Type 0 where
    pub busy : d'.busy ≡ d.busy
    pub sent : d'.sent ≡ d.sent
    pub error : IsFrom d.machine.poll.error d'.machine.poll.error

  -- A step of the polling effect, with the effect on the status after it.
  with_machine-IsSteady :
      (m : Machine N) (d d' : Dashboard N)
      → IsFrom d'.machine.poll.error m.poll.error
      → IsSteady d d'
      → IsSteady d (with_machine m d')
  unfolding follow_status
  with_machine-IsSteady m d d' h r =
      let shown = IsFrom-then _ _ _ r.error h in
      elim (Bool-cases (same_status d'.resume.status (transfer_status m.poll))) [
        | inl e ↦ rw (e, follow_status) (record { busy = r.busy; sent = r.sent; error = shown })
        | inr e ↦ rw (e, follow_status) (record { busy = r.busy; sent = r.sent; error = shown })
      ]

  Meanwhile-IsSteady : {d d' : Dashboard N} → Meanwhile d d' → IsSteady d d'
  unfolding choose_file
  Meanwhile-IsSteady {d} nothing = record { busy = refl; sent = refl; error = inl refl }
  Meanwhile-IsSteady {d} (ticked {d'} hidden r) =
      with_machine-IsSteady (tick hidden d'.machine) d d' (inl (tick-error hidden d'.machine))
        (Meanwhile-IsSteady r)
  Meanwhile-IsSteady {d} (replied {d'} i a r) =
      with_machine-IsSteady (reply i a d'.machine) d d' (reply-error i a d'.machine)
        (Meanwhile-IsSteady r)
  Meanwhile-IsSteady {d} (refreshed {d'} s t r) =
      with_machine-IsSteady (record d'.machine { poll = refresh s t d'.machine.poll }) d d'
        (inl (refresh-error s t d'.machine.poll)) (Meanwhile-IsSteady r)
  Meanwhile-IsSteady {d} (unmounted {d'} r) =
      with_machine-IsSteady (unmount d'.machine) d d' (inl refl) (Meanwhile-IsSteady r)
  Meanwhile-IsSteady {d} (chosen {d'} f r) =
      let h = Meanwhile-IsSteady r in record { busy = h.busy; sent = h.sent; error = h.error }
  Meanwhile-IsSteady {d} (checked {d'} i a r) =
      let h = Meanwhile-IsSteady r in record { busy = h.busy; sent = h.sent; error = h.error }

  -- The error when an action settles: its own message, or none but what a poll has made since.
  abbrev pub IsShownAt : Result N → Option Text → Type 0
  IsShownAt (Result.failure msg) e = e ≡ some msg
  IsShownAt (Result.value v) e = (e ≡ none) ⊎ (e ≡ some unreachable)

  settled-error :
      (requests : List (Request N)) (result : Result N) (d : Dashboard N)
      → (d.machine.poll.error ≡ none) ⊎ (d.machine.poll.error ≡ some unreachable)
      → IsShownAt result
          (settle_action (record { requests = requests; result = result }) d).machine.poll.error
  settled-error requests (Result.value v) d h = h
  settled-error requests (Result.failure msg) d h = refl

  IsShownAt-IsFrom :
      (result : Result N) (e : Option Text) → IsShownAt result e → IsFrom (error_of result) e
  IsShownAt-IsFrom (Result.value v) e (inl h) = inl h
  IsShownAt-IsFrom (Result.value v) e (inr h) = inr (inr h)
  IsShownAt-IsFrom (Result.failure msg) e h = inl h

  -- Whatever polls, answers and picked files come between the steps of an action, the busy flag
  -- is up until its requests have settled and down at the end of its refresh, and the actions
  -- have then sent its requests and those of its refresh, no others. When it settles, the error
  -- is its own message if it failed, and otherwise none or that of a poll that failed meanwhile;
  -- at the end of the refresh it is the action's message, none, or that of a poll: the error of
  -- an earlier action is gone.
  pub action-ends :
      (ran : Ran N) (d d1 d2 : Dashboard N)
      → Meanwhile (begin_action d) d1
      → Meanwhile (settle_action ran d1) d2
      → (d1.busy ≡ true)
        × (d2.busy ≡ false)
        × (d2.sent ≡ d.sent ++ (ran.requests ++ refresh_requests))
        × IsShownAt ran.result (settle_action ran d1).machine.poll.error
        × IsFrom (error_of ran.result) d2.machine.poll.error
  action-ends ran d d1 d2 r1 r2 =
      let before = Meanwhile-IsSteady r1 in
      let after = Meanwhile-IsSteady r2 in
      let shown =
        settled-error ran.requests ran.result d1 (begun-error d1.machine.poll.error before.error) in
      (
        before.busy,
        after.busy,
        after.sent ∙ ap (λ sent. sent ++ (ran.requests ++ refresh_requests)) before.sent,
        shown,
        IsFrom-then (error_of ran.result) (settle_action ran d1).machine.poll.error
            d2.machine.poll.error
            (IsShownAt-IsFrom ran.result (settle_action ran d1).machine.poll.error shown)
            after.error,
      )
