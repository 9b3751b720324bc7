-- ===== src/Dashboard/Laws.antt =====
-- The hooks put together keep to what each of them promises.
use fast_share.Common.{
  ◌≡◌, refl, ap, ◌∙◌, ℕ, Bool, true, false, Option, none, some, inl, inr, Option-cases,
}
use fast_share.Common.Lists.{get_elem?}
use fast_share.Requests.Actions.{end_run, Hook}
use fast_share.Common.Tests.{Option-cases, Bool-cases, is_some}
use fast_share.Common.Text.{Text}
use fast_share.Common.Number.{Number}
use fast_share.Types.{TransferStatus, ResumeInfo, SelectedFile}
use fast_share.Json.{Json, Fields}
use fast_share.Selection.{File, Files, select_file}
use fast_share.Resume.{Resume, ask, watch, answer, pick, set_status, is_running, has_ended}
use fast_share.Requests.{Result}
use fast_share.Requests.Actions.{Ran}
use fast_share.Polling
use fast_share.Polling.{
  set_status as set_snapshot, Machine, Reply, Poll, refresh, wants_topology, set_topology,
}
use fast_share.Polling.Laws.{poll_once, resting}
use fast_share.Polling.Success.{answers, poll_once-IsPolled}
use fast_share.Dashboard.{
  Dashboard, TransferStatus-discrete, same_status, transfer_status, first_dashboard, follow_status,
  with_machine, choose_file, resume_answered, begin_action, end_action, settled_action, with_hook,
  hook,
}

decided :
    {a b : TransferStatus} (d : Dec (a ≡ b))
    → (let t : Bool = elim d [ yes _ ↦ true | no _ ↦ false ] in t) ≡ true
    → a ≡ b
decided (yes e) h = e
decided (no k) h = cc

same_status_sound : (a b : Option TransferStatus) → same_status a b ≡ true → a ≡ b
unfolding same_status
same_status_sound none none h = refl
same_status_sound none (some b) h = cc
same_status_sound (some a) none h = cc
same_status_sound (some a) (some b) h = ap some (decided (TransferStatus-discrete a b) h)

select_file_same :
    (f : Option File) (s : Files)
    → is_some (select_file f s).raw_file ≡ is_some (select_file f s).selected_file
select_file_same none s = refl
select_file_same (some f) s = refl

module _ {N : Type 0} ⦃num : Number N⦄ where
  -- A step of the polling effect, a file that is picked, an answer to a check, and the two ends of an
  -- action, whatever its requests are answered.
  pub data Step (d : Dashboard N) : Dashboard N → Type 0 where
    polled : (m : Machine N) → Polling.Step d.machine m → Step d (with_machine m d)
    chosen : (f : Option File) → Step d (choose_file f d)
    checked : (i : ℕ) (reply : Option (ResumeInfo N)) → Step d (resume_answered i reply d)
    begun : Step d (begin_action d)
    ended : (ran : Ran N) (s t : Reply N) → Step d (end_action ran s t d)

  pub data Reach : Dashboard N → Type 0 where
    start : Reach first_dashboard
    next : {d d' : Dashboard N} → Reach d → Step d d' → Reach d'

  -- The polling effect is in a state that it can reach by itself; the banner's file is the selected
  -- one and its status that of the last snapshot; and the file that is read is the one shown.
  pub record IsJoined (d : Dashboard N) : Type 0 where
    pub polls : Polling.Reach d.machine
    pub file : d.resume.file ≡ d.files.selected_file
    pub status : d.resume.status ≡ transfer_status d.machine.poll
    pub same : is_some d.files.raw_file ≡ is_some d.files.selected_file

  ask_keeps :
      (f : Option SelectedFile) (r : Resume N)
      → ((ask f r).file ≡ r.file) × ((ask f r).status ≡ r.status)
  ask_keeps none r = (refl, refl)
  ask_keeps (some f) r = (refl, refl)

  watch_keeps : (r : Resume N) → ((watch r).file ≡ r.file) × ((watch r).status ≡ r.status)
  unfolding watch
  watch_keeps r = elim (Bool-cases (is_running r.status)) [
    | inl e ↦ rw (e, watch) (refl, refl)
    | inr e ↦ elim (Bool-cases (has_ended r.status r.prev)) [
      | inl e1 ↦ rw (e, e1, watch) (ask_keeps r.file (record r { prev = r.status }))
      | inr e1 ↦ rw (e, e1, watch) (refl, refl)
    ]
  ]

  answer_keeps :
      (i : ℕ) (reply : Option (ResumeInfo N)) (r : Resume N)
      → ((answer i reply r).file ≡ r.file) × ((answer i reply r).status ≡ r.status)
  unfolding answer
  answer_keeps i reply r = elim (Option-cases (get_elem? r.asked i)) [
    | inl e ↦ simp (e, answer) (refl, refl)
    | inr (f, e) ↦ simp (e, answer) (refl, refl)
  ]

  -- The effect on the status joins a dashboard whose other parts agree.
  follow_status-IsJoined :
      (d : Dashboard N)
      → Polling.Reach d.machine
      → d.resume.file ≡ d.files.selected_file
      → is_some d.files.raw_file ≡ is_some d.files.selected_file
      → IsJoined (follow_status d)
  unfolding follow_status set_status
  follow_status-IsJoined d p f k =
      elim (Bool-cases (same_status d.resume.status (transfer_status d.machine.poll))) [
        | inl e ↦
            rw (e, follow_status)
              (record { polls = p; file = f; status = same_status_sound _ _ e; same = k })
        | inr e ↦
            let (file, status) =
              watch_keeps (record d.resume { status = transfer_status d.machine.poll }) in
            rw (e, follow_status) (record { polls = p; file = file ∙ f; status = status; same = k })
      ]

  choose_file-IsJoined :
      (f : Option File) (d : Dashboard N) → IsJoined d → IsJoined (choose_file f d)
  unfolding choose_file pick
  choose_file-IsJoined f d h =
      let g = (select_file f d.files).selected_file in
      let (file, status) = ask_keeps g (record d.resume { file = g }) in
      let (file1, status1) = watch_keeps (ask g (record d.resume { file = g })) in
      record {
        polls = h.polls;
        file = file1 ∙ file;
        status = status1 ∙ (status ∙ h.status);
        same = select_file_same f d.files;
      }

  with_error :
      (e : Option Text) {m : Machine N}
      → Polling.Reach m
      → Polling.Reach (record m { poll = record m.poll { error = e } })
  with_error e r = Polling.Reach.next r (Polling.Step.set_error e)

  Step-IsJoined : {d d' : Dashboard N} → Step d d' → IsJoined d → IsJoined d'
  unfolding end_action
  Step-IsJoined {d} (polled m st) h =
      follow_status-IsJoined (record d { machine = m }) (Polling.Reach.next h.polls st) h.file
        h.same
  Step-IsJoined {d} (chosen f) h = choose_file-IsJoined f d h
  Step-IsJoined {d} (checked i reply) h =
      let (file, status) = answer_keeps i reply d.resume in
      record { polls = h.polls; file = file ∙ h.file; status = status ∙ h.status; same = h.same }
  Step-IsJoined {d} begun h = record {
    polls = with_error none h.polls;
    file = h.file;
    status = h.status;
    same = h.same;
  }
  Step-IsJoined {d} (ended ran s t) h =
      follow_status-IsJoined (settled_action ran s t d)
        (Polling.Reach.next (with_error (end_run ran (hook d)).error h.polls)
          (Polling.Step.refreshed s t))
        h.file h.same

  -- In every state of the hooks put together, whatever the order of polls, answers, files,
  -- checks and actions, the polling effect is in a state that it can reach by itself, the file
  -- and the status that the banner goes by are the selected file and the status of the last
  -- snapshot, and a file is ready to be sent exactly if one is shown.
  pub Reach-IsJoined : {d : Dashboard N} → Reach d → IsJoined d
  unfolding Polling.mounted first_dashboard transfer_status
  Reach-IsJoined start = record {
    polls = Polling.Reach.start;
    file = refl;
    status = refl;
    same = refl;
  }
  Reach-IsJoined (next r st) = Step-IsJoined st (Reach-IsJoined r)

  pub follow_status-machine : (d : Dashboard N) → (follow_status d).machine ≡ d.machine
  unfolding follow_status
  follow_status-machine d =
      elim (Bool-cases (same_status d.resume.status (transfer_status d.machine.poll))) [
        | inl e ↦ rw (e, follow_status) refl
        | inr e ↦ rw (e, follow_status) refl
      ]

  pub refresh-error : (s t : Reply N) (p : Poll N) → (refresh s t p).error ≡ p.error
  unfolding refresh set_snapshot set_topology
  refresh-error (Reply.answered s) (Reply.answered t) p = refl
  refresh-error (Reply.answered s) Reply.failed p = refl
  refresh-error Reply.failed (Reply.answered t) p = refl
  refresh-error Reply.failed Reply.failed p = refl

  ended_error :
      (ran : Ran N) (msg : Text) (h : Hook N)
      → ran.result ≡ Result.failure msg
      → (end_run ran h).error ≡ some msg
  ended_error ran msg h e = simp e

  -- The message of an action that fails is shown when the action ends, and is gone after the
  -- next poll that succeeds, if no poll runs when that one starts.
  pub end_action-cleared :
      (ran : Ran N) (msg : Text) (s t : Reply N) (d : Dashboard N) (snapshot : Json N)
      (fs : Fields N) (tp : Option (Json N))
      → ran.result ≡ Result.failure msg
      → wants_topology snapshot ≡ some (is_some tp)
      → ((end_action ran s t d).machine.poll.error ≡ some msg)
        × ((poll_once
              (answers snapshot fs tp)
              (resting (end_action ran s t d).machine.poll)).poll.error
            ≡ none)
  unfolding end_action
  end_action-cleared ran msg s t d snapshot fs tp failed asks = (
    ap (λ m. m.poll.error) (follow_status-machine (settled_action ran s t d))
        ∙ refresh-error s t (with_hook (end_run ran (hook d)) d).machine.poll
        ∙ ended_error ran msg (hook d) failed,
    (poll_once-IsPolled (end_action ran s t d).machine.poll snapshot fs tp asks).quiet,
  )
