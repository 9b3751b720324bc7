-- ===== src/Dashboard.antt =====
-- frontend/hooks/useTransfer.ts: the hooks put together. The error of the polling hook is the one
-- that the actions set, the refresh after an action is the polling hook's, and the resume banner
-- follows the transfer's status and the selected file.
pub mod Laws
pub mod Ends
pub mod Tests
use fast_share.Common.{◌≡◌, refl, ℕ, Bool, true, false, Option, none, some, List, [], ◌∷◌}
use fast_share.Common.Tests.{if◌then◌else◌, or_else}
use fast_share.Common.Text.{Text, units, text_eq}
use fast_share.Common.Number.{Number}
use fast_share.Types.{TransferStatus, ResumeInfo}
use fast_share.Json.{Json}
use fast_share.Selection.{File, Files, no_file, select_file}
use fast_share.Resume.{Resume, first_resume, answer, pick, set_status}
use fast_share.Requests.{Request}
use fast_share.Requests.Actions.{Hook, Ran, begin_run, end_run}
use fast_share.Polling.{Poll, Machine, Reply, mounted, read, refresh}

pub record Dashboard (N : Type 0) : Type 0 where
  pub machine : Machine N
  pub files : Files
  pub resume : Resume N
  pub busy : Bool
  pub sent : List (Request N)
  pub refreshes : ℕ

pub TransferStatus-discrete : Discrete TransferStatus
TransferStatus-discrete = hlevel

-- whether a dependency of an effect is as it was
unfoldable pub same_status : Option TransferStatus → Option TransferStatus → Bool
unfolding TransferStatus-discrete
same_status none none = true
same_status none (some b) = false
same_status (some a) none = false
same_status (some a) (some b) = elim (TransferStatus-discrete a b) [ yes _ ↦ true | no _ ↦ false ]

unfoldable pub status_of_text : Text → Option TransferStatus
unfolding text_eq
status_of_text t =
    if text_eq t (units "idle")
    then some TransferStatus.idle
    else if text_eq t (units "transferring")
    then some TransferStatus.transferring
    else if text_eq t (units "completed")
    then some TransferStatus.completed
    else if text_eq t (units "failed")
    then some TransferStatus.failed
    else if text_eq t (units "cancelled")
    then some TransferStatus.cancelled
    else none

module _ {N : Type 0} where
  abbrev pub status_of_json : Json N → Option TransferStatus
  status_of_json (Json.string t) = status_of_text t
  status_of_json _ = none

  module _ ⦃num : Number N⦄ where
    -- `status?.transfer_status ?? null`
    unfoldable pub transfer_status : Poll N → Option TransferStatus
    unfolding read status_of_text
    transfer_status p = elim (read (units "transfer_status") p.status) [
      | none ↦ none
      | some v ↦ status_of_json v
    ]

    unfoldable pub first_dashboard : Dashboard N
    unfolding mounted
    first_dashboard = record {
      machine = mounted;
      files = no_file;
      resume = first_resume;
      busy = false;
      sent = [];
      refreshes = 0;
    }

    -- the effect of useResume on the transfer's status, after a render
    unfoldable pub follow_status : Dashboard N → Dashboard N
    unfolding transfer_status same_status set_status
    follow_status d =
        if same_status d.resume.status (transfer_status d.machine.poll)
        then d
        else record d { resume = set_status (transfer_status d.machine.poll) d.resume }

    -- what happens to the polling effect
    abbrev pub with_machine : Machine N → Dashboard N → Dashboard N
    with_machine m d = follow_status (record d { machine = m })

    unfoldable pub choose_file : Option File → Dashboard N → Dashboard N
    unfolding pick
    choose_file f d =
        let files = select_file f d.files in
        record d { files = files; resume = pick files.selected_file d.resume }

    -- the answer to a check of the selected file
    abbrev pub resume_answered : ℕ → Option (ResumeInfo N) → Dashboard N → Dashboard N
    resume_answered i reply d = record d { resume = answer i reply d.resume }

    -- The state that useTransferActions sees, and the dashboard with another one.
    abbrev pub hook : Dashboard N → Hook N
    hook d = record {
      busy = d.busy;
      error = d.machine.poll.error;
      sent = d.sent;
      refreshes = d.refreshes;
    }

    abbrev pub with_hook : Hook N → Dashboard N → Dashboard N
    with_hook h d = record d {
      machine = record d.machine { poll = record d.machine.poll { error = h.error } };
      busy = h.busy;
      sent = h.sent;
      refreshes = h.refreshes;
    }

    -- `runOnce` until `fn()` settles, and the rest of it with the answers to its refresh
    abbrev pub begin_action : Dashboard N → Dashboard N
    begin_action d = with_hook (begin_run (hook d)) d

    -- `catch`, and `finally` until the refresh waits
    abbrev pub settle_action : Ran N → Dashboard N → Dashboard N
    settle_action ran d = with_hook (end_run ran (hook d)) d

    abbrev pub settled_action : Ran N → Reply N → Reply N → Dashboard N → Dashboard N
    settled_action ran s t d =
        let ended = settle_action ran d in
        record ended { machine = record ended.machine { poll = refresh s t ended.machine.poll } }

    unfoldable pub end_action : Ran N → Reply N → Reply N → Dashboard N → Dashboard N
    unfolding follow_status refresh
    end_action ran s t d = follow_status (settled_action ran s t d)
