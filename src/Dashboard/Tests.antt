-- ===== src/Dashboard/Tests.antt =====
-- The dashboard with a file picked while the backend answers, and an action that is refused.
use fast_share.Common.{◌≡◌, refl, ◌++◌, true, ℕ, false, none, some, [], ◌∷◌}
use fast_share.Common.Text.{units, text_eq}
use fast_share.Common.Number.Hundredths.{hundredths}
use fast_share.Types.{TransferStatus}
use fast_share.Json.{Json, Fields}
use fast_share.Selection.{File}
use fast_share.Requests.{Result}
use fast_share.Requests.Actions.{Ran, refresh_requests, error_of}
use fast_share.Polling
use fast_share.Polling.{Reply, Machine, tick, reply, wants_topology, read}
use fast_share.Polling.Laws.{poll_once, resting}
use fast_share.Polling.Success.{answers}
use fast_share.Dashboard.{
  Dashboard, first_dashboard, choose_file, transfer_status, end_action, begin_action, settle_action,
  with_machine,
}
use fast_share.Dashboard.Ends.{Meanwhile, IsShownAt, IsFrom, action-ends}
use fast_share.Dashboard.Laws.{Step, Reach, IsJoined, Reach-IsJoined, end_action-cleared}

abbrev file : File
file = record { name = units "a.bin"; size = 4096; bytes = [] }

abbrev status : Json ℕ
status = Json.object (
    Fields.field (units "transfer_status") (Json.string (units "cancelled"))
      (Fields.field (units "config") (Json.object Fields.end) Fields.end))

abbrev packets : Fields ℕ
packets = Fields.field (units "cursor") (Json.number 300) Fields.end

abbrev refused : Ran ℕ
refused = record { requests = []; result = Result.failure (units "no file selected") }

abbrev chosen : Dashboard ℕ
chosen = choose_file (some file) first_dashboard

chosen_asks : chosen.resume.asked ≡ record { name = units "a.bin"; size = 4096 } ∷ []
unfolding choose_file first_dashboard
chosen_asks = refl

-- The refresh after the action brings the status; as it is one that can be resumed, the file is
-- checked again.
abbrev ended : Dashboard ℕ
ended = end_action refused (Reply.answered status) Reply.failed (begin_action chosen)

ended_status : transfer_status ended.machine.poll ≡ some TransferStatus.cancelled
unfolding end_action choose_file first_dashboard transfer_status Polling.refresh
ended_status = refl

Reach-IsJoined_example : IsJoined ended
Reach-IsJoined_example = Reach-IsJoined (
    Reach.next (Reach.next (Reach.next Reach.start (Step.chosen (some file))) Step.begun)
      (Step.ended refused (Reply.answered status) Reply.failed))

asks_nothing : wants_topology status ≡ some false
unfolding wants_topology text_eq
asks_nothing = refl

end_action-cleared_example :
    (ended.machine.poll.error ≡ some (units "no file selected"))
    × ((poll_once (answers status packets none) (resting ended.machine.poll)).poll.error ≡ none)
end_action-cleared_example =
    end_action-cleared refused (units "no file selected") (Reply.answered status) Reply.failed
      (begin_action chosen) status packets none refl asks_nothing

-- A poll fails while the action waits, and a file is picked while the refresh waits.
abbrev waiting : Dashboard ℕ
waiting =
    let ticked = with_machine (tick false (begin_action chosen).machine) (begin_action chosen) in
    with_machine (reply 0 Reply.failed ticked.machine) ticked

abbrev settled : Dashboard ℕ
settled = choose_file none (settle_action refused waiting)

action-ends_example :
    (waiting.busy ≡ true)
    × (settled.busy ≡ false)
    × (settled.sent ≡ chosen.sent ++ (refused.requests ++ refresh_requests))
    × IsShownAt refused.result (settle_action refused waiting).machine.poll.error
    × IsFrom (error_of refused.result) settled.machine.poll.error
action-ends_example =
    action-ends refused chosen waiting settled
      (Meanwhile.replied 0 Reply.failed (Meanwhile.ticked false Meanwhile.nothing))
      (Meanwhile.chosen none Meanwhile.nothing)
