-- ===== src/Dock/Tests.antt =====
-- The dock on the sample snapshot.
use fast_share.Common.{◌≡◌, refl, true, false, Option, none, some, [], ◌∷◌, ℕ, not, ◌&&◌}
use fast_share.Common.Text.{units}
use fast_share.Common.Number.Hundredths.{hundredths}
use fast_share.Types.{Snapshot, TransferStatus, ResumeInfo}
use fast_share.Samples.{snapshot}
use fast_share.Dock.{
  Dock, Press, StateLabel, Tone, buttons, offer, state_label, state_tone, pct, dismiss,
  resume_label, frames_label, server_running, transferring,
}
use fast_share.Dock.Laws.{buttons-offered, is_offered, is_start, is_cancel, is_restart}
use fast_share.Common.Tests.{is_some}

abbrev half : ResumeInfo ℕ
half = record {
  available = true;
  resumed_seq = 1;
  received_bytes = 2048;
  total_packets = 4;
  file_size = 4096;
  percent = 5000;
}

abbrev stopped : Snapshot ℕ
stopped = record snapshot { transfer_status = TransferStatus.cancelled }

abbrev dock : Dock ℕ
dock = record {
  status = some stopped;
  has_file = true;
  busy = false;
  resume_info = some half;
  dismissed_seq = none;
}

running_buttons :
    buttons (record dock { status = some snapshot })
    ≡ record { press = Press.cancels; disabled = false } ∷ []
unfolding buttons
running_buttons = refl

stopped_buttons :
    buttons dock
    ≡ record { press = Press.starts true; disabled = false }
      ∷ record { press = Press.starts false; disabled = false }
      ∷ record { press = Press.dismisses 1; disabled = false }
      ∷ []
unfolding buttons
stopped_buttons = refl

stopped_label : state_label (some stopped) ≡ StateLabel.paused
unfolding state_label
stopped_label = refl

stopped_tone : state_tone dock ≡ Tone.amber
unfolding state_tone
stopped_tone = refl

half_label : resume_label half ≡ units "Resume #2"
unfolding resume_label
half_label = refl

running_frames : frames_label (some snapshot) ≡ units "1/4"
unfolding frames_label
running_frames = refl

running_pct : pct (some snapshot) ≡ 2500
unfolding pct
running_pct = refl

-- What is remembered of a dismissed offer is its number: the offer for another file with the same
-- number is hidden too, and the button that is left resumes that file.
abbrev other_file : ResumeInfo ℕ
other_file = record half { total_packets = 9; file_size = 9000; received_bytes = 2000 }

other_offer_hidden :
    buttons (record (dismiss 1 dock) { resume_info = some other_file })
    ≡ record { press = Press.starts true; disabled = false } ∷ []
unfolding buttons
other_offer_hidden = refl

buttons-offered_example :
    (is_offered is_start (buttons dock)
      ≡ not dock.busy
        && (server_running dock.status && (dock.has_file && not (transferring dock.status))))
    × (is_offered is_cancel (buttons dock) ≡ not dock.busy && transferring dock.status)
    × (is_offered is_restart (buttons dock)
        ≡ not dock.busy && (server_running dock.status && is_some (offer dock)))
buttons-offered_example = buttons-offered dock

abbrev waiting : Option (Snapshot ℕ)
waiting = some snapshot
