-- ===== src/Resume/Tests.antt =====
-- The banner on short runs.
use fast_share.Common.{ℕ, ◌≡◌, refl, true, Option, none, some, [], ◌∷◌}
use fast_share.Common.Text.{units, text_eq}
use fast_share.Common.Tests.{if◌then◌else◌}
use fast_share.Types.{ResumeInfo, SelectedFile, TransferStatus}
use fast_share.Resume.{Resume, first_resume, answer, pick, set_status}
use fast_share.Resume.Laws.{IsOwn, Step, Reach, Reach-IsOwn}

abbrev file_a : SelectedFile
file_a = record { name = units "a.bin"; size = 4096 }

abbrev file_b : SelectedFile
file_b = record { name = units "b.bin"; size = 100 }

abbrev half_of_a : ResumeInfo ℕ
half_of_a = record {
  available = true;
  resumed_seq = 2;
  received_bytes = 2048;
  total_packets = 4;
  file_size = 4096;
  percent = 5000;
}

-- a copy of a.bin is there, and none of b.bin
abbrev check : SelectedFile → Option (ResumeInfo ℕ)
check f = if text_eq f.name (units "a.bin") then some half_of_a else none

-- The answer of the first file's check comes after that of the second: its banner is shown.
late_answer_wins :
    (answer 0
      (check file_a)
      (answer 1 (check file_b) (pick (some file_b) (pick (some file_a) first_resume)))).info
    ≡ some half_of_a
unfolding answer pick text_eq
late_answer_wins = refl

-- A check that a pick has begun shows the banner also while the transfer runs.
answer_while_running :
    (answer 0
      (check file_a)
      (set_status (some TransferStatus.transferring) (pick (some file_a) first_resume))).info
    ≡ some half_of_a
unfolding answer pick set_status text_eq
answer_while_running = refl

abbrev shown : Resume ℕ
shown = answer 0 (check file_a) (pick (some file_a) first_resume)

shown_asks : (pick (some file_a) (first_resume {N = ℕ})).asked ≡ file_a ∷ []
unfolding pick
shown_asks = refl

shown_rests : shown.asked ≡ []
unfolding pick answer
shown_rests = refl

Reach-IsOwn_example : IsOwn check shown
Reach-IsOwn_example =
    Reach-IsOwn check
      (Reach.next (Reach.next Reach.start (Step.picked (some file_a) refl))
        (Step.answered file_a shown_asks))
      shown_rests
