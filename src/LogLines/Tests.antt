-- ===== src/LogLines/Tests.antt =====
-- Log lines of the backend.
use fast_share.Common.{◌≤◌, ◌≡◌, refl}
use fast_share.Common.Text.{Text, units}
use fast_share.LogLines.{LogTone, classify_log_line, lower}
use fast_share.LogLines.Laws.{Holds, rank, classify_log_line-Holds, classify_log_line-packet}

lost : classify_log_line (units "ACK #3 lost (simulated)") ≡ LogTone.loss
unfolding classify_log_line
lost = refl

server_data : classify_log_line (units "SERVER <- DATA #3 received") ≡ LogTone.server_data
unfolding classify_log_line
server_data = refl

-- backend/udp/server.py writes its line so, which makes it an "ack" line
server_line : classify_log_line (units "SERVER <- DATA #3/9 received, sending ACK #3") ≡ LogTone.ack
unfolding classify_log_line
server_line = refl

abbrev started : Text
started = units "Transfer started: a.bin (4096 bytes, 4 packets, 1024B)"

classify_log_line-Holds_example :
    Holds (classify_log_line started) started
    × ((tone : LogTone) → Holds tone started → rank (classify_log_line started) ≤ rank tone)
classify_log_line-Holds_example = classify_log_line-Holds started

classify_log_line-packet_example : rank (classify_log_line started) ≤ rank LogTone.ack
unfolding lower
classify_log_line-packet_example =
    classify_log_line-packet started
      (units "transfer started: a.bin (4096 bytes, 4 ", units "s, 1024b)", refl)
