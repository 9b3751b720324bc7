-- ===== src/LogLines.antt =====
-- frontend/lib/logClassify.ts: the tone of a log line. The patterns carry the flag `i`, which folds
-- the case of the ASCII letters.
pub mod Laws
pub mod Tests
use fast_share.Common.{ℕ, ◌+◌, Bool, true, false, ◌&&◌, ◌||◌, List, [], ◌∷◌}
use fast_share.Common.Tests.{if◌then◌else◌, ◌==◌, leb}
use fast_share.Common.Text.{Text, units}

pub data LogTone : Type 0 where
  loss duplicate retransmit ack server_data client_data lifecycle sent neutral : LogTone

unfoldable pub lower : ℕ → ℕ
lower c = if leb 65 c && leb c 90 then c + 32 else c

-- `/^pattern/i.test(text)` for a pattern in lower case
unfoldable pub starts : Text → Text → Bool
unfolding lower
starts [] t = true
starts (p ∷ ps) [] = false
starts (p ∷ ps) (c ∷ t) = lower c == p && starts ps t

-- `/pattern/i.test(text)`
unfoldable pub occurs : Text → Text → Bool
unfolding starts
occurs p [] = starts p []
occurs p (c ∷ t) = starts p (c ∷ t) || occurs p t

unfoldable pub classify_log_line : Text → LogTone
unfolding occurs
classify_log_line text =
    if occurs (units "lost") text || occurs (units "timeout") text
    then LogTone.loss
    else if occurs (units "duplicate") text
    then LogTone.duplicate
    else if occurs (units "retransmit") text
    then LogTone.retransmit
    else if occurs (units "ack") text
    then LogTone.ack
    else if occurs (units "server <- data") text
    then LogTone.server_data
    else if occurs (units "client -> data") text
    then LogTone.client_data
    else if occurs (units "complete") text
        || (occurs (units "finished") text
            || (starts (units "server listening") text || occurs (units "transfer started") text))
    then LogTone.lifecycle
    else if occurs (units "sent") text || occurs (units "start") text
    then LogTone.sent
    else LogTone.neutral
