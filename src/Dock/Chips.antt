-- ===== src/Dock/Chips.antt =====
-- frontend/components/TransferDock.tsx: the chips of the receiver and of the file.
use fast_share.Common.{ℕ, Bool, true, false, Option, none, some, List, [], ◌∷◌, ◌++◌}
use fast_share.Common.Tests.{if◌then◌else◌, or_else}
use fast_share.Common.Text.{Text, units, decimal}
use fast_share.Types.{Snapshot}
use fast_share.Dock.{server_running, server_error, transferring}

-- What the file chip does with the files that the input answers; a cleared chip passes null on.
pub data FilePress (F : Type 0) : Type 0 where
  picked : List F → FilePress F
  cleared : FilePress F

-- `s?.server_error` where it is truthy
abbrev pub error_text : {N : Type 0} → Option (Snapshot N) → Option Text
error_text none = none
error_text (some s) = elim s.server_error [
  | none ↦ none
  | some m ↦ elim m [ [] ↦ none | ◌∷◌ c cs ↦ some (c ∷ cs) ]
]

abbrev pub port : {N : Type 0} → Option (Snapshot N) → ℕ
port none = 5001
port (some s) = s.server_port

abbrev pub address : {N : Type 0} → Option (Snapshot N) → Text
address none = units "127.0.0.1"
address (some s) = s.config.server_ip

-- the title of the chip behind `serverError && s?.server_error`
unfoldable pub plain_title : {N : Type 0} → Option (Snapshot N) → Text
unfolding decimal
plain_title s =
    if server_running s
    then units "UDP receiver on " ++ (address s ++ (units ":" ++ decimal (port s)))
    else units "Start the UDP receiver"

unfoldable pub receiver_title : {N : Type 0} → Option (Snapshot N) → Text
unfolding plain_title
receiver_title s = if server_error s then or_else (error_text s) (plain_title s) else plain_title s

-- the title of the button that starts the receiver
abbrev pub start_title : {N : Type 0} → Option (Snapshot N) → Text
start_title s =
    if server_error s
    then or_else (error_text s) (units "Start the UDP receiver first")
    else units "Start the UDP receiver first"

-- `hasFile ? (fileName ?? "file") : "SELECT FILE"`
abbrev pub file_label : Bool → Option Text → Text
file_label true name = or_else name (units "file")
file_label false name = units "SELECT FILE"

-- the file that is passed to `onSelectFile`, `none` where the chip is disabled
unfoldable pub press_file : {N F : Type 0} → Option (Snapshot N) → FilePress F → Option (Option F)
press_file s (FilePress.picked []) = if transferring s then none else some none
press_file s (FilePress.picked (f ∷ fs)) = if transferring s then none else some (some f)
press_file s FilePress.cleared = if transferring s then none else some none
