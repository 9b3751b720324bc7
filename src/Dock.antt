-- ===== src/Dock.antt =====
-- frontend/components/TransferDock.tsx: the state that the dock shows, and its buttons. Also the
-- progress of frontend/components/tabs/StatsTab.tsx.
pub mod Laws
pub mod Chips
pub mod Tests
use fast_share.Common.{
  ℕ, ◌+◌, Bool, true, false, not, ◌&&◌, ◌||◌, Option, none, some, List, [], ◌∷◌, ◌++◌,
}
use fast_share.Common.Tests.{if◌then◌else◌, ltb, ◌==◌, or_else}
use fast_share.Common.Text.{Text, units, decimal}
use fast_share.Common.Number.{Number, min_of, max_of}
use fast_share.Types.{Snapshot, ServerStatus, TransferStatus, ResumeInfo}

-- What the badge of the dock says; a stopped transfer can be resumed.
pub data StateLabel : Type 0 where
  streaming done failed paused ready idle : StateLabel

pub data Tone : Type 0 where
  cyan green red amber slate : Tone

-- What a button does; `starts` says whether the transfer is resumed.
pub data Press : Type 0 where
  starts : Bool → Press
  dismisses : ℕ → Press
  cancels starts_server : Press

pub record Button : Type 0 where
  pub press : Press
  pub disabled : Bool

-- The properties of the component and its state.
pub record Dock (N : Type 0) : Type 0 where
  pub status : Option (Snapshot N)
  pub has_file : Bool
  pub busy : Bool
  pub resume_info : Option (ResumeInfo N)
  pub dismissed_seq : Option ℕ

-- `dismissedSeq !== resumeInfo.resumed_seq`
abbrev pub is_dismissed : Option ℕ → ℕ → Bool
is_dismissed none seq = false
is_dismissed (some d) seq = d == seq

-- `s?.server_status === ...`, `s?.transfer_status === ...`
module _ {N : Type 0} where
  abbrev pub is_server : (ServerStatus → Bool) → Option (Snapshot N) → Bool
  is_server p none = false
  is_server p (some s) = p s.server_status

  abbrev pub is_transfer : (TransferStatus → Bool) → Option (Snapshot N) → Bool
  is_transfer p none = false
  is_transfer p (some s) = p s.transfer_status

  abbrev pub server_running : Option (Snapshot N) → Bool
  server_running = is_server λ s. elim s [ ServerStatus.running ↦ true | _ ↦ false ]

  abbrev pub server_error : Option (Snapshot N) → Bool
  server_error = is_server λ s. elim s [ ServerStatus.error ↦ true | _ ↦ false ]

  abbrev pub transferring : Option (Snapshot N) → Bool
  transferring = is_transfer λ s. elim s [ TransferStatus.transferring ↦ true | _ ↦ false ]

  abbrev pub completed : Option (Snapshot N) → Bool
  completed = is_transfer λ s. elim s [ TransferStatus.completed ↦ true | _ ↦ false ]

  abbrev pub has_failed : Option (Snapshot N) → Bool
  has_failed = is_transfer λ s. elim s [ TransferStatus.failed ↦ true | _ ↦ false ]

  abbrev pub cancelled : Option (Snapshot N) → Bool
  cancelled = is_transfer λ s. elim s [ TransferStatus.cancelled ↦ true | _ ↦ false ]

  abbrev pub total : Option (Snapshot N) → ℕ
  total none = 0
  total (some s) = s.total_packets

  abbrev pub acked : Option (Snapshot N) → ℕ
  acked none = 0
  acked (some s) = s.packets_acked

  abbrev pub show_progress : Option (Snapshot N) → Bool
  show_progress s = ltb 0 (total s) && not (has_failed s)

  -- `!!resumeInfo?.available`
  abbrev pub is_available : Option (ResumeInfo N) → Bool
  is_available none = false
  is_available (some i) = i.available

  abbrev pub resumable : Dock N → Bool
  resumable d =
      is_available d.resume_info
      && (not (transferring d.status) && (d.has_file && not (completed d.status)))

  -- the offer that is shown: `resumeVisible && resumeInfo`
  unfoldable pub offer : Dock N → Option (ResumeInfo N)
  offer d = elim d.resume_info [
    | none ↦ none
    | some i ↦
        if resumable d && not (is_dismissed d.dismissed_seq i.resumed_seq) then some i else none
  ]

  unfoldable pub state_label : Option (Snapshot N) → StateLabel
  state_label s =
      if transferring s
      then StateLabel.streaming
      else if completed s
      then StateLabel.done
      else if has_failed s
      then StateLabel.failed
      else if cancelled s
      then StateLabel.paused
      else if server_running s
      then StateLabel.ready
      else StateLabel.idle

  unfoldable pub state_tone : Dock N → Tone
  state_tone d =
      if transferring d.status
      then Tone.cyan
      else if completed d.status
      then Tone.green
      else if has_failed d.status
      then Tone.red
      else if cancelled d.status || resumable d
      then Tone.amber
      else Tone.slate

  -- the primary action
  unfoldable pub buttons : Dock N → List Button
  unfolding offer
  buttons d =
      let locked = d.busy || not (server_running d.status) in
      elim (offer d) [
        | some i ↦
            record { press = Press.starts true; disabled = locked }
            ∷ record { press = Press.starts false; disabled = locked }
            ∷ record { press = Press.dismisses i.resumed_seq; disabled = false }
            ∷ []
        | none ↦
            if transferring d.status
            then record { press = Press.cancels; disabled = d.busy } ∷ []
            else if not (server_running d.status)
            then record { press = Press.starts_server; disabled = d.busy } ∷ []
            else record { press = Press.starts true; disabled = d.busy || not d.has_file } ∷ []
      ]

  -- the chip of the receiver, which starts it too
  abbrev pub receiver_chip : Dock N → Button
  receiver_chip d = record {
    press = Press.starts_server;
    disabled = d.busy || server_running d.status;
  }

  abbrev pub receiver_label : Option (Snapshot N) → Text
  receiver_label s =
      if server_running s
      then units "Online"
      else if server_error s
      then units "Error"
      else units "Offline"

  unfoldable pub resume_label : ResumeInfo N → Text
  unfolding decimal
  resume_label i = units "Resume #" ++ decimal (i.resumed_seq + 1)

  unfoldable pub frames_label : Option (Snapshot N) → Text
  unfolding decimal
  frames_label s = decimal (acked s) ++ (units "/" ++ decimal (total s))

  -- the button that dismisses the offer
  abbrev pub dismiss : ℕ → Dock N → Dock N
  dismiss seq d = record d { dismissed_seq = some seq }

  module _ ⦃num : Number N⦄ where
    abbrev pub hundred : N
    hundred = num.of_nat 100

    abbrev pub share : ℕ → ℕ → N
    share part whole = num.mul (num.div (num.of_nat part) (num.of_nat whole)) hundred

    -- the width of the bar, and its number after `Math.round`
    unfoldable pub pct : Option (Snapshot N) → N
    unfolding min_of
    pct s = if ltb 0 (total s) then min_of hundred (share (acked s) (total s)) else num.of_nat 0

    -- StatsTab: `status.total_packets || 1`
    unfoldable pub percent : Snapshot N → N
    unfolding min_of
    percent s =
        let t : ℕ = if s.total_packets == 0 then 1 else s.total_packets in
        min_of hundred (share s.packets_acked t)

    abbrev pub stats_pct : Option (Snapshot N) → N
    stats_pct none = num.of_nat 0
    stats_pct (some s) = percent s

    -- StatsTab: the width of the bar
    unfoldable pub bar_width : Option (Snapshot N) → N
    unfolding percent max_of
    bar_width s = max_of (num.of_nat 0) (min_of hundred (stats_pct s))
