-- ===== src/Resume.antt =====
-- frontend/hooks/useResume.ts: the resume banner of the selected file. A check is asynchronous: the
-- files that wait for their answer are the list `asked`.
pub mod Laws
pub mod Tests
use fast_share.Common.{
  ℕ, ◌≡◌, Bool, true, false, not, ◌&&◌, ◌||◌, Option, none, some, List, [], ◌∷◌, ◌++◌,
}
use fast_share.Common.Tests.{if◌then◌else◌}
use fast_share.Common.Lists.{get_elem?, remove_at}
use fast_share.Types.{TransferStatus, ResumeInfo, SelectedFile}

-- The state of the hook, and its properties.
pub record Resume (N : Type 0) : Type 0 where
  pub info : Option (ResumeInfo N)
  pub prev : Option TransferStatus
  pub file : Option SelectedFile
  pub status : Option TransferStatus
  pub asked : List SelectedFile

abbrev pub first_resume : {N : Type 0} → Resume N
first_resume = record { info = none; prev = none; file = none; status = none; asked = [] }

abbrev pub is_running : Option TransferStatus → Bool
is_running (some TransferStatus.transferring) = true
is_running _ = false

-- `(current === "failed" || current === "cancelled") && prev !== current`
abbrev pub has_ended : Option TransferStatus → Option TransferStatus → Bool
has_ended (some TransferStatus.failed) (some TransferStatus.failed) = false
has_ended (some TransferStatus.cancelled) (some TransferStatus.cancelled) = false
has_ended (some TransferStatus.failed) prev = true
has_ended (some TransferStatus.cancelled) prev = true
has_ended _ prev = false

module _ {N : Type 0} where
  -- `refreshResume` until its request is sent
  abbrev pub ask : Option SelectedFile → Resume N → Resume N
  ask none r = record r { info = none }
  ask (some f) r = record r { asked = r.asked ++ f ∷ [] }

  -- `info.available ? info : null`; a failed check hides the banner
  abbrev pub usable : Option (ResumeInfo N) → Option (ResumeInfo N)
  usable none = none
  usable (some i) = if i.available then some i else none

  -- the answer to the check at `i`
  unfoldable pub answer : ℕ → Option (ResumeInfo N) → Resume N → Resume N
  answer i reply r = elim (get_elem? r.asked i) [
    | none ↦ r
    | some f ↦ record r { info = usable reply; asked = remove_at r.asked i }
  ]

  -- the effect on the transfer's status and the file
  unfoldable pub watch : Resume N → Resume N
  watch r =
      let seen : Resume N = record r { prev = r.status } in
      if is_running r.status
      then record seen { info = none }
      else if has_ended r.status r.prev
      then ask r.file seen
      else seen

  -- another file is picked: both effects run, in their order
  unfoldable pub pick : Option SelectedFile → Resume N → Resume N
  unfolding watch
  pick f r = watch (ask f (record r { file = f }))

  unfoldable pub set_status : Option TransferStatus → Resume N → Resume N
  unfolding watch
  set_status s r = watch (record r { status = s })
