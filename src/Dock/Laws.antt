-- ===== src/Dock/Laws.antt =====
-- When a transfer can be started, cancelled or resumed, and what the progress bars show.
use fast_share.Common.{
  refl, ◌⊎◌, inl, inr, ◌≡◌, Bool, true, false, not, ◌&&◌, Option, none, some, List, arith,
}
use fast_share.Common.Tests.{ltb, Bool-cases, is_some}
use fast_share.Common.Lists.{any}
use fast_share.Common.Number.{Number, NumberLaws, min_of, max_of}
use fast_share.Types.{Snapshot}
use fast_share.Dock.{
  Press, Button, Dock, server_running, transferring, offer, buttons, pct, percent, stats_pct,
  bar_width, total, hundred, acked,
}

abbrev pub is_start : Press → Bool
is_start (Press.starts resume) = true
is_start _ = false

abbrev pub is_cancel : Press → Bool
is_cancel Press.cancels = true
is_cancel _ = false

abbrev pub is_restart : Press → Bool
is_restart (Press.starts resume) = not resume
is_restart _ = false

-- Some button with that effect can be pressed.
abbrev pub is_offered : (Press → Bool) → List Button → Bool
is_offered p bs = any (λ b. p b.press && not b.disabled) bs

module _ {N : Type 0} where
  -- Some button of the primary action that can be pressed starts a transfer exactly if nothing
  -- is under way, the receiver runs, a file is selected and no transfer runs; one cancels
  -- exactly if a transfer runs and nothing else is under way; and one starts over exactly if
  -- nothing is under way, the receiver runs and a resume offer is shown.
  pub buttons-offered :
      (d : Dock N)
      → (is_offered is_start (buttons d)
          ≡ not d.busy && (server_running d.status && (d.has_file && not (transferring d.status))))
        × (is_offered is_cancel (buttons d) ≡ not d.busy && transferring d.status)
        × (is_offered is_restart (buttons d)
            ≡ not d.busy && (server_running d.status && is_some (offer d)))
  unfolding buttons offer any
  buttons-offered d = (ground arith, ground arith, ground arith)

  module _ ⦃num : Number N⦄ (laws : NumberLaws num) where
    min_of-hundred : (x : N) → num.le (min_of hundred x) hundred ≡ true
    unfolding min_of
    min_of-hundred x = ground (arith, laws.le_total hundred x, laws.le_total hundred hundred)

    held_width :
        (x : N)
        → (num.le (num.of_nat 0) (max_of (num.of_nat 0) (min_of hundred x)) ≡ true)
          × (num.le (max_of (num.of_nat 0) (min_of hundred x)) hundred ≡ true)
    unfolding max_of
    held_width x = (
      ground (arith, laws.le_total (num.of_nat 0) (num.of_nat 0)),
      ground (arith, laws.le-of_nat 0 100, min_of-hundred x),
    )

    pct_le : (s : Option (Snapshot N)) → num.le (pct s) hundred ≡ true
    unfolding pct
    pct_le s = ground (
      arith,
      laws.le-of_nat 0 100,
      min_of-hundred (num.mul (num.div (num.of_nat (acked s)) (num.of_nat (total s))) hundred),
    )

    pct-percent : (s : Option (Snapshot N)) → (total s ≡ 0) ⊎ (pct s ≡ stats_pct s)
    unfolding pct percent
    pct-percent none = inl refl
    pct-percent (some s) = elim (Bool-cases (ltb 0 s.total_packets)) [
      | inl e ↦ inr (ground arith)
      | inr e ↦ inl (ground arith)
    ]

    -- Neither progress bar exceeds 100, the one of the Stats tab is not below 0, and both show
    -- the same share unless there are no packets, if the numbers meet their laws.
    progress_bounds :
        (s : Option (Snapshot N))
        → (num.le (pct s) hundred ≡ true)
          × (num.le (num.of_nat 0) (bar_width s) ≡ true)
          × (num.le (bar_width s) hundred ≡ true)
          × ((total s ≡ 0) ⊎ (pct s ≡ stats_pct s))
    unfolding bar_width
    progress_bounds s =
        let (low, high) = held_width (stats_pct s) in (pct_le s, low, high, pct-percent s)
