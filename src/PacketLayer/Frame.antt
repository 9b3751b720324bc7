-- ===== src/PacketLayer/Frame.antt =====
-- frontend/components/PacketLayer.tsx, the frame loop: each animation frame moves the sprites, and
-- removes those that are done. Both loops run backwards and splice the array in place.
pub mod Sweep
pub mod Laws
pub mod Ends
pub mod Kept
use fast_share.Common.{
  ℕ, zero, suc, ◌+◌, Bool, true, false, not, ◌&&◌, ◌||◌, Option, none, some, List, [], ◌∷◌, ◌++◌,
}
use fast_share.Common.Tests.{or_else, if◌then◌else◌}
use fast_share.Common.Lists.{length, get_elem?, set, remove_at, last_or}
use fast_share.Common.Number.{Number, lt}
use fast_share.Canvas.Shapes.{Point}
use fast_share.Anim.{pos_along, sum}
use fast_share.PacketLayer.{
  Dir, Phase, Sprite, Blast, Layer, Latest, timeout_fade, blast_fade, origin, slow_k, spawn_ack,
}
use fast_share.PacketLayer.Ingest.{is_frame, is_timeout}

-- What becomes of a sprite in a frame: it stays, perhaps changed; it goes; or it goes, and an ACK dot
-- leaves in its place.
pub data Fate (N : Type 0) : Type 0 where
  keep : Sprite N → Fate N
  gone : Fate N
  answered : Fate N

abbrev pub is_travel : Phase → Bool
is_travel Phase.travel = true
is_travel _ = false

abbrev pub is_hold : Phase → Bool
is_hold Phase.hold = true
is_hold _ = false

module _ {N : Type 0} ⦃num : Number N⦄ (latest : Latest N) (now : N) where
  -- `elapsed >= dur`
  unfoldable pub is_over : Sprite N → Bool
  is_over s = num.le (sum s.timings) (num.sub now s.started_at)

  -- `now - at > fade * k`
  unfoldable pub is_faded : ℕ → N → Bool
  is_faded fade at = lt (num.mul (num.of_nat fade) (slow_k latest.speed)) (num.sub now at)

  -- the `if` chain of the loop's body, and whether it sets `changed`
  unfoldable pub fate : Sprite N → Fate N × Bool
  unfolding is_over is_faded
  fate s =
      if is_frame s.dir && is_travel s.phase
      then if is_over s
        then if s.ack_seen
          then (Fate.answered, true)
          else (Fate.keep (record s { phase = Phase.hold; pos = last_or s.path origin }), true)
        else (
          Fate.keep (record s {
            pos = or_else (pos_along s.path s.timings (num.sub now s.started_at)) s.pos;
          }),
          false,
        )
      else if is_frame s.dir && is_hold s.phase && s.ack_seen
      then (Fate.answered, true)
      else if is_timeout s.phase && is_faded timeout_fade s.timeout_at
      then (Fate.gone, true)
      else if not (is_frame s.dir) && is_over s
      then (Fate.gone, true)
      else (Fate.keep s, false)

  -- the array after the body at index `i`
  unfoldable pub apply_fate : ℕ → Sprite N → Fate N → Layer N → Layer N
  apply_fate i s (Fate.keep s') l = record l { sprites = set l.sprites i s' }
  apply_fate i s Fate.gone l = record l { sprites = remove_at l.sprites i }
  apply_fate i s Fate.answered l =
      spawn_ack latest s.seq s.retries now s.lane (record l { sprites = remove_at l.sprites i })

  unfoldable pub visit : ℕ → Layer N × Bool → Layer N × Bool
  unfolding fate apply_fate
  visit i (l, changed) = elim (get_elem? l.sprites i) [
    | none ↦ (l, changed)
    | some s ↦ (apply_fate i s (fate s).0 l, changed || (fate s).1)
  ]

  -- `for (let i = n - 1; i >= 0; i--)`
  unfoldable pub sweep : ℕ → Layer N × Bool → Layer N × Bool
  unfolding visit
  sweep zero st = st
  sweep (suc i) st = sweep i (visit i st)

  unfoldable pub visit_blast : ℕ → List (Blast N) × Bool → List (Blast N) × Bool
  unfolding is_faded
  visit_blast i (bs, changed) = elim (get_elem? bs i) [
    | none ↦ (bs, changed)
    | some b ↦ if is_faded blast_fade b.at then (remove_at bs i, true) else (bs, changed)
  ]

  unfoldable pub sweep_blasts : ℕ → List (Blast N) × Bool → List (Blast N) × Bool
  unfolding visit_blast
  sweep_blasts zero st = st
  sweep_blasts (suc i) st = sweep_blasts i (visit_blast i st)

  abbrev pub is_nonempty {ℓ} : {A : Type ℓ} → List A → Bool
  is_nonempty [] = false
  is_nonempty (_ ∷ _) = true

  unfoldable pub frame : Layer N → Layer N
  unfolding sweep sweep_blasts
  frame l =
      let (swept, moved) = sweep (length l.sprites) (l, false) in
      let (blasts, changed) = sweep_blasts (length swept.blasts) (swept.blasts, moved) in
      record swept {
        blasts = blasts;
        ticks =
            if changed || is_nonempty swept.sprites || is_nonempty blasts
            then suc swept.ticks
            else swept.ticks;
      }
