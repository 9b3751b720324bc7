-- ===== src/PacketLayer/Runs.antt =====
-- The life of the animation: ingest effects and frames in any order, with any properties and times.
use fast_share.Common.{◌≡◌, arith}
use fast_share.Common.Number.{Number}
use fast_share.PacketLayer.{Sprite, Layer, Latest, initial}
use fast_share.PacketLayer.Ingest.{ingest}
use fast_share.PacketLayer.Ingest.Keys.{IsKeyed, ingest-IsKeyed}
use fast_share.PacketLayer.Ingest.Timed.{
  HasTimedPath, AllTimed, ingest-AllTimed, ack_sprite-HasTimedPath,
}
use fast_share.PacketLayer.Frame.{Fate, fate, frame}
use fast_share.PacketLayer.Frame.Kept.{frame-All}
use fast_share.PacketLayer.Frame.Laws.{frame-IsKeyed}

module _ {N : Type 0} ⦃num : Number N⦄ where
  module _ (latest : Latest N) (now : N) where
    fate_keep-HasTimedPath :
        (s s' : Sprite N) → HasTimedPath s → (fate latest now s).0 ≡ Fate.keep s' → HasTimedPath s'
    unfolding fate
    fate_keep-HasTimedPath s s' h e = ground arith

    frame-AllTimed : (l : Layer N) → AllTimed l → AllTimed (frame latest now l)
    frame-AllTimed =
        frame-All latest now HasTimedPath HasTimedPath fate_keep-HasTimedPath
          (λ id seq retries lane pts e.
            ack_sprite-HasTimedPath latest id seq retries now lane pts e)

  -- One run of the ingest effect, or one animation frame.
  pub data Step (l : Layer N) : Layer N → Type 0 where
    ingested : (latest : Latest N) (now : N) → Step l (ingest latest now l)
    framed : (latest : Latest N) (now : N) → Step l (frame latest now l)

  pub data Reach : Layer N → Type 0 where
    mounted : Reach initial
    next : {l l' : Layer N} → Reach l → Step l l' → Reach l'

  Step-IsKeyed : {l l' : Layer N} → Step l l' → IsKeyed l → IsKeyed l'
  Step-IsKeyed {l} (ingested latest now) k = ingest-IsKeyed latest now l k
  Step-IsKeyed {l} (framed latest now) k = frame-IsKeyed latest now l k

  Step-AllTimed : {l l' : Layer N} → Step l l' → AllTimed l → AllTimed l'
  Step-AllTimed {l} (ingested latest now) h = ingest-AllTimed latest now l h
  Step-AllTimed {l} (framed latest now) h = frame-AllTimed latest now l h

  -- In every state that the animation can reach, the sprites' ids are distinct, so are the
  -- blasts', and every sprite has one duration for each segment of a polyline of at least two
  -- points.
  pub Reach-IsKeyed : {l : Layer N} → Reach l → IsKeyed l × AllTimed l
  unfolding initial
  Reach-IsKeyed mounted = (record { sprites = omega arith; blasts = omega arith }, tt)
  Reach-IsKeyed (next r st) =
      let (k, h) = Reach-IsKeyed r in (Step-IsKeyed st k, Step-AllTimed st h)
