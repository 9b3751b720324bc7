-- ===== src/PacketLayer/Frame/Kept.antt =====
-- A property of the sprites that holds after a frame: each sprite that is kept has it, and each ACK
-- dot that leaves.
use fast_share.Common.{◌≡◌, refl, some, List, [], ◌∷◌}
use fast_share.Common.{ℕ}
use fast_share.Common.Lists.{All, All-snoc, rev_onto}
use fast_share.Common.Number.{Number}
use fast_share.Canvas.Shapes.{Point}
use fast_share.Canvas.Graph.Paths.{lane_path}
use fast_share.PacketLayer.{Sprite, Layer, Latest, ack_sprite, graph_of}
use fast_share.PacketLayer.Spawn.{Spawned, spawn_ack-Spawned}
use fast_share.PacketLayer.Frame.{Fate, fate, frame}
use fast_share.PacketLayer.Frame.Sweep.{survivors, settle_one, answer_one, answer_all}
use fast_share.PacketLayer.Frame.Laws.{frame-settled}

module _ {N : Type 0} ⦃num : Number N⦄ (latest : Latest N) (now : N) (P Q : Sprite N → Type 0)
    (keeps : (s s' : Sprite N) → P s → (fate latest now s).0 ≡ Fate.keep s' → Q s')
    (spawns : (id seq retries lane : ℕ) (pts : List (Point N))
      → lane_path (graph_of latest) (some lane) ≡ some pts
      → Q (ack_sprite latest id seq retries now lane pts)) where
  settle_one-All :
      (s : Sprite N) (f : Fate N) (ys : List (Sprite N))
      → ((s' : Sprite N) → f ≡ Fate.keep s' → Q s')
      → All Q ys
      → All Q (settle_one latest now s f ys)
  settle_one-All s (Fate.keep s') ys h k = (h s' refl, k)
  settle_one-All s Fate.gone ys h k = k
  settle_one-All s Fate.answered ys h k = k

  survivors-All : (xs : List (Sprite N)) → All P xs → All Q (survivors latest now xs)
  survivors-All [] h = tt
  survivors-All (s ∷ xs) h =
      settle_one-All s (fate latest now s).0 (survivors latest now xs) (λ s' e. keeps s s' h.0 e)
        (survivors-All xs h.1)

  Spawned-All :
      (seq retries lane : ℕ) (l l' : Layer N)
      → Spawned latest seq retries now lane l l'
      → All Q l.sprites
      → All Q l'.sprites
  Spawned-All seq retries lane l l' (Spawned.no_path e eq) h = rw eq h
  Spawned-All seq retries lane l l' (Spawned.pushed pts e eq) h =
      rw eq (All-snoc Q l.sprites _ h (spawns l.next_id seq retries lane pts e))

  answer_one-All :
      (s : Sprite N) (f : Fate N) (l : Layer N)
      → All Q l.sprites
      → All Q (answer_one latest now s f l).sprites
  answer_one-All s (Fate.keep s') l k = k
  answer_one-All s Fate.gone l k = k
  answer_one-All s Fate.answered l k =
      Spawned-All s.seq s.retries s.lane l _ (spawn_ack-Spawned latest s.seq s.retries now s.lane l)
        k

  answer_all-All :
      (rs : List (Sprite N)) (l : Layer N)
      → All Q l.sprites
      → All Q (answer_all latest now rs l).sprites
  answer_all-All [] l k = k
  answer_all-All (s ∷ rs) l k = answer_all-All rs _ (answer_one-All s (fate latest now s).0 l k)

  pub frame-All : (l : Layer N) → All P l.sprites → All Q (frame latest now l).sprites
  frame-All l h =
      let (sprites, id, blasts, cursor) = frame-settled latest now l in
      rw sprites (
        answer_all-All (rev_onto l.sprites [])
          (record l { sprites = survivors latest now l.sprites }) (survivors-All l.sprites h))
