-- ===== src/PacketLayer/Ingest/Keys.antt =====
-- Every sprite and blast has an id of its own, which React takes for its key.
use fast_share.Common.{ℕ, suc, ◌≡◌, refl, true, false, Option, List, arith}
use fast_share.Common.{inl, inr}
use fast_share.Common.Tests.{Bool-cases}
use fast_share.Canvas.Graph.{is_transferring, field_or}
use fast_share.Common.Counting.{
  IsAscending, IsAscending-raise, IsAscending-snoc, IsAscending-update_first,
  IsAscending-remove_first,
}
use fast_share.Common.Number.{Number}
use fast_share.Types.{PacketEvent}
use fast_share.PacketLayer.{Sprite, Layer, Latest, ack_sprite, push}
use fast_share.PacketLayer.Spawn.{Spawned}
use fast_share.PacketLayer.Ingest.{
  is_active, is_data_of, time_out, data_sprite, expire, ingest_events, ingest,
}
use fast_share.PacketLayer.Ingest.Cases.{Drawn, ingest_events_keeps}

-- The ids ascend strictly, so they are distinct, and the counter is above them all.
pub record IsKeyed {N : Type 0} (l : Layer N) : Type 0 where
  pub sprites : IsAscending (λ s. s.id) 0 l.sprites l.next_id
  pub blasts : IsAscending (λ b. b.id) 0 l.blasts l.next_id

module _ {N : Type 0} ⦃num : Number N⦄ where
  IsKeyed-push : (s : Sprite N) (l : Layer N) → s.id ≡ l.next_id → IsKeyed l → IsKeyed (push s l)
  IsKeyed-push s l e k = record {
    sprites = IsAscending-snoc (λ s. s.id) 0 l.sprites l.next_id s e k.sprites;
    blasts =
        IsAscending-raise (λ b. b.id) 0 l.blasts l.next_id (suc l.next_id) (omega arith) k.blasts;
  }

  pub IsKeyed-Spawned :
      (latest : Latest N) (seq retries : ℕ) (at : N) (lane : ℕ) (l l' : Layer N)
      → Spawned latest seq retries at lane l l'
      → IsKeyed l
      → IsKeyed l'
  unfolding ack_sprite
  IsKeyed-Spawned latest seq retries at lane l l' (Spawned.no_path e eq) k = rw eq k
  IsKeyed-Spawned latest seq retries at lane l l' (Spawned.pushed pts e eq) k =
      rw eq (IsKeyed-push (ack_sprite latest l.next_id seq retries at lane pts) l refl k)

  module _ (latest : Latest N) (now : N) where
    IsKeyed-Drawn :
        (seq retries : ℕ) (lane : Option ℕ) (l l' : Layer N)
        → Drawn latest now seq retries lane l l'
        → IsKeyed l
        → IsKeyed l'
    unfolding data_sprite
    IsKeyed-Drawn seq retries lane l l' (Drawn.skipped eq) k = rw eq k
    IsKeyed-Drawn seq retries lane l l' (Drawn.pushed ids path e e' room eq) k =
        rw eq (IsKeyed-push _ l refl k)

    IsKeyed-expire :
        (seq : ℕ) (s : Sprite N) (l : Layer N) → IsKeyed l → IsKeyed (expire latest now seq s l)
    unfolding time_out
    IsKeyed-expire seq s l k = record {
      sprites =
          IsAscending-raise (λ s. s.id) 0 _ l.next_id (suc l.next_id) (omega arith)
            (IsAscending-update_first (λ s. s.id) (is_active seq) (time_out latest now) 0 l.sprites
              l.next_id (λ x. refl) k.sprites);
      blasts = IsAscending-snoc (λ b. b.id) 0 l.blasts l.next_id _ refl k.blasts;
    }

    pub ingest_events-IsKeyed :
        (es : List (PacketEvent N)) (l : Layer N)
        → IsKeyed l
        → IsKeyed (ingest_events latest now es l)
    ingest_events-IsKeyed es l k =
        ingest_events_keeps latest now IsKeyed IsKeyed-Drawn
          (λ seq retries lane l l' s. IsKeyed-Spawned latest seq retries now lane l l' s)
          (λ seq l k. record {
            sprites =
                IsAscending-update_first (λ s. s.id) (is_active seq)
                  (λ s. record s { ack_seen = true }) 0 l.sprites l.next_id (λ x. refl) k.sprites;
            blasts = k.blasts;
          })
          (λ seq s l e k. IsKeyed-expire seq s l k)
          (λ seq l k. record {
            sprites =
                IsAscending-remove_first (λ s. s.id) (is_data_of seq) 0 l.sprites l.next_id
                  k.sprites;
            blasts = k.blasts;
          })
          (λ n l k. record { sprites = k.sprites; blasts = k.blasts }) es l k

  -- The ingest effect keeps the ids of the sprites, and those of the blasts, distinct and below the
  -- counter, whatever events arrive.
  pub ingest-IsKeyed :
      (latest : Latest N) (now : N) (l : Layer N) → IsKeyed l → IsKeyed (ingest latest now l)
  unfolding ingest
  ingest-IsKeyed latest now l k =
      elim (Bool-cases (field_or (λ s. is_transferring s.transfer_status) latest.status false)) [
        | inl on ↦ rw on (ingest_events-IsKeyed latest now latest.events l k)
        | inr off ↦ rw off (record { sprites = omega arith; blasts = k.blasts })
      ]
