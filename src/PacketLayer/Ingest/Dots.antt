-- ===== src/PacketLayer/Ingest/Dots.antt =====
-- How many DATA dots the ingest effect keeps: the slow-motion cap.
use fast_share.Common.{ℕ, ◌≤◌, ◌≡◌, refl, true, Option, List, [], ◌∷◌, arith}
use fast_share.Common.Tests.{or_else}
use fast_share.Common.Lists.{count_if}
use fast_share.Common.Counting.{count_if-append, count_if-update_first, count_if-remove_first}
use fast_share.Common.Number.{Number}
use fast_share.Types.{PacketEvent}
use fast_share.PacketLayer.{Layer, Latest, ack_sprite}
use fast_share.PacketLayer.Spawn.{Spawned}
use fast_share.PacketLayer.Ingest.{
  is_data, is_active, is_data_of, time_out, data_sprite, is_slow, ingest_events,
}
use fast_share.PacketLayer.Ingest.Cases.{Drawn, ingest_events_keeps}

module _ {N : Type 0} ⦃num : Number N⦄ where
  abbrev pub dots : Layer N → ℕ
  dots l = count_if is_data l.sprites

  pub dots-push_ack :
      (latest : Latest N) (seq retries : ℕ) (at : N) (lane : ℕ) (l l' : Layer N)
      → Spawned latest seq retries at lane l l'
      → dots l' ≡ dots l
  unfolding count_if ack_sprite
  dots-push_ack latest seq retries at lane l l' (Spawned.no_path e k) = rw k
  dots-push_ack latest seq retries at lane l l' (Spawned.pushed pts e k) = rw k (
      omega (
        arith,
        count_if-append is_data l.sprites
            (ack_sprite latest l.next_id seq retries at lane pts ∷ []),
      ))

  module _ (latest : Latest N) (now : N) where
    dots-push_data :
        (seq retries : ℕ) (lane : Option ℕ) (l l' : Layer N) (n : ℕ)
        → is_slow latest now ≡ true
        → 5 ≤ n
        → Drawn latest now seq retries lane l l'
        → dots l ≤ n
        → dots l' ≤ n
    unfolding count_if data_sprite
    dots-push_data seq retries lane l l' n slow k (Drawn.skipped e) h = rw e h
    dots-push_data seq retries lane l l' n slow k (Drawn.pushed ids path e e' room eq) h = rw eq (
        omega (
          arith,
          room slow,
          count_if-append is_data l.sprites
              (data_sprite latest now l.next_id seq retries (or_else lane 0) ids path ∷ []),
        ))

    -- In slow motion a batch of events brings the number of DATA dots to 5 at most, or leaves it
    -- no higher than it was.
    pub ingest_events-dots :
        (es : List (PacketEvent N)) (l : Layer N) (n : ℕ)
        → is_slow latest now ≡ true
        → 5 ≤ n
        → dots l ≤ n
        → dots (ingest_events latest now es l) ≤ n
    unfolding time_out
    ingest_events-dots es l n slow k =
        ingest_events_keeps latest now (λ l. dots l ≤ n)
          (λ seq retries lane l l' d h. dots-push_data seq retries lane l l' n slow k d h)
          (λ seq retries lane l l' s h.
            omega (arith, dots-push_ack latest seq retries now lane l l' s))
          (λ seq l h. omega (
            arith,
            count_if-update_first is_data (is_active seq) (λ s. record s { ack_seen = true })
                l.sprites (λ s k. refl),
          ))
          (λ seq s l e h. omega (
            arith,
            count_if-update_first is_data (is_active seq) (time_out latest now) l.sprites
                (λ s k. refl),
          ))
          (λ seq l h. omega (arith, count_if-remove_first is_data (is_data_of seq) l.sprites))
          (λ n l h. h) es l
