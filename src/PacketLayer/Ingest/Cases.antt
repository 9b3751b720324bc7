-- ===== src/PacketLayer/Ingest/Cases.antt =====
-- What spawning a DATA dot can do to the state, and a rule for the whole ingest effect.
use fast_share.Common.{ℕ, ◌≡◌, inl, inr, true, Option, some, List, ◌∷◌, [], ◌<◌, arith, ◌&&◌}
use fast_share.PacketLayer.Spawn.{Spawned, spawn_ack-Spawned}
use fast_share.PacketLayer.Ingest.{see_ack, expire, drop_dot}
use fast_share.Common.Tests.{Option-cases, Bool-cases, or_else, leb}
use fast_share.Common.Lists.{count_if, find}
use fast_share.Common.Text.{Text}
use fast_share.Common.Number.{Number}
use fast_share.Types.{PacketEvent, PacketStatus}
use fast_share.Canvas.Shapes.{Point}
use fast_share.Canvas.Graph.Paths.{lane_path, lane_ids}
use fast_share.PacketLayer.{Sprite, Layer, Latest, push, graph_of}
use fast_share.PacketLayer.Ingest.{
  is_data, is_slow, is_active, lane_route, data_sprite, spawn_data, on_sent, on_acked, on_timeout,
  on_retransmitted, draw, ingest_event, ingest_events,
}

module _ {N : Type 0} ⦃num : Number N⦄ (latest : Latest N) (now : N) where
  -- Either nothing happens, or one DATA dot is pushed, and in slow motion only below the cap.
  pub data Drawn (seq retries : ℕ) (lane : Option ℕ) (l l' : Layer N) : Type 0 where
    skipped : l' ≡ l → Drawn seq retries lane l l'
    pushed :
        (ids : List Text) (path : List (Point N))
        → lane_ids (graph_of latest) (some (or_else lane 0)) ≡ some ids
        → lane_path (graph_of latest) (some (or_else lane 0)) ≡ some path
        → (is_slow latest now ≡ true → count_if is_data l.sprites < 5)
        → l' ≡ push (data_sprite latest now l.next_id seq retries (or_else lane 0) ids path) l
        → Drawn seq retries lane l l'

  spawn_data-pushed :
      (seq retries : ℕ) (lane : Option ℕ) (l : Layer N) (ids : List Text) (path : List (Point N))
      → lane_ids (graph_of latest) (some (or_else lane 0)) ≡ some ids
      → lane_path (graph_of latest) (some (or_else lane 0)) ≡ some path
      → Drawn seq retries lane l (spawn_data latest now seq retries lane l)
  unfolding spawn_data lane_route
  spawn_data-pushed seq retries lane l ids path e k =
      elim (Bool-cases (is_slow latest now && leb 5 (count_if is_data l.sprites))) [
        | inl full ↦ skipped (simp (e, k, full, spawn_data, lane_route))
        | inr room ↦ pushed ids path e k (ground arith) (simp (e, k, room, spawn_data, lane_route))
      ]

  pub spawn_data-Drawn :
      (seq retries : ℕ) (lane : Option ℕ) (l : Layer N)
      → Drawn seq retries lane l (spawn_data latest now seq retries lane l)
  unfolding spawn_data lane_route
  spawn_data-Drawn seq retries lane l =
      elim (Option-cases (lane_ids (graph_of latest) (some (or_else lane 0)))) [
        | inl e ↦ skipped (simp (e, spawn_data, lane_route))
        | inr (ids, e) ↦ elim (Option-cases (lane_path (graph_of latest) (some (or_else lane 0)))) [
          | inl k ↦ skipped (simp (e, k, spawn_data, lane_route))
          | inr (path, k) ↦ spawn_data-pushed seq retries lane l ids path e k
        ]
      ]

  -- What every step of the effect keeps holds after it.
  module _ (P : Layer N → Type 0)
      (on_drawn : (seq retries : ℕ) (lane : Option ℕ) (l l' : Layer N)
        → Drawn seq retries lane l l'
        → P l
        → P l')
      (on_spawned : (seq retries lane : ℕ) (l l' : Layer N)
        → Spawned latest seq retries now lane l l'
        → P l
        → P l')
      (on_seen : (seq : ℕ) (l : Layer N) → P l → P (see_ack latest now seq l))
      (on_expired : (seq : ℕ) (s : Sprite N) (l : Layer N)
        → find (is_active seq) l.sprites ≡ some s
        → P l
        → P (expire latest now seq s l))
      (on_dropped : (seq : ℕ) (l : Layer N) → P l → P (drop_dot latest now seq l))
      (on_cursor : (n : ℕ) (l : Layer N) → P l → P (record l { last_id = n })) where
    sent-keeps : (e : PacketEvent N) (l : Layer N) → P l → P (on_sent latest now e l)
    unfolding on_sent
    sent-keeps e l h = elim (Option-cases (find (is_active e.seq) l.sprites)) [
      | inl k ↦
          rw (k, on_sent)
            (on_drawn e.seq e.retries e.lane l _ (spawn_data-Drawn e.seq e.retries e.lane l) h)
      | inr (s, k) ↦ rw (k, on_sent) h
    ]

    pub draw_keeps :
        (st : PacketStatus) (e : PacketEvent N) (l : Layer N) → P l → P (draw latest now st e l)
    unfolding draw on_acked on_timeout on_retransmitted
    draw_keeps PacketStatus.sent e l h = sent-keeps e l h
    draw_keeps PacketStatus.waiting e l h = sent-keeps e l h
    draw_keeps PacketStatus.acked e l h = elim (Option-cases (find (is_active e.seq) l.sprites)) [
      | inl k ↦
          rw (k, on_acked)
            (on_spawned e.seq e.retries (or_else e.lane 0) l _
              (spawn_ack-Spawned latest e.seq e.retries now (or_else e.lane 0) l) h)
      | inr (s, k) ↦ rw (k, on_acked) (on_seen e.seq l h)
    ]
    draw_keeps PacketStatus.timeout e l h = elim (Option-cases (find (is_active e.seq) l.sprites)) [
      | inl k ↦ rw (k, on_timeout) h
      | inr (s, k) ↦ rw (k, on_timeout) (on_expired e.seq s l k h)
    ]
    draw_keeps PacketStatus.failed e l h = elim (Option-cases (find (is_active e.seq) l.sprites)) [
      | inl k ↦ rw (k, on_timeout) h
      | inr (s, k) ↦ rw (k, on_timeout) (on_expired e.seq s l k h)
    ]
    draw_keeps PacketStatus.retransmitted e l h =
        on_drawn e.seq e.retries e.lane (drop_dot latest now e.seq l) _
          (spawn_data-Drawn e.seq e.retries e.lane (drop_dot latest now e.seq l))
          (on_dropped e.seq l h)

    pub ingest_events_keeps :
        (es : List (PacketEvent N)) (l : Layer N) → P l → P (ingest_events latest now es l)
    unfolding ingest_events ingest_event
    ingest_events_keeps [] l h = h
    ingest_events_keeps (e ∷ es) l h = elim (Bool-cases (leb e.id l.last_id)) [
      | inl old ↦ rw old (ingest_events_keeps es l h)
      | inr new ↦ rw new (
          ingest_events_keeps es (draw latest now e.status e (record l { last_id = e.id }))
            (draw_keeps e.status e (record l { last_id = e.id }) (on_cursor e.id l h)))
    ]
