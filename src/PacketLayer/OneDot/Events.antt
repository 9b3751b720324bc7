-- ===== src/PacketLayer/OneDot/Events.antt =====
-- Every event of the ingest effect keeps one DATA dot per frame.
use fast_share.Common.{
  ℕ, ◌≤◌, ◌≡◌, ◌≢◌, sym, ◌∙◌, Bool, true, false, none, List, [], ◌∷◌, arith, inl, inr,
}
use mathlib.Core.Path.{subst}
use fast_share.Common.Tests.{Bool-cases, Option-cases, ◌==◌, ==_iff, or_else}
use fast_share.Common.Lists.{count_if, find}
use fast_share.Common.Counting.{count_if-remove_first_self}
use fast_share.Common.Number.{Number}
use fast_share.Types.{PacketEvent, PacketStatus}
use fast_share.PacketLayer.{Layer, Latest}
use fast_share.PacketLayer.Spawn.{spawn_ack-Spawned}
use fast_share.PacketLayer.Ingest.{
  is_data_of, is_active, drop_dot, expire, spawn_data, on_sent, on_acked, on_timeout,
  on_retransmitted, draw, ingest_events,
}
use fast_share.PacketLayer.Ingest.Cases.{spawn_data-Drawn}
use fast_share.PacketLayer.Ingest.Cursor.{IsFresh, draw_all, ingest_events-draw_all}
use fast_share.PacketLayer.OneDot.{
  HasOneDot, MayCome, next_late, late_after, IsDisciplined, count_no_active, Spawned-HasOneDot,
  Drawn-other, Drawn-self, see_ack-HasOneDot, expire-other, expire_self, drop_dot-HasOneDot,
  HasOneDot-late,
}

module _ {N : Type 0} ⦃num : Number N⦄ (latest : Latest N) (now : N) (q : ℕ) where
  on_acked-HasOneDot :
      (late : Bool) (e : PacketEvent N) (l : Layer N)
      → HasOneDot q late l
      → HasOneDot q late (on_acked latest now e l)
  unfolding on_acked
  on_acked-HasOneDot late e l h = elim (Option-cases (find (is_active e.seq) l.sprites)) [
    | inl k ↦
        rw (k, on_acked)
          (Spawned-HasOneDot latest now q late e.seq e.retries (or_else e.lane 0) l _
            (spawn_ack-Spawned latest e.seq e.retries now (or_else e.lane 0) l) h)
    | inr (s, k) ↦ rw (k, on_acked) (see_ack-HasOneDot latest now q late e.seq l h)
  ]

  module _ (late : Bool) (e : PacketEvent N) (l : Layer N) (h : HasOneDot q late l) where
    on_sent-other : e.seq ≢ q → HasOneDot q late (on_sent latest now e l)
    unfolding on_sent
    on_sent-other ne = elim (Option-cases (find (is_active e.seq) l.sprites)) [
      | inl k ↦
          rw (k, on_sent)
            (Drawn-other latest now q late e.seq e.retries e.lane l _ ne
              (spawn_data-Drawn latest now e.seq e.retries e.lane l) h)
      | inr (s, k) ↦ rw (k, on_sent) h
    ]

    on_timeout-other : e.seq ≢ q → HasOneDot q late (on_timeout latest now e l)
    unfolding on_timeout
    on_timeout-other ne = elim (Option-cases (find (is_active e.seq) l.sprites)) [
      | inl k ↦ rw (k, on_timeout) h
      | inr (s, k) ↦ rw (k, on_timeout) (expire-other latest now q late e.seq s l ne h)
    ]

    draw-other : (st : PacketStatus) → e.seq ≢ q → HasOneDot q late (draw latest now st e l)
    unfolding draw on_retransmitted
    draw-other PacketStatus.sent ne = on_sent-other ne
    draw-other PacketStatus.waiting ne = on_sent-other ne
    draw-other PacketStatus.acked ne = on_acked-HasOneDot late e l h
    draw-other PacketStatus.timeout ne = on_timeout-other ne
    draw-other PacketStatus.failed ne = on_timeout-other ne
    draw-other PacketStatus.retransmitted ne =
        Drawn-other latest now q late e.seq e.retries e.lane (drop_dot latest now e.seq l) _ ne
          (spawn_data-Drawn latest now e.seq e.retries e.lane (drop_dot latest now e.seq l))
          (drop_dot-HasOneDot latest now q late e.seq l h)

    on_sent_self : e.seq ≡ q → late ≡ false → HasOneDot q late (on_sent latest now e l)
    unfolding on_sent
    on_sent_self same calm = elim (Option-cases (find (is_active e.seq) l.sprites)) [
      | inl k ↦
          rw (k, on_sent)
            (subst (λ r. HasOneDot q late (spawn_data latest now r e.retries e.lane l)) (sym same)
              (Drawn-self latest now q late e.retries e.lane l _
                (spawn_data-Drawn latest now q e.retries e.lane l)
                (count_no_active q l.sprites
                    (subst (λ r. find (is_active r) l.sprites ≡ none) same k)
                  ∙ h.calm calm)))
      | inr (s, k) ↦ rw (k, on_sent) h
    ]

    on_timeout_self : e.seq ≡ q → HasOneDot q true (on_timeout latest now e l)
    unfolding on_timeout
    on_timeout_self same = elim (Option-cases (find (is_active e.seq) l.sprites)) [
      | inl k ↦ rw (k, on_timeout) (HasOneDot-late latest now q late l h)
      | inr (s, k) ↦
          rw (k, on_timeout)
            (subst (λ r. HasOneDot q true (expire latest now r s l)) (sym same)
              (expire_self latest now q s l h.one))
    ]

    on_retransmitted_self : e.seq ≡ q → HasOneDot q false (on_retransmitted latest now e l)
    unfolding on_retransmitted
    on_retransmitted_self same =
        subst
          (λ r.
            HasOneDot q false (spawn_data latest now r e.retries e.lane (drop_dot latest now r l)))
          (sym same)
          (Drawn-self latest now q false e.retries e.lane (drop_dot latest now q l) _
            (spawn_data-Drawn latest now q e.retries e.lane (drop_dot latest now q l))
            (count_if-remove_first_self (is_data_of q) l.sprites h.one))

    draw_self :
        (st : PacketStatus)
        → e.seq ≡ q
        → MayCome st late
        → HasOneDot q (next_late st late) (draw latest now st e l)
    unfolding draw
    draw_self PacketStatus.sent same ok = on_sent_self same ok
    draw_self PacketStatus.waiting same ok = on_sent_self same ok
    draw_self PacketStatus.acked same ok = on_acked-HasOneDot late e l h
    draw_self PacketStatus.timeout same ok = on_timeout_self same
    draw_self PacketStatus.failed same ok = on_timeout_self same
    draw_self PacketStatus.retransmitted same ok = on_retransmitted_self same

    draw-HasOneDot :
        (e.seq ≡ q → MayCome e.status late)
        → HasOneDot q (late_after q e late) (draw latest now e.status e l)
    draw-HasOneDot ok = elim (Bool-cases (e.seq == q)) [
      | inl same ↦
          rw same (draw_self e.status ((==_iff e.seq q).0 same) (ok ((==_iff e.seq q).0 same)))
      | inr other ↦ rw other (draw-other e.status (ground arith))
    ]

  draw_all-HasOneDot :
      (es : List (PacketEvent N)) (late : Bool) (l : Layer N)
      → IsDisciplined q late es
      → HasOneDot q late l
      → count_if (is_data_of q) (draw_all latest now es l).sprites ≤ 1
  draw_all-HasOneDot [] late l d h = h.one
  draw_all-HasOneDot (e ∷ es) late l d h =
      let moved : Layer N = record l { last_id = e.id } in
      draw_all-HasOneDot es (late_after q e late) (draw latest now e.status e moved) d.1
        (draw-HasOneDot late e moved (record { one = h.one; calm = h.calm }) d.0)

  -- A new batch in which the events of one frame come in the client's order leaves at most one
  -- DATA dot of the frame, if there was at most one, not timed out unless the last attempt had
  -- been.
  pub ingest_events-one_dot :
      (es : List (PacketEvent N)) (late : Bool) (l : Layer N)
      → IsFresh latest now l.last_id es
      → IsDisciplined q late es
      → HasOneDot q late l
      → count_if (is_data_of q) (ingest_events latest now es l).sprites ≤ 1
  ingest_events-one_dot es late l fresh d h =
      rw (ingest_events-draw_all latest now es l fresh) (draw_all-HasOneDot es late l d h)
