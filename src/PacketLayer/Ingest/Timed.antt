-- ===== src/PacketLayer/Ingest/Timed.antt =====
-- Every sprite carries one duration for each segment of its polyline, so its position is defined.
use fast_share.Common.{ℕ, ◌≤◌, ◌≡◌, ap, inl, inr, true, false, Option, some, List, [], arith}
use fast_share.Common.Tests.{Bool-cases, or_else}
use fast_share.Common.Lists.{length, All, All-snoc, All-update_first, All-remove_first}
use fast_share.Common.Text.{Text}
use fast_share.Common.Number.{Number}
use fast_share.Types.{PacketEvent}
use fast_share.Canvas.Shapes.{Point}
use fast_share.Canvas.Graph.Paths.{lane_ids, lane_path}
use fast_share.Canvas.Graph.{is_transferring, field_or}
use fast_share.Canvas.Graph.Paths.Laws.{length-path_of}
use fast_share.Anim.Laws.{IsTimed, length-build_timings, length-rev_onto}
use fast_share.PacketLayer.{Sprite, Layer, Latest, ack_sprite, graph_of}
use fast_share.PacketLayer.Spawn.{Spawned}
use fast_share.PacketLayer.Ingest.{
  is_active, is_data_of, time_out, data_sprite, ingest_events, ingest,
}
use fast_share.PacketLayer.Ingest.Cases.{Drawn, ingest_events_keeps}

abbrev pub HasTimedPath : {N : Type 0} → Sprite N → Type 0
HasTimedPath s = IsTimed s.path s.timings

abbrev pub AllTimed : {N : Type 0} → Layer N → Type 0
AllTimed l = All HasTimedPath l.sprites

module _ {N : Type 0} ⦃num : Number N⦄ where
  lane_path-eq-some :
      (latest : Latest N) (lane : ℕ) (pts : List (Point N))
      → lane_path (graph_of latest) (some lane) ≡ some pts
      → (length pts ≡ length (or_else (lane_ids (graph_of latest) (some lane)) []))
        × (2 ≤ length pts)
  unfolding lane_path
  lane_path-eq-some latest lane pts e =
      let (same, two) =
        length-path_of (graph_of latest) (lane_ids (graph_of latest) (some lane)) pts e in
      (same, omega arith)

  pub ack_sprite-HasTimedPath :
      (latest : Latest N) (id seq retries : ℕ) (at : N) (lane : ℕ) (pts : List (Point N))
      → lane_path (graph_of latest) (some lane) ≡ some pts
      → HasTimedPath (ack_sprite latest id seq retries at lane pts)
  unfolding ack_sprite
  ack_sprite-HasTimedPath latest id seq retries at lane pts e = omega (
    arith,
    lane_path-eq-some latest lane pts e,
    length-rev_onto pts [],
    length-build_timings (graph_of latest) (or_else (lane_ids (graph_of latest) (some lane)) []) _
        true,
  )

  pub All-HasTimedPath-Spawned :
      (latest : Latest N) (seq retries : ℕ) (at : N) (lane : ℕ) (l l' : Layer N)
      → Spawned latest seq retries at lane l l'
      → AllTimed l
      → AllTimed l'
  All-HasTimedPath-Spawned latest seq retries at lane l l' (Spawned.no_path e eq) h = rw eq h
  All-HasTimedPath-Spawned latest seq retries at lane l l' (Spawned.pushed pts e eq) h = rw eq (
      All-snoc HasTimedPath l.sprites _ h
        (ack_sprite-HasTimedPath latest l.next_id seq retries at lane pts e))

  module _ (latest : Latest N) (now : N) where
    data_sprite-HasTimedPath :
        (id seq retries lane : ℕ) (ids : List Text) (path : List (Point N))
        → lane_ids (graph_of latest) (some lane) ≡ some ids
        → lane_path (graph_of latest) (some lane) ≡ some path
        → HasTimedPath (data_sprite latest now id seq retries lane ids path)
    unfolding data_sprite
    data_sprite-HasTimedPath id seq retries lane ids path e k = omega (
      arith,
      lane_path-eq-some latest lane path k,
      ap (λ o. length (or_else o [])) e,
      length-build_timings (graph_of latest) ids _ false,
    )

    All-HasTimedPath-Drawn :
        (seq retries : ℕ) (lane : Option ℕ) (l l' : Layer N)
        → Drawn latest now seq retries lane l l'
        → AllTimed l
        → AllTimed l'
    All-HasTimedPath-Drawn seq retries lane l l' (Drawn.skipped eq) h = rw eq h
    All-HasTimedPath-Drawn seq retries lane l l' (Drawn.pushed ids path e k room eq) h = rw eq (
        All-snoc HasTimedPath l.sprites _ h
          (data_sprite-HasTimedPath l.next_id seq retries (or_else lane 0) ids path e k))

    ingest_events-AllTimed :
        (es : List (PacketEvent N)) (l : Layer N)
        → AllTimed l
        → AllTimed (ingest_events latest now es l)
    unfolding time_out
    ingest_events-AllTimed es l h =
        ingest_events_keeps latest now AllTimed All-HasTimedPath-Drawn
          (λ seq retries lane l l' s. All-HasTimedPath-Spawned latest seq retries now lane l l' s)
          (λ seq l k. All-update_first HasTimedPath (is_active seq) _ l.sprites (λ x t. t) k)
          (λ seq s l e k. All-update_first HasTimedPath (is_active seq) _ l.sprites (λ x t. t) k)
          (λ seq l k. All-remove_first HasTimedPath (is_data_of seq) l.sprites k) (λ n l k. k) es l
          h

  -- The ingest effect gives every sprite a polyline of at least two points and one duration for each
  -- segment, whatever the graph and the events, so no position is ever read past its end.
  pub ingest-AllTimed :
      (latest : Latest N) (now : N) (l : Layer N) → AllTimed l → AllTimed (ingest latest now l)
  unfolding ingest
  ingest-AllTimed latest now l h =
      elim (Bool-cases (field_or (λ s. is_transferring s.transfer_status) latest.status false)) [
        | inl on ↦ rw on (ingest_events-AllTimed latest now latest.events l h)
        | inr off ↦ rw off tt
      ]
