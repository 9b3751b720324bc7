-- ===== src/PacketLayer/Tests.antt =====
-- The packet animation on small runs.
use fast_share.Common.{
  ℕ, ◌≡◌, ◌≤◌, refl, false, none, some, List, [], ◌∷◌, ◌++◌, arith, true, inl, is_some,
}
use fast_share.Common.Lists.{length, count_if, select, All}
use fast_share.Common.Number.Hundredths.{hundredths, hundredths_laws, hundredths_quotients}
use mathlib.Core.List.{Memᴰ}
use fast_share.Types.{PacketStatus, PacketEvent}
use fast_share.Samples.{snapshot, event}
use fast_share.Canvas.Graph.Paths.{lane_ids, lane_path}
use fast_share.Canvas.Graph.{build_canvas_graph}
use fast_share.Anim.{sum, build_timings}
use fast_share.PacketLayer.{Layer, Latest, initial}
use fast_share.PacketLayer.Ingest.{is_data_of, ingest, ingest_events, is_slow}
use fast_share.PacketLayer.Ingest.Cursor.{ingest-replay}
use fast_share.PacketLayer.Ingest.Dots.{dots, ingest_events-dots}
use fast_share.PacketLayer.Ingest.Keys.{IsKeyed}
use fast_share.PacketLayer.Ingest.Timed.{AllTimed}
use fast_share.PacketLayer.Frame.{frame}
use fast_share.PacketLayer.Frame.Sweep.{settled}
use fast_share.PacketLayer.Frame.Laws.{frame-settled, is_bright}
use fast_share.PacketLayer.Frame.Ends.{IsDue, IsHeld, frames-AreHeld}
use fast_share.PacketLayer.Frame.{is_over, is_faded}
use fast_share.PacketLayer.{Sprite, Dir, Phase, blast_fade, ack_sprite, spawn_ack}
use fast_share.PacketLayer.Render.{draw_blast}
use fast_share.PacketLayer.Render.Frames.{IsPlaced, frame-IsPlaced}
use fast_share.PacketLayer.Render.Laws.{IsOnLane, Reach-IsOnLane}
use fast_share.PacketLayer.Runs.{Reach, Reach-IsKeyed, Step}
use fast_share.PacketLayer.OneDot.Events.{ingest_events-one_dot}

abbrev sends : List (PacketEvent ℕ)
sends = event 1 1 PacketStatus.sent ∷ event 2 1 PacketStatus.waiting ∷ []

abbrev retries : List (PacketEvent ℕ)
retries =
    event 1 1 PacketStatus.sent
    ∷ event 2 1 PacketStatus.timeout
    ∷ event 3 1 PacketStatus.retransmitted
    ∷ event 4 1 PacketStatus.sent
    ∷ []

abbrev latest : Latest ℕ
latest = record { topology = none; status = some snapshot; events = sends; speed = none }

abbrev slow : Latest ℕ
slow = record latest { speed = some 25 }

abbrev start : Layer ℕ
start = initial

one_dot_drawn : dots (ingest latest 0 initial) ≡ 1
unfolding ingest initial count_if lane_ids build_canvas_graph lane_path
one_dot_drawn = refl

retried : dots (ingest_events latest 0 retries initial) ≡ 1
unfolding ingest_events initial count_if lane_ids build_canvas_graph lane_path
retried = refl

acked_dot_answered :
    length
      (frame latest 90000
        (ingest_events latest 0 (sends ++ event 3 1 PacketStatus.acked ∷ []) initial)).sprites
    ≡ 1
unfolding frame ingest_events initial lane_ids build_canvas_graph lane_path sum build_timings
acked_dot_answered = refl

-- The later poll comes with a slower animation.
abbrev next_poll : Latest ℕ
next_poll = record slow { events = sends ++ retries }

ingest-replay_example :
    ingest next_poll 500 (ingest latest 0 initial)
    ≡ ingest_events next_poll 500 retries (ingest latest 0 initial)
ingest-replay_example =
    ingest-replay latest next_poll 0 500 sends retries initial refl refl refl
      (Memᴰ.head refl, (Memᴰ.tail (Memᴰ.head refl), tt))

ingest_events-dots_example : dots (ingest_events slow 0 retries initial) ≤ 5
unfolding initial is_slow count_if
ingest_events-dots_example =
    ingest_events-dots slow 0 retries initial 5 refl (omega arith) (omega arith)

frame-settled_example :
    ((frame latest 7 start).sprites ≡ (settled latest 7 start).sprites)
    × ((frame latest 7 start).next_id ≡ (settled latest 7 start).next_id)
    × ((frame latest 7 start).blasts ≡ select (is_bright latest 7) start.blasts)
    × ((frame latest 7 start).last_id ≡ start.last_id)
frame-settled_example = frame-settled latest 7 start

Reach-IsKeyed_example :
    IsKeyed (frame latest 7 (ingest latest 0 start))
    × AllTimed (frame latest 7 (ingest latest 0 start))
Reach-IsKeyed_example =
    Reach-IsKeyed
      (Reach.next (Reach.next Reach.mounted (Step.ingested latest 0)) (Step.framed latest 7))

ingest_events-one_dot_example :
    count_if (is_data_of 1) (ingest_events latest 0 retries initial).sprites ≤ 1
unfolding initial count_if
ingest_events-one_dot_example =
    ingest_events-one_dot latest 0 1 retries false initial (omega arith)
      ((λ e. refl), ((λ e. tt), ((λ e. tt), ((λ e. refl), tt))))
      (record { one = omega arith; calm = λ c. refl })

-- A DATA dot whose frame has been answered while it travels.
abbrev answered_dot : Sprite ℕ
answered_dot = record {
  id = 1;
  seq = 1;
  retries = 0;
  dir = Dir.frame;
  phase = Phase.travel;
  started_at = 0;
  timings = 90000 ∷ [];
  path = record { x = 0; y = 0 } ∷ (record { x = 100; y = 0 } ∷ []);
  lane = 0;
  fill = [];
  stroke_cls = [];
  letter = none;
  ack_seen = true;
  timeout_at = 0;
  pos = record { x = 0; y = 0 };
}

abbrev one_dot : Layer ℕ
one_dot = record initial { sprites = answered_dot ∷ []; next_id = 2 }

-- The ACK dot that the first frame sends back is due in the second.
ack-IsDue : All (IsDue latest 200000) (frame latest 100000 one_dot).sprites
unfolding initial frame is_over is_faded lane_ids build_canvas_graph lane_path ack_sprite sum
    build_timings spawn_ack
ack-IsDue = ((refl, inl refl), tt)

no_blast :
    All (λ b. is_faded latest 200000 blast_fade b.at ≡ true) (frame latest 100000 one_dot).blasts
unfolding initial frame lane_ids build_canvas_graph lane_path sum spawn_ack
no_blast = tt

dot-IsDue : All (IsDue latest 100000) one_dot.sprites
unfolding initial is_over sum
dot-IsDue = ((refl, inl refl), tt)

frames-AreHeld_example :
    All IsHeld (frame latest 200000 (frame latest 100000 one_dot)).sprites
    × ((frame latest 200000 (frame latest 100000 one_dot)).blasts ≡ [])
frames-AreHeld_example =
    frames-AreHeld latest latest 100000 200000 one_dot dot-IsDue ack-IsDue no_blast

Reach-IsOnLane_example :
    All (IsOnLane (some 100) 900) (frame latest 7 (ingest latest 0 start)).sprites
Reach-IsOnLane_example =
    Reach-IsOnLane hundredths_laws hundredths_quotients (some 100) 900
      (Reach.next (Reach.next Reach.mounted (Step.ingested latest 0)) (Step.framed latest 7))

frame-IsPlaced_example :
    All (IsPlaced latest 7) (frame latest 7 (ingest latest 0 start)).sprites
    × All
        (λ b. is_some (draw_blast latest.speed 7 b) ≡ true)
        (frame latest 7 (ingest latest 0 start)).blasts
frame-IsPlaced_example = frame-IsPlaced latest 7 (ingest latest 0 start)
