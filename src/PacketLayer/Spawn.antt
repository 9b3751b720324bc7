-- ===== src/PacketLayer/Spawn.antt =====
-- What spawning an ACK dot can do to the state.
use fast_share.Common.{ℕ, ◌≡◌, inl, inr, none, some, List}
use fast_share.Common.Tests.{Option-cases}
use fast_share.Common.Number.{Number}
use fast_share.Canvas.Shapes.{Point}
use fast_share.Canvas.Graph.Paths.{lane_path}
use fast_share.PacketLayer.{Layer, Latest, push, graph_of, ack_sprite, spawn_ack}

-- Either there is no path and nothing happens, or one ACK dot is pushed.
pub data Spawned {N : Type 0} ⦃num : Number N⦄ (latest : Latest N) (seq retries : ℕ) (at : N)
    (lane : ℕ) (l l' : Layer N) : Type 0 where
  no_path :
      lane_path (graph_of latest) (some lane) ≡ none
      → l' ≡ l
      → Spawned latest seq retries at lane l l'
  pushed :
      (pts : List (Point N))
      → lane_path (graph_of latest) (some lane) ≡ some pts
      → l' ≡ push (ack_sprite latest l.next_id seq retries at lane pts) l
      → Spawned latest seq retries at lane l l'

pub spawn_ack-Spawned :
    {N : Type 0} ⦃num : Number N⦄ (latest : Latest N) (seq retries : ℕ) (at : N) (lane : ℕ)
    (l : Layer N)
    → Spawned latest seq retries at lane l (spawn_ack latest seq retries at lane l)
unfolding spawn_ack
spawn_ack-Spawned latest seq retries at lane l =
    elim (Option-cases (lane_path (graph_of latest) (some lane))) [
      | inl e ↦ no_path e (rw (e, spawn_ack))
      | inr (pts, e) ↦ pushed pts e (rw (e, spawn_ack))
    ]
