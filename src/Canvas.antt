-- ===== src/Canvas.antt =====
-- frontend/lib/canvas.ts: the canvas graph that both modes of the dashboard draw, the visual state
-- of each lane, and the polyline that a packet travels.
pub mod Lanes
pub mod Shapes
pub mod Graph
pub mod Drawing
pub mod Tests
