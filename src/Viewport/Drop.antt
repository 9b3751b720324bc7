-- ===== src/Viewport/Drop.antt =====
-- frontend/components/TopologyCanvas.tsx: a file that is dragged over the canvas and dropped there.
use fast_share.Common.{Bool, true, false, Option, none, some, List, [], ◌∷◌}

-- The files of a drop, in their order.
pub data FileDrag (F : Type 0) : Type 0 where
  over leave : FileDrag F
  drop : List F → FileDrag F

-- The highlight after the event, and the file that is selected by it.
unfoldable pub file_drag : {F : Type 0} → FileDrag F → Bool × Option F
file_drag FileDrag.over = (true, none)
file_drag FileDrag.leave = (false, none)
file_drag (FileDrag.drop []) = (false, none)
file_drag (FileDrag.drop (f ∷ fs)) = (false, some f)
