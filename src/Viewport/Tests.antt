-- ===== src/Viewport/Tests.antt =====
-- Gestures on the canvas.
use fast_share.Common.{ℕ, ◌+◌}
use fast_share.Common.Number.Hundredths.{hundredths}
use fast_share.Viewport.{Rect}

abbrev exp : ℕ → ℕ
exp x = 100

-- a distance of the test: the sum of the two offsets
abbrev offset : ℕ → ℕ → ℕ
offset a b = a + b

abbrev picture : Rect ℕ
picture = record { left = 0; top = 0; width = 64000; height = 40000 }
