-- ===== src/Anim/Tests.antt =====
-- Dots on small polylines.
use fast_share.Common.{ℕ, ◌≡◌, refl, some, List, [], ◌∷◌, arith}
use fast_share.Common.Number.Hundredths.{hundredths}
use fast_share.Canvas.Shapes.{Point}
use fast_share.Anim.{pos_along}
use fast_share.Anim.Laws.{pos_along_total}

abbrev point : ℕ → ℕ → Point ℕ
point x y = record { x = x; y = y }

abbrev bend : List (Point ℕ)
bend = point 0 0 ∷ point 1000 0 ∷ point 1000 600 ∷ []

halfway : pos_along bend (20000 ∷ 20000 ∷ []) 10000 ≡ some (point 500 0)
unfolding pos_along
halfway = refl

after_the_bend : pos_along bend (20000 ∷ 20000 ∷ []) 30000 ≡ some (point 1000 300)
unfolding pos_along
after_the_bend = refl

stays_at_the_end : pos_along bend (20000 ∷ 20000 ∷ []) 90000 ≡ some (point 1000 600)
unfolding pos_along
stays_at_the_end = refl

pos_along_total_example : (p : Point ℕ) × (pos_along bend (20000 ∷ 20000 ∷ []) 30000 ≡ some p)
pos_along_total_example = pos_along_total bend (20000 ∷ 20000 ∷ []) 30000 (refl, omega arith)
