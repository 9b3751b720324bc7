-- ===== src/Selection/Tests.antt =====
-- A selection and a scrolled log.
use fast_share.Common.{ℕ, ◌≡◌, refl, true, none, some, [], ◌∷◌}
use fast_share.Common.Text.{units}
use fast_share.Common.Number.Hundredths.{hundredths}
use fast_share.Selection.{no_file, select_file, on_key, Scroll, on_scroll, after_render}

cleared :
    select_file none
      (select_file (some (record { name = units "a"; size = 1; bytes = 7 ∷ [] })) no_file)
    ≡ no_file
cleared = refl

escape : on_key (units "Escape") (some (units "hub")) ≡ none
unfolding on_key
escape = refl

abbrev log : Scroll ℕ
log = record { height = 100000; top = 30000; client_height = 20000; at_bottom = true }

followed : (on_scroll (after_render log)).at_bottom ≡ true
unfolding on_scroll after_render
followed = refl

scrolled_up : (after_render (on_scroll log)).top ≡ 30000
unfolding on_scroll after_render
scrolled_up = refl
