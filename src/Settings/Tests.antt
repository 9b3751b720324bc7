-- ===== src/Settings/Tests.antt =====
-- The settings form on the sample configuration.
use fast_share.Common.{◌≡◌, ◌↔◌, refl, true, none, some, [], ◌∷◌, arith}
use fast_share.Common.Text.{units}
use fast_share.Samples.{config}
use fast_share.Settings.{Key, Card, opened, set_num, save, payload, cleaned, Edit}
use fast_share.Settings.Laws.{IsInRange, IsAcceptedIf, save_iff, edits, edits-IsBackground}

config-IsInRange : IsInRange config
config-IsInRange = record {
  port = omega arith;
  size = omega arith;
  timeout = omega arith;
  retries = omega arith;
  latency = omega arith;
}

abbrev edited : Card
edited = set_num Key.udp_port (units "90000") (opened config)

big_port_refused : (save edited).1 ≡ none
unfolding save cleaned
big_port_refused = refl

big_port : ¬ IsInRange (payload edited.form)
unfolding payload cleaned
big_port r = omega (arith, r.port)

save_iff_example :
    (((save (opened config)).1 ≡ some (record config { window_size = 1 })) ↔ (
      (record config { window_size = 1 } ≡ payload (opened config).form)
      × IsInRange (record config { window_size = 1 })))
    × IsAcceptedIf (save (opened config)).1
save_iff_example = save_iff (opened config) (record config { window_size = 1 })

edits-IsBackground_example :
    ((edits (Edit.followed config ∷ Edit.save_begun ∷ []) edited).form ≡ edited.form)
    × ((edits (Edit.followed config ∷ Edit.save_begun ∷ []) edited).dirty ≡ true)
edits-IsBackground_example =
    edits-IsBackground (Edit.followed config ∷ Edit.save_begun ∷ []) edited (tt, (tt, tt)) refl
