-- ===== src/Selection.antt =====
-- The small hooks: frontend/hooks/useFileSelection.ts, useNodeSelection.ts and useStickToBottom.ts.
pub mod Tests
use fast_share.Common.{ℕ, Bool, true, false, not, ◌&&◌, Option, none, some, List, [], ◌∷◌}
use fast_share.Common.Tests.{if◌then◌else◌}
use fast_share.Common.Text.{Text, units, text_eq}
use fast_share.Common.Number.{Number, lt}
use fast_share.Types.{SelectedFile}

-- A file of the browser: its name, its size and its bytes.
pub record File : Type 0 where
  pub name : Text
  pub size : ℕ
  pub bytes : List ℕ

pub record Files : Type 0 where
  pub selected_file : Option SelectedFile
  pub raw_file : Option File

abbrev pub no_file : Files
no_file = record { selected_file = none; raw_file = none }

abbrev pub select_file : Option File → Files → Files
select_file none s = no_file
select_file (some file) s = record {
  raw_file = some file;
  selected_file = some (record { name = file.name; size = file.size });
}

-- `onKey` of useNodeSelection: Escape clears the selected node
unfoldable pub on_key : Text → Option Text → Option Text
unfolding text_eq
on_key key selected = if text_eq key (units "Escape") then none else selected

-- A scrolling element, and whether it is followed to its end.
pub record Scroll (N : Type 0) : Type 0 where
  pub height : N
  pub top : N
  pub client_height : N
  pub at_bottom : Bool

module _ {N : Type 0} ⦃num : Number N⦄ where
  -- `scrollHeight - scrollTop - clientHeight <= 15`
  unfoldable pub on_scroll : Scroll N → Scroll N
  on_scroll s = record s {
    at_bottom = num.le (num.sub (num.sub s.height s.top) s.client_height) (num.of_nat 15);
  }

  unfoldable pub on_wheel : N → Scroll N → Scroll N
  on_wheel delta_y s = if lt delta_y (num.of_nat 0) then record s { at_bottom = false } else s

  -- the effect after every render; the browser holds `scrollTop` down to the last page
  unfoldable pub after_render : Scroll N → Scroll N
  after_render s = if s.at_bottom then record s { top = num.sub s.height s.client_height } else s
