-- ===== src/Paint/Arms.antt =====
-- Which arm of `color_event` and `event_kind` in crates/presslint-paint/src/walker.rs an operator takes.
use presslint.Common.{ℕ, Option, none, some, [], ◌∷◌, Bytes, codes, bytes_eq, if◌then◌else◌}
use presslint.Types.{ColorSpace}
use presslint.Paint.Model.{TextShowOperator, PathPaintKind}

pub data ColorSide : Type 0 where
  stroking nonstroking : ColorSide

-- The arms of the two matches on the operator, in `color_event` and in `event_kind`.
pub data Arm : Type 0 where
  device : ColorSpace → ℕ → ColorSide → Arm
  select_space : ColorSide → Arm
  set_value : ColorSide → Arm
  save_state restore_state concat_ctm text_mode choose_font : Arm
  paint_path : PathPaintKind → Arm
  show : TextShowOperator → ℕ → Arm
  invoke ext_g_state other : Arm

unfoldable pub color_arm : Bytes → Option Arm
color_arm operator =
    if bytes_eq operator (codes "G")
    then some (device ColorSpace.device_gray 1 stroking)
    else if bytes_eq operator (codes "g")
    then some (device ColorSpace.device_gray 1 nonstroking)
    else if bytes_eq operator (codes "RG")
    then some (device ColorSpace.device_rgb 3 stroking)
    else if bytes_eq operator (codes "rg")
    then some (device ColorSpace.device_rgb 3 nonstroking)
    else if bytes_eq operator (codes "K")
    then some (device ColorSpace.device_cmyk 4 stroking)
    else if bytes_eq operator (codes "k")
    then some (device ColorSpace.device_cmyk 4 nonstroking)
    else if bytes_eq operator (codes "CS")
    then some (select_space stroking)
    else if bytes_eq operator (codes "cs")
    then some (select_space nonstroking)
    else if bytes_eq operator (codes "SC")
    then some (set_value stroking)
    else if bytes_eq operator (codes "SCN")
    then some (set_value stroking)
    else if bytes_eq operator (codes "sc")
    then some (set_value nonstroking)
    else if bytes_eq operator (codes "scn")
    then some (set_value nonstroking)
    else none

unfoldable pub path_arm : Bytes → Option PathPaintKind
path_arm operator =
    if bytes_eq operator (codes "S")
    then some PathPaintKind.stroke
    else if bytes_eq operator (codes "s")
    then some PathPaintKind.close_and_stroke
    else if bytes_eq operator (codes "f")
    then some PathPaintKind.fill_nonzero
    else if bytes_eq operator (codes "F")
    then some PathPaintKind.fill_obsolete
    else if bytes_eq operator (codes "f*")
    then some PathPaintKind.fill_even_odd
    else if bytes_eq operator (codes "B")
    then some PathPaintKind.fill_and_stroke_nonzero
    else if bytes_eq operator (codes "B*")
    then some PathPaintKind.fill_and_stroke_even_odd
    else if bytes_eq operator (codes "b")
    then some PathPaintKind.close_fill_and_stroke_nonzero
    else if bytes_eq operator (codes "b*")
    then some PathPaintKind.close_fill_and_stroke_even_odd
    else if bytes_eq operator (codes "n")
    then some PathPaintKind.end_path
    else none

-- The arms that are no path painting.
unfoldable pub state_arm : Bytes → Arm
state_arm operator =
    if bytes_eq operator (codes "q")
    then save_state
    else if bytes_eq operator (codes "Q")
    then restore_state
    else if bytes_eq operator (codes "cm")
    then concat_ctm
    else if bytes_eq operator (codes "Tr")
    then text_mode
    else if bytes_eq operator (codes "Tf")
    then choose_font
    else if bytes_eq operator (codes "Tj")
    then show TextShowOperator.show_text 1
    else if bytes_eq operator (codes "TJ")
    then show TextShowOperator.show_text_adjusted 1
    else if bytes_eq operator (b'\'' ∷ [])
    then show TextShowOperator.move_next_line_and_show_text 1
    else if bytes_eq operator (b'"' ∷ [])
    then show TextShowOperator.set_spacing_move_next_line_and_show_text 3
    else if bytes_eq operator (codes "Do")
    then invoke
    else if bytes_eq operator (codes "gs")
    then ext_g_state
    else other

unfoldable pub arm_of : Bytes → Arm
unfolding color_arm path_arm state_arm bytes_eq
arm_of operator = elim (color_arm operator) [
  | some arm ↦ arm
  | none ↦ elim (path_arm operator) [ some paint ↦ paint_path paint | none ↦ state_arm operator ]
]
