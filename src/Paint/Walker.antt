-- ===== src/Paint/Walker.antt =====
-- `GraphicsStateWalker` of crates/presslint-paint/src/walker.rs. A failed `step` changes nothing: a
-- walker that fails is not used again.
use presslint.Common.{
  ℕ, ◌+◌, Bool, true, false, Option, none, some, List, [], ◌∷◌, Bytes, if◌then◌else◌, ok, err,
  ◌>>=◌,
}
use presslint.Types.{PdfName, ColorSpace}
use presslint.Syntax.Model.{ByteRange, OperatorRecord}
use presslint.Paint.Floats.{Float}
use presslint.Paint.Envs.{
  ColorSpaceResource, resource_spot_name, resource_spot_names, initial_color, resolve_color_space,
  ExtGStateResource, leave_unchanged, select, unknown_directive, ResolvedFont, FontBindingTarget,
  resolved, unresolved_target, FontEnv, is_disabled, resolve_font, resolve_extgstate, apply_params,
  all_unresolved,
}
use presslint.Paint.Model.{
  GraphicsColor, FontSelectionState, selected, resolved_indirect, indeterminate, from_pdf_value,
  GraphicsStateSnapshot, page_default, TextShowOperator, PathPaintKind, PaintOpKind, PaintOp,
  graphics_state_stack_underflow, Envs, GraphicsStateWalker,
}
use presslint.Paint.Arms.{
  ColorSide, stroking, nonstroking, Arm, device, select_space, set_value, save_state, restore_state,
  concat_ctm, text_mode, choose_font, paint_path, show, invoke, ext_g_state, other, arm_of,
}
use presslint.Paint.Operands.{
  R, walk_error, checked_source, expect_operands, name_operand, device_color, numeric_operands,
  integer_operand, font_operands, color_operands, concat_matrices,
}

-- `ColorSpaceEnv::empty`, `ExtGStateEnv::empty` and `FontEnv::disabled`
abbrev pub no_envs : Envs
no_envs = record { color_space_env = []; extgstate_env = []; font_env = FontEnv.disabled }

module _ (f : Float) where
  open f use {Num, from_bits, is_finite}

  abbrev pub State : Type 0
  State = GraphicsStateSnapshot Num

  abbrev pub Walker : Type 0
  Walker = GraphicsStateWalker Num

  -- An event, and the walker behind it.
  abbrev pub Event : Type 0
  Event = PaintOpKind Num × Walker

  -- `self.state = ..` and `self.state_mut()`
  abbrev pub with_state : Walker → State → Walker
  with_state w s = record w { state = s }

  unfoldable pub resource_initial_color :
      ColorSpaceResource → PdfName → ByteRange → GraphicsColor Num
  resource_initial_color r name range = record {
    space = r.space;
    components = initial_color f r;
    resource_name = some name;
    spot_name = resource_spot_name r;
    spot_names = resource_spot_names r;
    source = some range;
  }

  unfoldable pub selected_color : Envs → PdfName → ByteRange → GraphicsColor Num
  selected_color envs name range = elim (resolve_color_space envs.color_space_env name) [
    | none ↦ record {
      space = ColorSpace.resource name;
      components = [];
      resource_name = some name;
      spot_name = none;
      spot_names = [];
      source = some range;
    }
    | some r ↦ resource_initial_color r name range
  ]

  unfoldable pub side_color : ColorSide → State → GraphicsColor Num
  side_color stroking s = s.stroking_color
  side_color nonstroking s = s.nonstroking_color

  unfoldable pub apply_color : Walker → ColorSide → GraphicsColor Num → Event
  apply_color w stroking color = (
    PaintOpKind.set_stroking_color color,
    with_state w (record w.state { stroking_color = color }),
  )
  apply_color w nonstroking color = (
    PaintOpKind.set_nonstroking_color color,
    with_state w (record w.state { nonstroking_color = color }),
  )

  unfoldable pub set_device_color :
      Walker → Bytes → Bytes → OperatorRecord → ColorSpace → ℕ → ColorSide → R Event
  set_device_color w source operator r space count side = do
    color ← device_color f source operator r space count
    ok (apply_color w side (record color { source = some r.range }))

  unfoldable pub select_color_space :
      Envs → Walker → Bytes → Bytes → OperatorRecord → ColorSide → R Event
  select_color_space envs w source operator r side = do
    name ← name_operand source operator r
    ok (apply_color w side (selected_color envs name r.range))

  -- The color of `set_color_value`, from the current one.
  unfoldable pub with_components :
      GraphicsColor Num → List Num → Option PdfName → ByteRange → GraphicsColor Num
  with_components current components none range = record current {
    components = components;
    source = some range;
  }
  with_components current components (some name) range = record current {
    components = components;
    resource_name = some name;
    source = some range;
  }

  unfoldable pub set_color_value : Walker → Bytes → Bytes → OperatorRecord → ColorSide → R Event
  set_color_value w source operator r side = do
    (components, pattern_name) ← color_operands f source operator r
    ok (
        apply_color w side
          (with_components (side_color side w.state) components pattern_name r.range))

  abbrev pub resolved_selection : ResolvedFont → Num → FontSelectionState Num
  resolved_selection font size =
      resolved_indirect font.object_number font.generation font.object_byte_offset size

  -- What the font directive of a resource makes of the font selection.
  unfoldable pub directed_font :
      Option ExtGStateResource → FontSelectionState Num → FontSelectionState Num
  directed_font none current = indeterminate
  directed_font (some r) current = elim r.font [
    | leave_unchanged ↦ current
    | select font size_bits ↦
        if is_finite (from_bits size_bits)
        then resolved_selection font (from_bits size_bits)
        else indeterminate
    | unknown_directive ↦ indeterminate
  ]

  unfoldable pub font_after : FontEnv → Option ExtGStateResource → State → State
  unfolding directed_font
  font_after env r s = record s {
    font_selection = if is_disabled env then indeterminate else directed_font r s.font_selection;
  }

  unfoldable pub params_after : Option ExtGStateResource → State → State
  params_after none s = record s { extgstate = all_unresolved }
  params_after (some r) s = record s { extgstate = apply_params s.extgstate r.params }

  abbrev pub is_empty {ℓ} : {A : Type ℓ} → List A → Bool
  is_empty [] = true
  is_empty (x ∷ xs) = false

  unfoldable pub apply_extgstate : Envs → State → PdfName → State
  unfolding font_after params_after
  apply_extgstate envs s name =
      let found = resolve_extgstate envs.extgstate_env name in
      let s' = font_after envs.font_env found s in
      if is_empty envs.extgstate_env then s' else params_after found s'

  -- The match on the font binding in `set_font`.
  unfoldable pub bound_font : Option FontBindingTarget → Num → FontSelectionState Num
  bound_font none size = indeterminate
  bound_font (some unresolved_target) size = indeterminate
  bound_font (some (resolved font)) size = resolved_selection font size

  unfoldable pub set_font : Envs → Walker → Bytes → Bytes → OperatorRecord → R Event
  unfolding bound_font
  set_font envs w source operator r = do
    (name, size) ← font_operands f source operator r
    let selection =
        if is_disabled envs.font_env
        then selected name size
        else bound_font (resolve_font envs.font_env name) size
    ok (
      PaintOpKind.set_font name size,
      with_state w (record w.state { font_selection = selection }),
    )

  unfoldable pub set_text_rendering_mode : Walker → Bytes → Bytes → OperatorRecord → R Event
  set_text_rendering_mode w source operator r = do
    value ← integer_operand f source operator r
    let mode = from_pdf_value value
    ok (
      PaintOpKind.set_text_rendering_mode mode,
      with_state w (record w.state { text_rendering_mode = mode }),
    )

  abbrev pub path_event : Walker → Bytes → OperatorRecord → PathPaintKind → R Event
  path_event w operator r paint = do
    _ ← expect_operands operator r 0
    ok (PaintOpKind.path_paint paint, w)

  abbrev pub text_event : Walker → Bytes → OperatorRecord → TextShowOperator → ℕ → R Event
  text_event w operator r show_operator expected = do
    _ ← expect_operands operator r expected
    ok (PaintOpKind.text_show show_operator w.state.text_rendering_mode, w)

  -- `stack.pop()`
  unfoldable pub pop_state : Walker → List State → ByteRange → R Event
  pop_state w [] range = err (walk_error graphics_state_stack_underflow range)
  pop_state w (previous ∷ stack) range =
      ok (PaintOpKind.restore, record { state = previous; stack = stack })

  unfoldable pub arm_event : Envs → Walker → Bytes → Bytes → OperatorRecord → Arm → R Event
  unfolding pop_state
  arm_event envs w source operator r (device space count side) =
      set_device_color w source operator r space count side
  arm_event envs w source operator r (select_space side) =
      select_color_space envs w source operator r side
  arm_event envs w source operator r (set_value side) = set_color_value w source operator r side
  arm_event envs w source operator r save_state = do
    _ ← expect_operands operator r 0
    ok (PaintOpKind.save, record w { stack = w.state ∷ w.stack })
  arm_event envs w source operator r restore_state = do
    _ ← expect_operands operator r 0
    pop_state w w.stack r.range
  arm_event envs w source operator r concat_ctm = do
    matrix ← numeric_operands f source operator r 6
    ok (
      PaintOpKind.concat_matrix matrix,
      with_state w (record w.state { ctm = concat_matrices f matrix w.state.ctm }),
    )
  arm_event envs w source operator r text_mode = set_text_rendering_mode w source operator r
  arm_event envs w source operator r choose_font = set_font envs w source operator r
  arm_event envs w source operator r (paint_path paint) = path_event w operator r paint
  arm_event envs w source operator r (show show_operator expected) =
      text_event w operator r show_operator expected
  arm_event envs w source operator r invoke = do
    name ← name_operand source operator r
    ok (PaintOpKind.x_object_invoke name, w)
  arm_event envs w source operator r ext_g_state = do
    name ← name_operand source operator r
    ok (PaintOpKind.set_ext_g_state name, with_state w (apply_extgstate envs w.state name))
  arm_event envs w source operator r other = ok (PaintOpKind.no_op, w)

  unfoldable pub event_kind : Envs → Walker → Bytes → Bytes → OperatorRecord → R Event
  event_kind envs w source operator r = arm_event envs w source operator r (arm_of operator)

  unfoldable pub step : Envs → Walker → Bytes → ℕ → OperatorRecord → R (PaintOp Num × Walker)
  unfolding event_kind arm_event arm_of set_device_color select_color_space set_color_value set_font
      set_text_rendering_mode apply_extgstate apply_color side_color with_components selected_color
      resource_initial_color checked_source expect_operands name_operand device_color
      numeric_operands integer_operand font_operands color_operands concat_matrices from_pdf_value
  step envs w source index r = do
    _ ← checked_source source r.range r.range
    operator ← checked_source source r.operator.range r.range
    (kind, w') ← event_kind envs w source operator r
    ok (
      record {
        index = index;
        operator_range = r.operator.range;
        record_range = r.range;
        kind = kind;
        state = w'.state;
      },
      w',
    )

  -- The iterator of `walk_graphics_state`, from record `index` on, for a given walker.
  unfoldable pub walk_from :
      Envs → Walker → Bytes → ℕ → List OperatorRecord → R (List (PaintOp Num))
  walk_from envs w source index [] = ok []
  walk_from envs w source index (r ∷ rs) = do
    (op, w') ← step envs w source index r
    ops ← walk_from envs w' source (index + 1) rs
    ok (op ∷ ops)

  abbrev pub new_walker : State → Walker
  new_walker initial_state = record { state = initial_state; stack = [] }

  unfoldable pub walk_graphics_state : Bytes → List OperatorRecord → R (List (PaintOp Num))
  walk_graphics_state source records =
      walk_from no_envs (new_walker (page_default f)) source 0 records
