-- ===== src/Paint/Steps.antt =====
-- One `step` of the walker: what its event says of the operator, and of the stack.
use presslint.Common.{
  ℕ, ◌≡◌, ◌≢◌, ◌↔◌, refl, ap, sym, ◌∙◌, bytes_eq_refl, inl, inr, Option, none, some, List, [], ◌∷◌,
  Bytes, codes, bytes_eq, bytes_eq→eq, get_range?, Bool, true, false, Bool-cases, Ensures, returns,
  fails, Ensures->>=, arith,
}
use presslint.Syntax.Model.{OperatorRecord}
use presslint.Paint.Floats.{Float}
use presslint.Paint.Model.{
  GraphicsStateSnapshot, PaintOpKind, PaintOp, PathPaintKind, Envs, GraphicsColor,
}
use presslint.Paint.Arms.{
  ColorSide, stroking, nonstroking, Arm, device, select_space, set_value, color_arm, path_arm,
  state_arm, save_state, restore_state, concat_ctm, text_mode, choose_font, paint_path, show,
  invoke, ext_g_state, other, arm_of,
}
use presslint.Paint.Blame.{
  Blames, record_source-Ensures, expect_operands-Ensures, name_operand-Ensures,
  device_color-Ensures, numeric_operands-Ensures, integer_operand-Ensures, font_operands-Ensures,
  color_operands-Ensures,
}
use presslint.Paint.Walker.{
  Walker, apply_color, set_device_color, select_color_space, set_color_value, set_font,
  set_text_rendering_mode, pop_state, arm_event, event_kind, step,
}

module _ (f : Float) where
  open f use {Num}

  -- `Save` pushes the state and keeps it; `Restore` pops it; any other event leaves the stack alone.
  abbrev pub StackEffect : PaintOpKind Num → Walker f → Walker f → Type 0
  StackEffect PaintOpKind.save w w' = (w'.stack ≡ w.state ∷ w.stack) × (w'.state ≡ w.state)
  StackEffect PaintOpKind.restore w w' = w.stack ≡ w'.state ∷ w'.stack
  StackEffect (PaintOpKind.concat_matrix m) w w' = w'.stack ≡ w.stack
  StackEffect (PaintOpKind.set_stroking_color c) w w' = w'.stack ≡ w.stack
  StackEffect (PaintOpKind.set_nonstroking_color c) w w' = w'.stack ≡ w.stack
  StackEffect (PaintOpKind.path_paint p) w w' = (w'.stack ≡ w.stack) × (w'.state ≡ w.state)
  StackEffect (PaintOpKind.set_text_rendering_mode m) w w' = w'.stack ≡ w.stack
  StackEffect (PaintOpKind.set_font n s) w w' = w'.stack ≡ w.stack
  StackEffect (PaintOpKind.text_show o m) w w' =
      (w'.stack ≡ w.stack) × (w'.state ≡ w.state) × (m ≡ w.state.text_rendering_mode)
  StackEffect (PaintOpKind.x_object_invoke n) w w' = (w'.stack ≡ w.stack) × (w'.state ≡ w.state)
  StackEffect (PaintOpKind.set_ext_g_state n) w w' = w'.stack ≡ w.stack
  StackEffect PaintOpKind.no_op w w' = (w'.stack ≡ w.stack) × (w'.state ≡ w.state)

  abbrev pub IsSave : PaintOpKind Num → Type 0
  IsSave PaintOpKind.save = Unit
  IsSave _ = ⊥

  abbrev pub IsRestore : PaintOpKind Num → Type 0
  IsRestore PaintOpKind.restore = Unit
  IsRestore _ = ⊥

  -- An event is a save exactly at the operator `q`, and a restore exactly at `Q`.
  abbrev pub IsKindOf : Bytes → PaintOpKind Num → Type 0
  IsKindOf operator kind =
      ((operator ≡ codes "q") ↔ IsSave kind) × ((operator ≡ codes "Q") ↔ IsRestore kind)

  abbrev Neutral : PaintOpKind Num → Type 0
  Neutral kind = (¬ IsSave kind) × (¬ IsRestore kind)

  -- What an arm makes of the event.
  abbrev KindOfArm : Arm → PaintOpKind Num → Type 0
  KindOfArm save_state kind = IsSave kind × (¬ IsRestore kind)
  KindOfArm restore_state kind = (¬ IsSave kind) × IsRestore kind
  KindOfArm _ kind = Neutral kind

  -- The arm fits the operator.
  abbrev FitsArm : Bytes → Arm → Type 0
  FitsArm operator save_state = operator ≡ codes "q"
  FitsArm operator restore_state = operator ≡ codes "Q"
  FitsArm operator _ = (operator ≢ codes "q") × (operator ≢ codes "Q")

  abbrev ArmEffect : Walker f → Arm → PaintOpKind Num × Walker f → Type 0
  ArmEffect w arm (kind, w') = KindOfArm arm kind × StackEffect kind w w'

  q_differs : (operator : Bytes) → operator ≡ codes "q" → operator ≡ codes "Q" → ⊥
  unfolding bytes_eq
  q_differs operator e e' =
      let same : true ≡ false = ap (λ x. bytes_eq x (codes "q")) (sym e ∙ e') in absurd (cc)

  neither :
      (operator : Bytes) (kind : PaintOpKind Num)
      → (operator ≢ codes "q") × (operator ≢ codes "Q")
      → Neutral kind
      → IsKindOf operator kind
  neither operator kind (a, b) (n, m) =
      ((λ e. absurd (a e), λ h. absurd (n h)), (λ e. absurd (b e), λ h. absurd (m h)))

  KindOfArm-IsKindOf :
      (operator : Bytes) (arm : Arm) (kind : PaintOpKind Num)
      → FitsArm operator arm
      → KindOfArm arm kind
      → IsKindOf operator kind
  KindOfArm-IsKindOf operator save_state kind e (k, n) =
      ((λ _. k, λ _. e), (λ e'. absurd (q_differs operator e e'), λ h. absurd (n h)))
  KindOfArm-IsKindOf operator restore_state kind e (n, k) =
      ((λ e'. absurd (q_differs operator e' e), λ h. absurd (n h)), (λ _. k, λ _. e))
  KindOfArm-IsKindOf operator (device space m side) kind e n = neither operator kind e n
  KindOfArm-IsKindOf operator (select_space side) kind e n = neither operator kind e n
  KindOfArm-IsKindOf operator (set_value side) kind e n = neither operator kind e n
  KindOfArm-IsKindOf operator concat_ctm kind e n = neither operator kind e n
  KindOfArm-IsKindOf operator text_mode kind e n = neither operator kind e n
  KindOfArm-IsKindOf operator choose_font kind e n = neither operator kind e n
  KindOfArm-IsKindOf operator (paint_path paint) kind e n = neither operator kind e n
  KindOfArm-IsKindOf operator (show o m) kind e n = neither operator kind e n
  KindOfArm-IsKindOf operator invoke kind e n = neither operator kind e n
  KindOfArm-IsKindOf operator ext_g_state kind e n = neither operator kind e n
  KindOfArm-IsKindOf operator other kind e n = neither operator kind e n

  -- Whether an arm is neither that of `q` nor that of `Q`.
  abbrev is_harmless : Arm → Bool
  is_harmless save_state = false
  is_harmless restore_state = false
  is_harmless _ = true

  abbrev all_harmless : Option Arm → Bool
  all_harmless none = true
  all_harmless (some arm) = is_harmless arm

  color_arm_harmless : (operator : Bytes) → all_harmless (color_arm operator) ≡ true
  unfolding color_arm
  color_arm_harmless operator = ground arith

  state_arm_harmless :
      (operator : Bytes)
      → bytes_eq operator (codes "q") ≡ false
      → bytes_eq operator (codes "Q") ≡ false
      → is_harmless (state_arm operator) ≡ true
  unfolding state_arm
  state_arm_harmless operator e e' = rw (e, e') (ground arith)

  chosen_harmless :
      (color : Option Arm) (path : Option PathPaintKind) (state : Arm)
      → all_harmless color ≡ true
      → is_harmless state ≡ true
      → is_harmless (elim color [
        | some arm ↦ arm
        | none ↦ elim path [ some paint ↦ paint_path paint | none ↦ state ]
      ])
        ≡ true
  chosen_harmless (some arm) path state h k = h
  chosen_harmless none (some paint) state h k = refl
  chosen_harmless none none state h k = k

  harmless-FitsArm :
      (operator : Bytes) (arm : Arm)
      → is_harmless arm ≡ true
      → (operator ≢ codes "q") × (operator ≢ codes "Q")
      → FitsArm operator arm
  harmless-FitsArm operator (device space n side) h k = k
  harmless-FitsArm operator (select_space side) h k = k
  harmless-FitsArm operator (set_value side) h k = k
  harmless-FitsArm operator concat_ctm h k = k
  harmless-FitsArm operator text_mode h k = k
  harmless-FitsArm operator choose_font h k = k
  harmless-FitsArm operator (paint_path paint) h k = k
  harmless-FitsArm operator (show o n) h k = k
  harmless-FitsArm operator invoke h k = k
  harmless-FitsArm operator ext_g_state h k = k
  harmless-FitsArm operator other h k = k
  harmless-FitsArm operator save_state h k = cc
  harmless-FitsArm operator restore_state h k = cc

  differs : (operator text : Bytes) → bytes_eq operator text ≡ false → operator ≢ text
  differs operator text e same = let hit = bytes_eq_refl text in let miss = rw same at e in cc

  arm_of-FitsArm : (operator : Bytes) → FitsArm operator (arm_of operator)
  unfolding arm_of
  arm_of-FitsArm operator = elim (Bool-cases (bytes_eq operator (codes "q"))) [
    | inl e ↦ let same = bytes_eq→eq operator (codes "q") e in rw same refl
    | inr e ↦ elim (Bool-cases (bytes_eq operator (codes "Q"))) [
      | inl e' ↦ let same = bytes_eq→eq operator (codes "Q") e' in rw same refl
      | inr e' ↦
          harmless-FitsArm operator (arm_of operator)
            (chosen_harmless (color_arm operator) (path_arm operator) (state_arm operator)
              (color_arm_harmless operator) (state_arm_harmless operator e e'))
            (differs operator (codes "q") e, differs operator (codes "Q") e')
    ]
  ]

  abbrev pub IsEmpty : Walker f → Type 0
  IsEmpty w = w.stack ≡ []

  -- The event of a record, with the state behind it.
  abbrev pub IsStep : Bytes → ℕ → OperatorRecord → Walker f → PaintOp Num × Walker f → Type 0
  IsStep source index r w (op, w') =
      (op.index ≡ index)
      × (op.operator_range ≡ r.operator.range)
      × (op.record_range ≡ r.range)
      × (op.state ≡ w'.state)
      × ((operator : Bytes) × (get_range? source r.operator.range.start r.operator.range.end
            ≡ some operator)
          × IsKindOf operator op.kind)
      × StackEffect op.kind w w'

  module _ (envs : Envs) (w : Walker f) (source operator : Bytes) (r : OperatorRecord) where
    apply_color-StackEffect :
        (side : ColorSide) (c : GraphicsColor Num)
        → Neutral (apply_color f w side c).0
          × StackEffect (apply_color f w side c).0 w (apply_color f w side c).1
    unfolding apply_color
    apply_color-StackEffect stroking c = ((λ h. h, λ h. h), refl)
    apply_color-StackEffect nonstroking c = ((λ h. h, λ h. h), refl)

    pop_state-Ensures :
        (stack : List (GraphicsStateSnapshot Num))
        → w.stack ≡ stack
        → Ensures (ArmEffect w restore_state) (Blames (IsEmpty w) r) (pop_state f w stack r.range)
    unfolding pop_state
    pop_state-Ensures [] e = fails (e, refl)
    pop_state-Ensures (s ∷ ss) e = returns ((λ h. h, tt), e)

    arm_event-Ensures :
        (arm : Arm)
        → Ensures
            (ArmEffect w arm)
            (Blames (IsEmpty w) r)
            (arm_event f envs w source operator r arm)
    unfolding arm_event set_device_color select_color_space set_color_value set_font
        set_text_rendering_mode
    arm_event-Ensures (device space n side) =
        Ensures->>= (device_color-Ensures (IsEmpty w) r source operator f space n)
          (λ c _. returns (apply_color-StackEffect side _))
    arm_event-Ensures (select_space side) =
        Ensures->>= (name_operand-Ensures (IsEmpty w) r source operator)
          (λ name _. returns (apply_color-StackEffect side _))
    arm_event-Ensures (set_value side) =
        Ensures->>= (color_operands-Ensures (IsEmpty w) r source operator f)
          (λ p _. returns (apply_color-StackEffect side _))
    arm_event-Ensures save_state =
        Ensures->>= (expect_operands-Ensures (IsEmpty w) r source operator 0)
          (λ _ _. returns ((tt, λ h. h), (refl, refl)))
    arm_event-Ensures restore_state =
        Ensures->>= (expect_operands-Ensures (IsEmpty w) r source operator 0)
          (λ _ _. pop_state-Ensures w.stack refl)
    arm_event-Ensures concat_ctm =
        Ensures->>= (numeric_operands-Ensures (IsEmpty w) r source operator f)
          (λ m _. returns ((λ h. h, λ h. h), refl))
    arm_event-Ensures text_mode =
        Ensures->>= (integer_operand-Ensures (IsEmpty w) r source operator f)
          (λ m _. returns ((λ h. h, λ h. h), refl))
    arm_event-Ensures choose_font =
        Ensures->>= (font_operands-Ensures (IsEmpty w) r source operator f)
          (λ p _. returns ((λ h. h, λ h. h), refl))
    arm_event-Ensures (paint_path paint) =
        Ensures->>= (expect_operands-Ensures (IsEmpty w) r source operator 0)
          (λ _ _. returns ((λ h. h, λ h. h), (refl, refl)))
    arm_event-Ensures (show o n) =
        Ensures->>= (expect_operands-Ensures (IsEmpty w) r source operator n)
          (λ _ _. returns ((λ h. h, λ h. h), (refl, refl, refl)))
    arm_event-Ensures invoke =
        Ensures->>= (name_operand-Ensures (IsEmpty w) r source operator)
          (λ name _. returns ((λ h. h, λ h. h), (refl, refl)))
    arm_event-Ensures ext_g_state =
        Ensures->>= (name_operand-Ensures (IsEmpty w) r source operator)
          (λ name _. returns ((λ h. h, λ h. h), refl))
    arm_event-Ensures other = returns ((λ h. h, λ h. h), (refl, refl))

  -- For every record the call comes back. The event has the record's index and ranges and the state
  -- behind the operator. It is a save exactly where the bytes of the operator are `q`, and a restore
  -- exactly where they are `Q`: a save pushes the state and keeps it, a restore pops it, no other
  -- event touches the stack, and those that only paint leave the state alone, too. An error is about
  -- the record's range or an operand's, an operand count names the count of the record, and an
  -- underflow says that the stack was empty.
  pub step-Ensures :
      (envs : Envs) (w : Walker f) (source : Bytes) (index : ℕ) (r : OperatorRecord)
      → Ensures (IsStep source index r w) (Blames (IsEmpty w) r) (step f envs w source index r)
  unfolding step event_kind
  step-Ensures envs w source index r =
      Ensures->>= (record_source-Ensures (IsEmpty w) r source source r.range) (λ _ _.
        Ensures->>= (record_source-Ensures (IsEmpty w) r source source r.operator.range)
          (λ operator read.
            Ensures->>= (arm_event-Ensures envs w source operator r (arm_of operator))
              (λ (kind, w') (made, effect). returns (
                refl,
                refl,
                refl,
                refl,
                (
                  operator,
                  read,
                  KindOfArm-IsKindOf operator (arm_of operator) kind (arm_of-FitsArm operator) made,
                ),
                effect,
              ))))
