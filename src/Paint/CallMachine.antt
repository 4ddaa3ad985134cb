-- ===== src/Paint/CallMachine.antt =====
-- crates/presslint-paint/src/call_machine.rs: depth-first traversal of a paint program and the forms
-- that it invokes. The resolver is a parameter with a state of its own. What the machine tells
-- the visitor and the resolver is a list of calls. Of a stack and of a path the head is the last element.
pub mod Brackets
pub mod Ends
use presslint.Common.{
  ℕ, zero, suc, ◌+◌, ◌^◌, Bool, true, false, not, ◌&&◌, Option, none, some, List, [], ◌∷◌, ◌++◌,
  Bytes, bytes_eq, ltb, if◌then◌else◌, Outcome, ok, err, panic, stuck,
}
use presslint.Types.{PdfName, ContentScope, InvocationFrame}
use presslint.Paint.Floats.{Float}
use presslint.Paint.Model.{
  GraphicsStateSnapshot, page_default, PaintOpKind, PaintOp, GraphicsWalkError,
}
use presslint.Paint.Operands.{R}
use presslint.Paint.Program.{PaintProgram, PaintOps, ops_with_initial_state, next}

pub record PaintSubProgram : Type 0 where
  pub program : PaintProgram
  pub image_xobject_names : List PdfName
  pub form_xobject_names : List PdfName
  pub scope : ContentScope

abbrev pub InvocationPath : Type 0
InvocationPath = List InvocationFrame

-- The result of `resolve_form`: `ResolveForm`, or the error that ends the walk.
pub data Decision : Type 0 where
  descend : PaintSubProgram → Decision
  skip : Decision
  refuse : GraphicsWalkError → Decision

-- `.contains(name)`
unfoldable pub has_name : List PdfName → PdfName → Bool
has_name [] name = false
has_name (n ∷ ns) name = if bytes_eq n name then true else has_name ns name

-- `saturating_add(1)` of `u32`.
unfoldable pub next_ordinal : ℕ → ℕ
next_ordinal n = if ltb (n + 1) (2 ^ 32) then n + 1 else n

-- `path.frames.pop()`
abbrev pub pop_frame : InvocationPath → InvocationPath
pop_frame [] = []
pop_frame (x ∷ xs) = xs

module _ (f : Float) where
  open f use {Num}

  -- `FormResolver`, with the state behind each call.
  pub record FormResolver : Type 1 where
    pub State : Type 0
    pub resolve_form : State → InvocationPath → ℕ → PdfName → PaintOp Num → Decision × State
    pub on_return : State → InvocationPath → State

  -- `asked` says whether the resolver descends.
  pub data Call : Type 0 where
    visited : InvocationPath → PaintOp Num → Call
    asked : InvocationPath → ℕ → PdfName → PaintOp Num → Bool → Call
    returned : InvocationPath → Call

  pub record WalkFrame : Type 0 where
    pub program : PaintSubProgram
    pub ops : PaintOps f
    pub next_form_ordinal : ℕ
    pub pop_path_on_return : Bool

  abbrev pub new_frame : PaintSubProgram → GraphicsStateSnapshot Num → Bool → WalkFrame
  new_frame program seed pop_path_on_return = record {
    program = program;
    ops = ops_with_initial_state f seed;
    next_form_ordinal = 0;
    pop_path_on_return = pop_path_on_return;
  }

  abbrev pub root : PaintSubProgram → WalkFrame
  root program = new_frame program (page_default f) false

  abbrev pub callee : PaintSubProgram → GraphicsStateSnapshot Num → WalkFrame
  callee program seed = new_frame program seed true

  unfoldable pub form_invocation_name :
      PaintOpKind Num → List PdfName → List PdfName → Option PdfName
  form_invocation_name (PaintOpKind.x_object_invoke name) images forms =
      if not (has_name images name) && has_name forms name then some name else none
  form_invocation_name _ images forms = none

  module _ (resolver : FormResolver) where
    open resolver use {State, resolve_form, on_return}

    pub record Machine : Type 0 where
      pub stack : List WalkFrame
      pub path : InvocationPath
      pub state : State

    -- The calls of `unwind_open_frames`, and the resolver behind them.
    unfoldable pub unwind_open_frames : List WalkFrame → InvocationPath → State → List Call × State
    unwind_open_frames [] path s = ([], s)
    unwind_open_frames (frame ∷ stack) path s =
        let told = unwind_open_frames stack (pop_frame path) (on_return s path) in
        let plain = unwind_open_frames stack path s in
        if frame.pop_path_on_return then (returned path ∷ told.0, told.1) else plain

    -- What one round of the loop comes to.
    pub data Turn : Type 0 where
      continues : Machine → Turn
      finished : State → Turn
      failed : GraphicsWalkError → State → Turn
      broken : Turn

    abbrev pub fail :
        List Call → GraphicsWalkError → List WalkFrame → InvocationPath → State → List Call × Turn
    fail calls error stack path s =
        let unwound = unwind_open_frames stack path s in
        (calls ++ unwound.0, failed error unwound.1)

    -- The match on the decision, for the form `name` at `op` in `frame`.
    unfoldable pub decided :
        WalkFrame
        → List WalkFrame
        → InvocationPath
        → ℕ
        → PdfName
        → PaintOp Num
        → Decision × State
        → List Call × Turn
    decided frame stack path ordinal name op (descend program, s) = (
      visited path op ∷ asked path ordinal name op true ∷ [],
      continues (record {
        stack = callee program op.state ∷ frame ∷ stack;
        path = record { ordinal = ordinal; name = name } ∷ path;
        state = s;
      }),
    )
    decided frame stack path ordinal name op (skip, s) = (
      visited path op ∷ asked path ordinal name op false ∷ [],
      continues (record { stack = frame ∷ stack; path = path; state = s }),
    )
    decided frame stack path ordinal name op (refuse error, s) =
        fail (visited path op ∷ asked path ordinal name op false ∷ []) error (frame ∷ stack) path s

    -- Behind the visit of `op` in `frame`, which has moved past it.
    unfoldable pub invoked :
        WalkFrame
        → List WalkFrame
        → InvocationPath
        → State
        → PaintOp Num
        → Option PdfName
        → List Call × Turn
    invoked frame stack path s op none =
        (visited path op ∷ [], continues (record { stack = frame ∷ stack; path = path; state = s }))
    invoked frame stack path s op (some name) =
        decided (record frame { next_form_ordinal = next_ordinal frame.next_form_ordinal }) stack
          path frame.next_form_ordinal name op (resolve_form s path frame.next_form_ordinal name op)

    -- The frame that has no event left is popped.
    unfoldable pub popped : WalkFrame → List WalkFrame → InvocationPath → State → List Call × Turn
    popped frame stack path s =
        if frame.pop_path_on_return
        then (
          returned path ∷ [],
          continues (record { stack = stack; path = pop_frame path; state = on_return s path }),
        )
        else ([], continues (record { stack = stack; path = path; state = s }))

    unfoldable pub advanced :
        WalkFrame
        → List WalkFrame
        → InvocationPath
        → State
        → Option (R (PaintOp Num)) × PaintOps f
        → List Call × Turn
    advanced frame stack path s (none, ops) = popped (record frame { ops = ops }) stack path s
    advanced frame stack path s (some (ok op), ops) =
        invoked (record frame { ops = ops }) stack path s op
          (form_invocation_name op.kind frame.program.image_xobject_names
            frame.program.form_xobject_names)
    advanced frame stack path s (some (err error), ops) =
        fail [] error (record frame { ops = ops } ∷ stack) path s
    advanced frame stack path s (some panic, ops) = ([], broken)
    advanced frame stack path s (some stuck, ops) = ([], broken)

    unfoldable pub round : List WalkFrame → InvocationPath → State → List Call × Turn
    round [] path s = ([], finished s)
    round (frame ∷ stack) path s =
        advanced frame stack path s (next f frame.program.program frame.ops)

    -- The calls of a walk, and what it returns.
    pub record Walked : Type 0 where
      pub calls : List Call
      pub result : Outcome GraphicsWalkError State

    abbrev pub walked : List Call → Outcome GraphicsWalkError State → Walked
    walked calls result = record { calls = calls; result = result }

    abbrev pub after : List Call → Walked → Walked
    after calls w = record { calls = calls ++ w.calls; result = w.result }

    abbrev pub turn : (Machine → Walked) → List Call × Turn → Walked
    turn loop (calls, continues m) = after calls (loop m)
    turn loop (calls, finished s) = walked calls (ok s)
    turn loop (calls, failed error s) = walked calls (err error)
    turn loop (calls, broken) = walked calls panic

    -- The loop, with fuel: a resolver may descend without end.
    unfoldable pub loop : ℕ → Machine → Walked
    loop zero m = walked [] stuck
    loop (suc fuel) m = turn (loop fuel) (round m.stack m.path m.state)

    -- `CallMachine::walk`
    unfoldable pub walk : ℕ → PaintSubProgram → State → Walked
    unfolding loop
    walk fuel program s = loop fuel (record { stack = root program ∷ []; path = []; state = s })
