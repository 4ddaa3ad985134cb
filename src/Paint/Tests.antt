-- ===== src/Paint/Tests.antt =====
-- The paint program on a few small streams, with natural numbers for floats.
use presslint.Common.{
  ℕ, ◌+◌, ◌*◌, ◌-◌, ◌≡◌, ◌↔◌, refl, true, false, ◌&&◌, Option, none, some, List, [], ◌∷◌, Bytes,
  codes, length, ltb, leb, if◌then◌else◌, arith, ok, Ensures,
}
use presslint.Types.{ContentScope}
use presslint.Syntax.Model.{ByteRange, TokenRef, OperandRecord, OperatorRecord}
use presslint.Paint.Floats.{Float, pos}
use presslint.Paint.Envs.{
  ExtGStateParams, empty_params, all_unresolved, apply_params, set_to, mode_one, non_opaque,
}
use presslint.Paint.Layers.{AllOverride, apply_params_layers}
use presslint.Paint.Names.{decode_pdf_name}
use presslint.Paint.Names.Escapes.{Spells, decode_pdf_name_iff}
use presslint.Paint.Model.{page_default, PaintOpKind, PaintOp, GraphicsStateSnapshot}
use presslint.Paint.Walker.{Walker, no_envs, new_walker, step, walk_from}
use presslint.Paint.Blame.{Blames}
use presslint.Paint.Steps.{IsStep, IsEmpty, step-Ensures}
use presslint.Paint.Nesting.{Walks, stop, go, FailsAt, walk_from-Ensures, Closes-Walks}
use presslint.Paint.Operands.{R}
use presslint.Paint.Program.{PaintProgram, ops_with_initial_state}
use presslint.Paint.Program.Replay.{IsRun, drain, padded, gather, drain-ops_with_initial_state}
use presslint.Paint.CallMachine.{
  PaintSubProgram, InvocationPath, Decision, descend, skip, FormResolver, walk,
}
use presslint.Paint.CallMachine.Brackets.{HasEnded, Replays}
use presslint.Paint.CallMachine.Ends.{BoundsDepth, walk-Ends}

-- Decimal digits.
digits : ℕ → Bytes → Option ℕ
digits n [] = some n
digits n (c ∷ cs) =
    let rest = digits (n * 10 + (c - b'0')) cs in if leb b'0' c && leb c b'9' then rest else none

abbrev naturals : Float
naturals = record {
  Num = ℕ;
  zero_num = 0;
  one_num = 1;
  add = λ a b. a + b;
  mul = λ a b. a * b;
  is_finite = λ _. true;
  parse = digits 0;
  from_bits = λ n. n;
  not_an_i32 = λ n. ltb 2147483647 n;
  as_i32 = pos;
}

abbrev range : ℕ → ℕ → ByteRange
range start end = record { start = start; end = end }

abbrev token : ℕ → ℕ → TokenRef
token start end = record { token_index = 0; range = range start end }

abbrev operand : ℕ → ℕ → OperandRecord
operand start end = record { tokens = token start end ∷ []; range = range start end }

abbrev plain : ℕ → ℕ → List OperandRecord → ℕ → OperatorRecord
plain start end operands first = record {
  operator = token start end;
  operands = operands;
  trivia = [];
  range = range first end;
}

abbrev stream : Bytes
stream = codes "q 1 g Q /F Do"

abbrev save_op : OperatorRecord
save_op = plain 0 1 [] 0

abbrev gray_op : OperatorRecord
gray_op = plain 4 5 (operand 2 3 ∷ []) 2

abbrev restore_op : OperatorRecord
restore_op = plain 6 7 [] 6

abbrev form_op : OperatorRecord
form_op = plain 11 13 (operand 8 10 ∷ []) 8

abbrev start : Walker naturals
start = new_walker naturals (page_default naturals)

step-Ensures_example :
    Ensures
      (IsStep naturals stream 1 gray_op start)
      (Blames (IsEmpty naturals start) gray_op)
      (step naturals no_envs start stream 1 gray_op)
step-Ensures_example = step-Ensures naturals no_envs start stream 1 gray_op

walk_from-Ensures_example :
    Ensures
      (λ ops.
        (w' : Walker naturals) × Walks naturals no_envs stream 0 start
          (save_op ∷ gray_op ∷ restore_op ∷ [])
          ops
          w')
      (FailsAt naturals no_envs stream 0 start (save_op ∷ gray_op ∷ restore_op ∷ []))
      (walk_from naturals no_envs start stream 0 (save_op ∷ gray_op ∷ restore_op ∷ []))
walk_from-Ensures_example =
    walk_from-Ensures naturals no_envs stream start 0 (save_op ∷ gray_op ∷ restore_op ∷ [])

-- The walker behind a step, and its event.
walker_after : R (PaintOp ℕ × Walker naturals) → Walker naturals
walker_after (ok (op, w)) = w
walker_after _ = start

abbrev saved : Walker naturals
saved = walker_after (step naturals no_envs start stream 0 save_op)

abbrev grayed : Walker naturals
grayed = walker_after (step naturals no_envs saved stream 1 gray_op)

abbrev restored : Walker naturals
restored = walker_after (step naturals no_envs grayed stream 2 restore_op)

abbrev event : ℕ → OperatorRecord → PaintOpKind ℕ → GraphicsStateSnapshot ℕ → PaintOp ℕ
event index r kind state = record {
  index = index;
  operator_range = r.operator.range;
  record_range = r.range;
  kind = kind;
  state = state;
}

abbrev gray_events : List (PaintOp ℕ)
gray_events =
    event 0 save_op PaintOpKind.save saved.state
    ∷ event 1 gray_op (PaintOpKind.set_nonstroking_color grayed.state.nonstroking_color)
        grayed.state
    ∷ event 2 restore_op PaintOpKind.restore restored.state
    ∷ []

gray_walk :
    Walks naturals no_envs stream 0 start (save_op ∷ gray_op ∷ restore_op ∷ []) gray_events restored
unfolding walker_after step digits
gray_walk = go {w' = saved} refl (go {w' = grayed} refl (go {w' = restored} refl stop))

gray_set : grayed.state.nonstroking_color.components ≡ 1 ∷ []
unfolding walker_after step digits
gray_set = refl

Closes-Walks_example : restored ≡ start
Closes-Walks_example =
    Closes-Walks naturals no_envs stream
      (PaintOpKind.set_nonstroking_color grayed.state.nonstroking_color ∷ []) gray_walk refl refl

decode_pdf_name_iff_example :
    (decode_pdf_name (codes "A#20B") ≡ some (codes "A B")) ↔ Spells (codes "A#20B") (codes "A B")
decode_pdf_name_iff_example = decode_pdf_name_iff (codes "A#20B") (codes "A B")

escaped_space : decode_pdf_name (codes "A#20B") ≡ some (codes "A B")
unfolding decode_pdf_name
escaped_space = refl

escaped_null : decode_pdf_name (codes "A#00") ≡ none
unfolding decode_pdf_name
escaped_null = refl

abbrev page : PaintProgram
page = record {
  source = stream;
  records = save_op ∷ gray_op ∷ restore_op ∷ form_op ∷ [];
  envs = no_envs;
}

drain-ops_with_initial_state_example :
    (items : List (R (PaintOp ℕ))) × IsRun naturals page.envs page.source
      (new_walker naturals (page_default naturals))
      0
      page.records
      items
    × (drain naturals page 6 (ops_with_initial_state naturals (page_default naturals))
        ≡ padded naturals 6 items)
    × (gather naturals items
        ≡ walk_from naturals page.envs
            (new_walker naturals (page_default naturals))
            page.source
            0
            page.records)
drain-ops_with_initial_state_example =
    drain-ops_with_initial_state naturals page (page_default naturals) 6

abbrev page_program : PaintSubProgram
page_program = record {
  program = page;
  image_xobject_names = [];
  form_xobject_names = codes "F" ∷ [];
  scope = ContentScope.page;
}

-- Every form is the page itself, and is entered down to depth 2.
to_depth : ℕ → InvocationPath → Decision × ℕ
to_depth s path = (if ltb (length path) 2 then descend page_program else skip, s + 1)

abbrev depth_two : FormResolver naturals
depth_two = record {
  State = ℕ;
  resolve_form = λ s path ordinal name op. to_depth s path;
  on_return = λ s path. s;
}

depth_two-BoundsDepth : BoundsDepth naturals depth_two 2
unfolding to_depth
depth_two-BoundsDepth s s' path ordinal name op program e = ground arith

walk-Ends_example :
    (fuel : ℕ) × HasEnded naturals depth_two (walk naturals depth_two fuel page_program 0).result
    × Replays naturals [] (walk naturals depth_two fuel page_program 0).calls []
walk-Ends_example = walk-Ends naturals depth_two 2 depth_two-BoundsDepth page_program 0

abbrev overprinting : ExtGStateParams
overprinting = record empty_params {
  overprint_fill = set_to true;
  overprint_mode = set_to mode_one;
}

abbrev transparent : ExtGStateParams
transparent = record empty_params { fill_alpha = set_to non_opaque; overprint_fill = set_to false }

apply_params_layers_example :
    AllOverride all_unresolved overprinting (apply_params all_unresolved overprinting)
    × (apply_params (apply_params all_unresolved overprinting) transparent
        ≡ apply_params all_unresolved (apply_params overprinting transparent))
    × (apply_params all_unresolved empty_params ≡ all_unresolved)
    × (apply_params empty_params all_unresolved ≡ all_unresolved)
apply_params_layers_example = apply_params_layers all_unresolved overprinting transparent
