-- ===== src/Paint/CallMachine/Ends.antt =====
-- Under a resolver that bounds the depth the machine comes to an end.
use presslint.Common.{
  ℕ, zero, suc, ◌+◌, ◌-◌, ◌≤◌, ◌<◌, ◌≡◌, refl, inl, inr, true, false, Option, none, some, List, [],
  ◌∷◌, length, get_elem?-cases, if◌then◌else◌, Bool-cases, arith, ok, err, Ensures-returns,
}
use presslint.Types.{PdfName, InvocationFrame}
use presslint.Paint.Floats.{Float}
use presslint.Paint.Model.{PaintOp, GraphicsWalkError}
use presslint.Paint.Steps.{step-Ensures}
use presslint.Paint.Program.{PaintProgram, PaintOps, next, stepped}
use presslint.Paint.CallMachine.{
  PaintSubProgram, InvocationPath, Decision, descend, skip, refuse, next_ordinal, pop_frame,
  FormResolver, Call, WalkFrame, callee, root, Machine, Turn, continues, finished, failed, broken,
  decided, invoked, popped, advanced, round, turn, loop, walk,
}
use presslint.Paint.CallMachine.Brackets.{HasEnded, Replays, walk-Replays}

module _ (f : Float) where
  open f use {Num}

  remaining : PaintProgram → PaintOps f → ℕ
  remaining program p = length program.records - p.index

  -- `next` hands out nothing, or an event of one record less, or an error.
  data Nexts (program : PaintProgram) (p : PaintOps f) : Type 0 where
    over : next f program p ≡ (none, p) → Nexts program p
    event :
        (op : PaintOp Num) (p' : PaintOps f)
        → next f program p ≡ (some (ok op), p')
        → remaining program p' < remaining program p
        → Nexts program p
    error :
        (e : GraphicsWalkError) (p' : PaintOps f)
        → next f program p ≡ (some (err e), p')
        → Nexts program p

  next-Nexts : (program : PaintProgram) (p : PaintOps f) → Nexts program p
  unfolding next remaining
  next-Nexts program p = elim (Bool-cases p.done) [
    | inl d ↦ over (rw d refl)
    | inr d ↦ elim (get_elem?-cases program.records p.index) [
      | inl (e, _) ↦ over (simp (d, e))
      | inr (r, e, l) ↦
          elim (Ensures-returns (step-Ensures f program.envs p.walker program.source p.index r)) [
            | inl ((op, w), same, _) ↦
                event op (record { walker = w; index = p.index + 1; done = false })
                  (simp (d, e, same, stepped)) (omega arith)
            | inr (x, same, _) ↦
                error x (record { walker = p.walker; index = p.index + 1; done = true })
                  (simp (d, e, same, stepped))
          ]
    ]
  ]

  module _ (resolver : FormResolver f) where
    open resolver use {State, resolve_form, on_return}

    abbrev machine : List (WalkFrame f) → InvocationPath → State → Machine f resolver
    machine stack path s = record { stack = stack; path = path; state = s }

    abbrev Ends : Machine f resolver → Type 0
    Ends m = (fuel : ℕ) × HasEnded f resolver (loop f resolver fuel m).result

    -- The resolver does not descend from a path of `depth` frames.
    abbrev pub BoundsDepth : ℕ → Type 0
    BoundsDepth depth =
        (s s' : State) (path : InvocationPath) (ordinal : ℕ) (name : PdfName) (op : PaintOp Num)
        (program : PaintSubProgram)
        → resolve_form s path ordinal name op ≡ (descend program, s')
        → length path < depth

    abbrev EndsTurn : List (Call f) × Turn f resolver → Type 0
    EndsTurn (calls, continues m) = Ends m
    EndsTurn (calls, finished s) = Unit
    EndsTurn (calls, failed e s) = Unit
    EndsTurn (calls, broken) = ⊥

    turn-Ends :
        (t : List (Call f) × Turn f resolver)
        → EndsTurn t
        → (fuel : ℕ) × HasEnded f resolver (turn f resolver (loop f resolver fuel) t).result
    turn-Ends (calls, continues m) (fuel, h) = (fuel, h)
    turn-Ends (calls, finished s) h = (0, tt)
    turn-Ends (calls, failed e s) h = (0, tt)
    turn-Ends (calls, broken) h = absurd h

    round-Ends :
        (stack : List (WalkFrame f)) (path : InvocationPath) (s : State)
        → EndsTurn (round f resolver stack path s)
        → Ends (machine stack path s)
    unfolding loop
    round-Ends stack path s h =
        let (fuel, e) = turn-Ends (round f resolver stack path s) h in (suc fuel, e)

    -- The path behind the return of a frame.
    abbrev path_after : WalkFrame f → InvocationPath → InvocationPath
    path_after frame path = if frame.pop_path_on_return then pop_frame path else path

    -- Where the walk ends whenever it is back in the frame, and from each callee, it ends.
    module _ (depth : ℕ) (bounds : BoundsDepth depth) (frame : WalkFrame f)
        (stack : List (WalkFrame f)) (path : InvocationPath)
        (back : (k : ℕ) (s : State)
          → Ends (machine (record frame { next_form_ordinal = k } ∷ stack) path s))
        (deep : (k : ℕ) (program : PaintSubProgram) (op : PaintOp Num) (x : InvocationFrame)
            (s : State)
          → length path < depth
          → Ends (
              machine
                (callee f program op.state ∷ record frame { next_form_ordinal = k } ∷ stack)
                (x ∷ path)
                s)) where
      decided-EndsTurn :
          (k ordinal : ℕ) (name : PdfName) (op : PaintOp Num) (d : Decision) (s s' : State)
          → resolve_form s path ordinal name op ≡ (d, s')
          → EndsTurn (
              decided f resolver
                (record frame { next_form_ordinal = k })
                stack
                path
                ordinal
                name
                op
                (d, s'))
      unfolding decided
      decided-EndsTurn k ordinal name op (descend program) s s' e =
          deep k program op _ s' (bounds s s' path ordinal name op program e)
      decided-EndsTurn k ordinal name op skip s s' e = back k s'
      decided-EndsTurn k ordinal name op (refuse x) s s' e = tt

      invoked-EndsTurn :
          (s : State) (op : PaintOp Num) (name : Option PdfName)
          → EndsTurn (invoked f resolver frame stack path s op name)
      unfolding invoked
      invoked-EndsTurn s op none = back frame.next_form_ordinal s
      invoked-EndsTurn s op (some name) =
          decided-EndsTurn (next_ordinal frame.next_form_ordinal) frame.next_form_ordinal name op _
            s _ refl

    popped-EndsTurn :
        (frame : WalkFrame f) (stack : List (WalkFrame f)) (path : InvocationPath) (s : State)
        → ((s' : State) → Ends (machine stack (path_after frame path) s'))
        → EndsTurn (popped f resolver frame stack path s)
    unfolding popped
    popped-EndsTurn frame stack path s k = elim (Bool-cases frame.pop_path_on_return) [
      | inl e ↦ rw e (let h = k (on_return s path) in rw e at h)
      | inr e ↦ rw e (let h = k s in rw e at h)
    ]

    module _ (depth : ℕ) (bounds : BoundsDepth depth) where
      frame-Ends :
          (d n : ℕ) (frame : WalkFrame f) (stack : List (WalkFrame f)) (path : InvocationPath)
          (s : State)
          → remaining frame.program.program frame.ops ≤ n
          → depth ≤ d + length path
          → ((s' : State) → Ends (machine stack (path_after frame path) s'))
          → Ends (machine (frame ∷ stack) path s)
      unfolding round advanced
      frame-Ends d zero frame stack path s left deep k =
          elim (next-Nexts frame.program.program frame.ops) [
            | over e ↦
                round-Ends (frame ∷ stack) path s (rw e (popped-EndsTurn frame stack path s k))
            | event op p e less ↦ absurd (omega arith)
            | error x p e ↦ round-Ends (frame ∷ stack) path s (rw e tt)
          ]
      frame-Ends zero (suc n) frame stack path s left deep k =
          elim (next-Nexts frame.program.program frame.ops) [
            | over e ↦
                round-Ends (frame ∷ stack) path s (rw e (popped-EndsTurn frame stack path s k))
            | event op p e less ↦ round-Ends (frame ∷ stack) path s (
                rw e (
                  invoked-EndsTurn depth bounds (record frame { ops = p }) stack path
                    (λ o s'.
                      frame-Ends zero n (record frame { ops = p; next_form_ordinal = o }) stack path
                        s' (omega arith) deep k)
                    (λ o program op' x s' lt. absurd (omega arith)) s op _))
            | error x p e ↦ round-Ends (frame ∷ stack) path s (rw e tt)
          ]
      frame-Ends (suc d) (suc n) frame stack path s left deep k =
          elim (next-Nexts frame.program.program frame.ops) [
            | over e ↦
                round-Ends (frame ∷ stack) path s (rw e (popped-EndsTurn frame stack path s k))
            | event op p e less ↦ round-Ends (frame ∷ stack) path s (
                rw e (
                  invoked-EndsTurn depth bounds (record frame { ops = p }) stack path
                    (λ o s'.
                      frame-Ends (suc d) n (record frame { ops = p; next_form_ordinal = o }) stack
                        path s' (omega arith) deep k)
                    (λ o program op' x s' lt.
                      frame-Ends d (length (PaintProgram.records (PaintSubProgram.program program)))
                        (callee f program op'.state)
                        (record frame { ops = p; next_form_ordinal = o } ∷ stack) (x ∷ path) s'
                        (unfold remaining in omega arith) (omega arith)
                        (λ s''.
                          frame-Ends (suc d) n (record frame { ops = p; next_form_ordinal = o })
                            stack path s'' (omega arith) deep k))
                    s op _))
            | error x p e ↦ round-Ends (frame ∷ stack) path s (rw e tt)
          ]

      ends :
          (program : PaintSubProgram) (s : State)
          → (fuel : ℕ) × HasEnded f resolver (walk f resolver fuel program s).result
      unfolding walk remaining
      ends program s =
          frame-Ends depth (length (PaintProgram.records (PaintSubProgram.program program)))
            (root f program) [] [] s (omega arith) (omega arith)
            (λ s'. round-Ends [] [] s' (unfold round in tt))

      -- Under a resolver that does not descend from a path of `depth` frames, every walk of every
      -- program ends, with a value or an error of the walker or the resolver. Its calls are well bracketed: each
      -- is told the path of the forms that are open, a descent opens a form, and each open form is
      -- returned from once, innermost first, before the walk ends or fails.
      pub walk-Ends :
          (program : PaintSubProgram) (s : State)
          → (fuel : ℕ) × HasEnded f resolver (walk f resolver fuel program s).result
            × Replays f [] (walk f resolver fuel program s).calls []
      walk-Ends program s =
          let (fuel, e) = ends program s in (fuel, e, walk-Replays f resolver fuel program s e)
