-- ===== src/Paint/CallMachine/Brackets.antt =====
-- Every form that the machine enters it leaves once, innermost first, also where the walk fails.
use presslint.Common.{
  ℕ, zero, suc, ◌+◌, ◌≡◌, refl, inl, inr, true, false, Option, none, some, List, [], ◌∷◌, ◌++◌,
  length, if◌then◌else◌, Bool-cases, arith, Outcome, ok, err, panic, stuck,
}
use presslint.Types.{PdfName, InvocationFrame}
use presslint.Paint.Floats.{Float}
use presslint.Paint.Model.{PaintOp, GraphicsWalkError}
use presslint.Paint.Operands.{R}
use presslint.Paint.Program.{PaintOps, next}
use presslint.Paint.CallMachine.{
  PaintSubProgram, InvocationPath, Decision, descend, skip, refuse, next_ordinal, FormResolver,
  Call, visited, asked, returned, WalkFrame, root, Machine, unwind_open_frames, Turn, continues,
  finished, failed, broken, fail, decided, invoked, popped, advanced, round, Walked, turn, loop,
  walk,
}

module _ (f : Float) where
  open f use {Num}

  -- The calls, made on an open path: each is told the path, a descent opens a frame of the ordinal
  -- and name that were asked for, and a return closes the last one.
  abbrev pub Replays : InvocationPath → List (Call f) → InvocationPath → Type 0
  Replays p [] q = p ≡ q
  Replays p (visited p' op ∷ cs) q = (p' ≡ p) × Replays p cs q
  Replays p (asked p' ordinal name op true ∷ cs) q =
      (p' ≡ p) × Replays (record { ordinal = ordinal; name = name } ∷ p) cs q
  Replays p (asked p' ordinal name op false ∷ cs) q = (p' ≡ p) × Replays p cs q
  Replays p (returned p' ∷ cs) q =
      (p' ≡ p)
      × (last : InvocationFrame) × (below : InvocationPath) × (p ≡ last ∷ below)
      × Replays below cs q

  Replays-append :
      (cs ds : List (Call f)) (p q r : InvocationPath)
      → Replays p cs q
      → Replays q ds r
      → Replays p (cs ++ ds) r
  Replays-append [] ds p q r h k = rw h k
  Replays-append (visited p' op ∷ cs) ds p q r (e, h) k = (e, Replays-append cs ds p q r h k)
  Replays-append (asked p' ordinal name op true ∷ cs) ds p q r (e, h) k =
      (e, Replays-append cs ds (record { ordinal = ordinal; name = name } ∷ p) q r h k)
  Replays-append (asked p' ordinal name op false ∷ cs) ds p q r (e, h) k =
      (e, Replays-append cs ds p q r h k)
  Replays-append (returned p' ∷ cs) ds p q r (e, last, below, e', h) k =
      (e, last, below, e', Replays-append cs ds below q r h k)

  pub open_forms : List (WalkFrame f) → ℕ
  open_forms [] = 0
  open_forms (frame ∷ stack) =
      if frame.pop_path_on_return then open_forms stack + 1 else open_forms stack

  -- The path has a frame for each form on the stack.
  abbrev pub IsAligned : List (WalkFrame f) → InvocationPath → Type 0
  IsAligned stack path = length path ≡ open_forms stack

  module _ (resolver : FormResolver f) where
    open resolver use {State, resolve_form, on_return}

    unwind-Replays :
        (stack : List (WalkFrame f)) (path : InvocationPath) (s : State)
        → IsAligned stack path
        → Replays path (unwind_open_frames f resolver stack path s).0 []
    unfolding unwind_open_frames open_forms
    unwind-Replays [] [] s h = refl
    unwind-Replays [] (x ∷ path) s h = absurd (omega arith)
    unwind-Replays (frame ∷ stack) [] s h = elim (Bool-cases frame.pop_path_on_return) [
      | inr e ↦ rw e (unwind-Replays stack [] s (rw (open_forms, e) at h))
      | inl e ↦
          absurd (let short : 0 ≡ open_forms stack + 1 = rw (open_forms, e) at h in omega arith)
    ]
    unwind-Replays (frame ∷ stack) (x ∷ path) s h = elim (Bool-cases frame.pop_path_on_return) [
      | inr e ↦ rw e (unwind-Replays stack (x ∷ path) s (rw (open_forms, e) at h))
      | inl e ↦
          let forms : suc (length path) ≡ open_forms stack + 1 = rw (open_forms, e) at h in
          rw e
            (refl, x, path, refl, unwind-Replays stack path (on_return s (x ∷ path)) (omega arith))
    ]

    -- The calls of a round lead from the path to that of the next round, or to the end.
    abbrev IsTurn : InvocationPath → List (Call f) × Turn f resolver → Type 0
    IsTurn path (calls, continues m) = Replays path calls m.path × IsAligned m.stack m.path
    IsTurn path (calls, finished s) = Replays path calls []
    IsTurn path (calls, failed error s) = Replays path calls []
    IsTurn path (calls, broken) = Unit

    fail-IsTurn :
        (path path' : InvocationPath) (calls : List (Call f)) (e : GraphicsWalkError)
        (stack : List (WalkFrame f)) (s : State)
        → Replays path calls path'
        → IsAligned stack path'
        → IsTurn path (fail f resolver calls e stack path' s)
    fail-IsTurn path path' calls e stack s h a =
        Replays-append calls _ path path' [] h (unwind-Replays stack path' s a)

    decided-IsTurn :
        (frame : WalkFrame f) (stack : List (WalkFrame f)) (path : InvocationPath) (ordinal : ℕ)
        (name : PdfName) (op : PaintOp Num) (d : Decision) (s : State)
        → IsAligned (frame ∷ stack) path
        → IsTurn path (decided f resolver frame stack path ordinal name op (d, s))
    unfolding decided
    decided-IsTurn frame stack path ordinal name op (descend program) s a =
        ((refl, (refl, refl)), unfold open_forms in omega arith)
    decided-IsTurn frame stack path ordinal name op skip s a = ((refl, (refl, refl)), a)
    decided-IsTurn frame stack path ordinal name op (refuse e) s a =
        fail-IsTurn path path (visited path op ∷ asked path ordinal name op false ∷ []) e
          (frame ∷ stack) s (refl, (refl, refl)) a

    invoked-IsTurn :
        (frame : WalkFrame f) (stack : List (WalkFrame f)) (path : InvocationPath) (s : State)
        (op : PaintOp Num) (name : Option PdfName)
        → IsAligned (frame ∷ stack) path
        → IsTurn path (invoked f resolver frame stack path s op name)
    unfolding invoked
    invoked-IsTurn frame stack path s op none a = ((refl, refl), a)
    invoked-IsTurn frame stack path s op (some name) a =
        let (d, s') = resolve_form s path frame.next_form_ordinal name op in
        decided-IsTurn (record frame { next_form_ordinal = next_ordinal frame.next_form_ordinal })
          stack path frame.next_form_ordinal name op _ _ (unfold open_forms in a)

    popped-IsTurn :
        (frame : WalkFrame f) (stack : List (WalkFrame f)) (path : InvocationPath) (s : State)
        → IsAligned (frame ∷ stack) path
        → IsTurn path (popped f resolver frame stack path s)
    unfolding popped open_forms
    popped-IsTurn frame stack [] s a = elim (Bool-cases frame.pop_path_on_return) [
      | inl e ↦
          absurd (let short : 0 ≡ open_forms stack + 1 = rw (open_forms, e) at a in omega arith)
      | inr e ↦ rw e (refl, rw (open_forms, e) at a)
    ]
    popped-IsTurn frame stack (x ∷ path) s a = elim (Bool-cases frame.pop_path_on_return) [
      | inl e ↦
          let forms : suc (length path) ≡ open_forms stack + 1 = rw (open_forms, e) at a in
          rw e ((refl, x, path, refl, refl), omega arith)
      | inr e ↦ rw e (refl, rw (open_forms, e) at a)
    ]

    advanced-IsTurn :
        (frame : WalkFrame f) (stack : List (WalkFrame f)) (path : InvocationPath) (s : State)
        (item : Option (R (PaintOp Num))) (ops : PaintOps f)
        → IsAligned (frame ∷ stack) path
        → IsTurn path (advanced f resolver frame stack path s (item, ops))
    unfolding advanced open_forms
    advanced-IsTurn frame stack path s none ops a =
        popped-IsTurn (record frame { ops = ops }) stack path s a
    advanced-IsTurn frame stack path s (some (ok op)) ops a =
        invoked-IsTurn (record frame { ops = ops }) stack path s op _ a
    advanced-IsTurn frame stack path s (some (err e)) ops a =
        fail-IsTurn path path [] e (record frame { ops = ops } ∷ stack) s refl a
    advanced-IsTurn frame stack path s (some panic) ops a = tt
    advanced-IsTurn frame stack path s (some stuck) ops a = tt

    round-IsTurn :
        (stack : List (WalkFrame f)) (path : InvocationPath) (s : State)
        → IsAligned stack path
        → IsTurn path (round f resolver stack path s)
    unfolding round
    round-IsTurn [] [] s a = refl
    round-IsTurn [] (x ∷ path) s a = absurd (unfold open_forms in omega arith)
    round-IsTurn (frame ∷ stack) path s a =
        advanced-IsTurn frame stack path s (next f frame.program.program frame.ops).0
          (next f frame.program.program frame.ops).1 a

    -- The walk came to an end of its own.
    abbrev pub HasEnded : Outcome GraphicsWalkError State → Type 0
    HasEnded (ok s) = Unit
    HasEnded (err e) = Unit
    HasEnded panic = ⊥
    HasEnded stuck = ⊥

    turn-Replays :
        (loop' : Machine f resolver → Walked f resolver) (path : InvocationPath)
        (t : List (Call f) × Turn f resolver)
        → ((m : Machine f resolver)
            → IsAligned m.stack m.path
            → HasEnded (loop' m).result
            → Replays m.path (loop' m).calls [])
        → IsTurn path t
        → HasEnded (turn f resolver loop' t).result
        → Replays path (turn f resolver loop' t).calls []
    turn-Replays loop' path (calls, continues m) ih (h, a) e =
        Replays-append calls _ path m.path [] h (ih m a e)
    turn-Replays loop' path (calls, finished s) ih h e = h
    turn-Replays loop' path (calls, failed error s) ih h e = h
    turn-Replays loop' path (calls, broken) ih h e = absurd e

    loop-Replays :
        (fuel : ℕ) (m : Machine f resolver)
        → IsAligned m.stack m.path
        → HasEnded (loop f resolver fuel m).result
        → Replays m.path (loop f resolver fuel m).calls []
    unfolding loop
    loop-Replays zero m a h = absurd h
    loop-Replays (suc fuel) m a h =
        turn-Replays (loop f resolver fuel) m.path (round f resolver m.stack m.path m.state)
          (λ m'. loop-Replays fuel m') (round-IsTurn m.stack m.path m.state a) h

    pub walk-Replays :
        (fuel : ℕ) (program : PaintSubProgram) (s : State)
        → HasEnded (walk f resolver fuel program s).result
        → Replays [] (walk f resolver fuel program s).calls []
    unfolding walk
    walk-Replays fuel program s h =
        loop-Replays fuel (record { stack = root f program ∷ []; path = []; state = s })
          (unfold open_forms in refl) h
