-- ===== src/Paint/Nesting.antt =====
-- Whole walks: they end, and a balanced `q` .. `Q` leaves the graphics state as it found it.
use presslint.Common.{
  ℕ, zero, suc, ◌+◌, ◌≡◌, refl, ap, ◌∙◌, inl, inr, List, [], ◌∷◌, ◌++◌, map, Bytes, length, ok, err,
  Ensures, returns, fails, Ensures->>=, Ensures-mono, Ensures-returns, Ensures-ok, arith,
}
use presslint.Syntax.Model.{OperatorRecord}
use presslint.Paint.Floats.{Float}
use presslint.Paint.Model.{GraphicsStateSnapshot, PaintOpKind, PaintOp, Envs, GraphicsWalkError}
use presslint.Paint.Walker.{Walker, step, walk_from}
use presslint.Paint.Blame.{Blames}
use presslint.Paint.Steps.{StackEffect, IsEmpty, step-Ensures}

module _ (f : Float) where
  open f use {Num}

  abbrev pub kinds : List (PaintOp Num) → List (PaintOpKind Num)
  kinds ops = map (λ op. PaintOp.kind op) ops

  -- From `d` open saves the events close each of them, and none that they did not open.
  abbrev pub Closes : ℕ → List (PaintOpKind Num) → Type 0
  Closes d [] = d ≡ 0
  Closes d (PaintOpKind.save ∷ ks) = Closes (suc d) ks
  Closes zero (PaintOpKind.restore ∷ ks) = ⊥
  Closes (suc d) (PaintOpKind.restore ∷ ks) = Closes d ks
  Closes d (PaintOpKind.concat_matrix m ∷ ks) = Closes d ks
  Closes d (PaintOpKind.set_stroking_color c ∷ ks) = Closes d ks
  Closes d (PaintOpKind.set_nonstroking_color c ∷ ks) = Closes d ks
  Closes d (PaintOpKind.path_paint p ∷ ks) = Closes d ks
  Closes d (PaintOpKind.set_text_rendering_mode m ∷ ks) = Closes d ks
  Closes d (PaintOpKind.set_font n s ∷ ks) = Closes d ks
  Closes d (PaintOpKind.text_show o m ∷ ks) = Closes d ks
  Closes d (PaintOpKind.x_object_invoke n ∷ ks) = Closes d ks
  Closes d (PaintOpKind.set_ext_g_state n ∷ ks) = Closes d ks
  Closes d (PaintOpKind.no_op ∷ ks) = Closes d ks

  module _ (envs : Envs) (source : Bytes) where
    -- A walk over the records, numbered from `i` on, which ends with the second walker.
    pub data Walks
        : ℕ → Walker f → List OperatorRecord → List (PaintOp Num) → Walker f → Type 0 where
      stop : {i : ℕ} {w : Walker f} → Walks i w [] [] w
      go :
          {i : ℕ} {w w' w'' : Walker f} {r : OperatorRecord} {rs : List OperatorRecord}
          {op : PaintOp Num} {ops : List (PaintOp Num)}
          → step f envs w source i r ≡ ok (op, w')
          → Walks (i + 1) w' rs ops w''
          → Walks i w (r ∷ rs) (op ∷ ops) w''

    -- The walk stops at the first record that fails, with an error about that record.
    pub data FailsAt : ℕ → Walker f → List OperatorRecord → GraphicsWalkError → Type 0 where
      here :
          {i : ℕ} {w : Walker f} {r : OperatorRecord} {rs : List OperatorRecord}
          {e : GraphicsWalkError}
          → step f envs w source i r ≡ err e
          → Blames (IsEmpty f w) r e
          → FailsAt i w (r ∷ rs) e
      later :
          {i : ℕ} {w w' : Walker f} {r : OperatorRecord} {rs : List OperatorRecord}
          {op : PaintOp Num} {e : GraphicsWalkError}
          → step f envs w source i r ≡ ok (op, w')
          → FailsAt (i + 1) w' rs e
          → FailsAt i w (r ∷ rs) e

    pub walk_from-Ensures :
        (w : Walker f) (i : ℕ) (rs : List OperatorRecord)
        → Ensures
            (λ ops. (w' : Walker f) × Walks i w rs ops w')
            (FailsAt i w rs)
            (walk_from f envs w source i rs)
    unfolding walk_from
    walk_from-Ensures w i [] = returns (w, stop)
    walk_from-Ensures w i (r ∷ rs) = elim (Ensures-returns (step-Ensures f envs w source i r)) [
      | inl ((op, w'), same, _) ↦ rw same (
          Ensures->>=
            (Ensures-mono (λ _ h. h) (λ e h. later same h) (walk_from-Ensures w' (i + 1) rs))
            (λ ops (w'', walk). returns (w'', go same walk)))
      | inr (e, same, blame) ↦ rw same (fails (here same blame))
    ]

  -- The open saves after an event, and the events that are left.
  advance :
      (k : PaintOpKind Num) (ks : List (PaintOpKind Num)) (d : ℕ) (w w' : Walker f)
      (top rest : List (GraphicsStateSnapshot Num))
      → StackEffect f k w w'
      → w.stack ≡ top ++ rest
      → length top ≡ d
      → Closes d (k ∷ ks)
      → (d' : ℕ) × (top' : List (GraphicsStateSnapshot Num)) × (w'.stack ≡ top' ++ rest)
        × (length top' ≡ d')
        × Closes d' ks
  advance PaintOpKind.save ks d w w' top rest (e, _) s l c =
      (suc d, w.state ∷ top, e ∙ ap (λ xs. w.state ∷ xs) s, ap suc l, c)
  advance PaintOpKind.restore ks zero w w' top rest e s l c = absurd c
  advance PaintOpKind.restore ks (suc d) w w' [] rest e s l c = absurd (omega arith)
  advance PaintOpKind.restore ks (suc d) w w' (x ∷ top) rest e s l c = (d, top, cc, omega arith, c)
  advance (PaintOpKind.concat_matrix m) ks d w w' top rest e s l c = (d, top, e ∙ s, l, c)
  advance (PaintOpKind.set_stroking_color m) ks d w w' top rest e s l c = (d, top, e ∙ s, l, c)
  advance (PaintOpKind.set_nonstroking_color m) ks d w w' top rest e s l c = (d, top, e ∙ s, l, c)
  advance (PaintOpKind.path_paint p) ks d w w' top rest (e, _) s l c = (d, top, e ∙ s, l, c)
  advance (PaintOpKind.set_text_rendering_mode m) ks d w w' top rest e s l c = (d, top, e ∙ s, l, c)
  advance (PaintOpKind.set_font n m) ks d w w' top rest e s l c = (d, top, e ∙ s, l, c)
  advance (PaintOpKind.text_show o m) ks d w w' top rest (e, _, _) s l c = (d, top, e ∙ s, l, c)
  advance (PaintOpKind.x_object_invoke n) ks d w w' top rest (e, _) s l c = (d, top, e ∙ s, l, c)
  advance (PaintOpKind.set_ext_g_state n) ks d w w' top rest e s l c = (d, top, e ∙ s, l, c)
  advance PaintOpKind.no_op ks d w w' top rest (e, _) s l c = (d, top, e ∙ s, l, c)

  module _ (envs : Envs) (source : Bytes) where
    -- The `Q` behind events that close `d` open saves restores the state below those.
    restores :
        (ks : List (PaintOpKind Num)) {i : ℕ} {w w' : Walker f} {rs : List OperatorRecord}
        {ops : List (PaintOp Num)} (d : ℕ) (top : List (GraphicsStateSnapshot Num))
        (s : GraphicsStateSnapshot Num) (rest : List (GraphicsStateSnapshot Num))
        → Walks envs source i w rs ops w'
        → kinds ops ≡ ks ++ PaintOpKind.restore ∷ []
        → Closes d ks
        → w.stack ≡ top ++ s ∷ rest
        → length top ≡ d
        → (w'.state ≡ s) × (w'.stack ≡ rest)
    restores [] d top s rest stop k c e l = cc
    restores (x ∷ ks) d top s rest stop k c e l = cc
    restores [] d (t ∷ top) s rest (go _ walk) k c e l = absurd (omega arith)
    restores [] {i} {w} d [] s rest (go _ (go step' walk)) k c e l = cc
    restores [] {i} {w} d [] s rest (go {w'} {r} {op} done stop) k c e l =
        let (_, _, _, _, _, effect) = Ensures-ok (step-Ensures f envs w source i r) done in
        let kind : op.kind ≡ PaintOpKind.restore = cc in
        let popped : w.stack ≡ w'.state ∷ w'.stack = rw kind at effect in (cc, cc)
    restores (x ∷ ks) {i} {w} d top s rest (go {w'} {r} {op} {ops} done walk) k c e l =
        let (_, _, _, _, _, effect) = Ensures-ok (step-Ensures f envs w source i r) done in
        let kind : op.kind ≡ x = cc in
        let left : kinds ops ≡ ks ++ PaintOpKind.restore ∷ [] = cc in
        let (d', top', e', l', c') = advance x ks d w w' top (s ∷ rest) (rw kind at effect) e l c in
        restores ks d' top' s rest walk left c' e' l'

  -- For a walk whose events are a save, events that close their own saves and no others, and a
  -- restore: it ends with the graphics state and the stack with which it began, whatever the
  -- operators between.
  pub Closes-Walks :
      (envs : Envs) (source : Bytes) {i : ℕ} {w w' : Walker f} {rs : List OperatorRecord}
      {ops : List (PaintOp Num)} (ks : List (PaintOpKind Num))
      → Walks envs source i w rs ops w'
      → kinds ops ≡ PaintOpKind.save ∷ (ks ++ PaintOpKind.restore ∷ [])
      → Closes 0 ks
      → w' ≡ w
  Closes-Walks envs source ks stop k c = cc
  Closes-Walks envs source {i} {w} {w'} ks (go {w' = v} {r} {op} {ops} done walk) k c =
      let (_, _, _, _, _, effect) = Ensures-ok (step-Ensures f envs w source i r) done in
      let kind : op.kind ≡ PaintOpKind.save = cc in
      let left : kinds ops ≡ ks ++ PaintOpKind.restore ∷ [] = cc in
      let (pushed, _) = rw kind at effect in
      let (same_state, same_stack) =
        restores envs source ks 0 [] w.state w.stack walk left c pushed refl in
      λ j. record { state = same_state j; stack = same_stack j }
