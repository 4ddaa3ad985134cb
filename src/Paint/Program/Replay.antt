-- ===== src/Paint/Program/Replay.antt =====
-- The iterator hands out the walk of its program, up to the first error, and then nothing.
use presslint.Common.{
  ℕ, zero, suc, ◌+◌, ◌≡◌, refl, ap, ◌∙◌, inl, inr, true, false, Option, none, some, List, [], ◌∷◌,
  Bytes, get_elem?, ok, err, panic, stuck, ◌>>=◌, arith, Ensures-returns,
}
use presslint.Syntax.Model.{OperatorRecord}
use presslint.Paint.Floats.{Float}
use presslint.Paint.Model.{GraphicsStateSnapshot, GraphicsWalkError, PaintOp, Envs}
use presslint.Paint.Operands.{R}
use presslint.Paint.Walker.{Walker, new_walker, step, walk_from}
use presslint.Paint.Steps.{step-Ensures}
use presslint.Paint.Program.{PaintProgram, PaintOps, ops_with_initial_state, stepped, next}

module _ (f : Float) where
  open f use {Num}

  -- `n` calls of `next`.
  pub drain : PaintProgram → ℕ → PaintOps f → List (Option (R (PaintOp Num)))
  drain program zero p = []
  drain program (suc n) p = (next f program p).0 ∷ drain program n (next f program p).1

  -- The events of the records, and the first error behind them.
  pub events : Envs → Bytes → Walker f → ℕ → List OperatorRecord → List (R (PaintOp Num))
  events envs source w i [] = []
  events envs source w i (r ∷ rs) = elim (step f envs w source i r) [
    | ok (op, w') ↦ ok op ∷ events envs source w' (i + 1) rs
    | err e ↦ err e ∷ []
    | panic ↦ panic ∷ []
    | stuck ↦ stuck ∷ []
  ]

  -- `n` items: those of a list, and then `none`.
  pub padded : ℕ → List (R (PaintOp Num)) → List (Option (R (PaintOp Num)))
  padded zero xs = []
  padded (suc n) [] = none ∷ padded n []
  padded (suc n) (x ∷ xs) = some x ∷ padded n xs

  -- `collect` into a `Result`: the events, or the first error.
  pub gather : List (R (PaintOp Num)) → R (List (PaintOp Num))
  gather [] = ok []
  gather (x ∷ xs) = do op ← x; rest ← gather xs; ok (op ∷ rest)

  module _ (program : PaintProgram) where
    drain-done :
        (n : ℕ) (w : Walker f) (i : ℕ)
        → drain program n (record { walker = w; index = i; done = true }) ≡ padded n []
    unfolding drain next padded
    drain-done zero w i = refl
    drain-done (suc n) w i = ap (λ xs. none ∷ xs) (drain-done n w i)

    -- Behind the last record.
    drain-end :
        (n : ℕ) (w : Walker f) (i : ℕ)
        → get_elem? program.records i ≡ none
        → drain program n (record { walker = w; index = i; done = false }) ≡ padded n []
    unfolding drain next padded
    drain-end zero w i e = refl
    drain-end (suc n) w i e = rw e (ap (λ xs. none ∷ xs) (drain-end n w i e))

    -- The records from `i` on.
    abbrev Left : ℕ → List OperatorRecord → Type 0
    Left i rs = (k : ℕ) → get_elem? program.records (i + k) ≡ get_elem? rs k

    drain-events :
        (n i : ℕ) (w : Walker f) (rs : List OperatorRecord)
        → Left i rs
        → drain program n (record { walker = w; index = i; done = false })
          ≡ padded n (events program.envs program.source w i rs)
    unfolding drain next events padded
    drain-events zero i w rs h = refl
    drain-events (suc n) i w [] h =
        let over : get_elem? program.records i ≡ none =
          ap (get_elem? program.records) (let same : i ≡ i + 0 = omega arith in same) ∙ h 0 in
        rw over (ap (λ xs. none ∷ xs) (drain-end n w i over))
    drain-events (suc n) i w (r ∷ rs) h =
        let here : get_elem? program.records i ≡ some r =
          ap (get_elem? program.records) (let same : i ≡ i + 0 = omega arith in same) ∙ h 0 in
        let left : Left (i + 1) rs = λ k.
          ap (get_elem? program.records) (let same : i + 1 + k ≡ i + suc k = omega arith in same)
          ∙ h (suc k) in
        elim (Ensures-returns (step-Ensures f program.envs w program.source i r)) [
          | inl ((op, w'), same, _) ↦
              rw (here, same, stepped, events)
                (ap (λ xs. some (ok op) ∷ xs) (drain-events n (i + 1) w' rs left))
          | inr (e, same, _) ↦
              rw (here, same, stepped, events)
                (ap (λ xs. some (err e) ∷ xs) (drain-done n w (i + 1)))
        ]

  gather-events :
      (envs : Envs) (source : Bytes) (w : Walker f) (i : ℕ) (rs : List OperatorRecord)
      → gather (events envs source w i rs) ≡ walk_from f envs w source i rs
  unfolding gather events walk_from
  gather-events envs source w i [] = refl
  gather-events envs source w i (r ∷ rs) =
      elim (Ensures-returns (step-Ensures f envs w source i r)) [
        | inl ((op, w'), same, _) ↦
            rw (same, events)
              (ap (λ (m : R (List (PaintOp Num))). m >>= λ rest. ok (op ∷ rest))
                (gather-events envs source w' (i + 1) rs))
        | inr (e, same, _) ↦ rw (same, events) refl
      ]

  -- The items of a run of the records from a walker: an event for each record that the walker steps
  -- over, with the walker that the step before left, and no item behind an error.
  pub data IsRun (envs : Envs) (source : Bytes)
      : Walker f → ℕ → List OperatorRecord → List (R (PaintOp Num)) → Type 0 where
    ended : {w : Walker f} {i : ℕ} → IsRun envs source w i [] []
    stopped :
        {w : Walker f} {i : ℕ} {r : OperatorRecord} {rs : List OperatorRecord}
        {e : GraphicsWalkError}
        → step f envs w source i r ≡ err e
        → IsRun envs source w i (r ∷ rs) (err e ∷ [])
    event :
        {w : Walker f} {i : ℕ} {r : OperatorRecord} {rs : List OperatorRecord} {op : PaintOp Num}
        (w' : Walker f) {items : List (R (PaintOp Num))}
        → step f envs w source i r ≡ ok (op, w')
        → IsRun envs source w' (i + 1) rs items
        → IsRun envs source w i (r ∷ rs) (ok op ∷ items)

  events-IsRun :
      (envs : Envs) (source : Bytes) (w : Walker f) (i : ℕ) (rs : List OperatorRecord)
      → IsRun envs source w i rs (events envs source w i rs)
  unfolding events
  events-IsRun envs source w i [] = ended
  events-IsRun envs source w i (r ∷ rs) =
      elim (Ensures-returns (step-Ensures f envs w source i r)) [
        | inl ((op, w'), same, _) ↦
            rw (same, events) (event w' same (events-IsRun envs source w' (i + 1) rs))
        | inr (e, same, _) ↦ rw (same, events) (stopped same)
      ]

  -- However often `next` is called on a fresh iterator, it hands out one item for each record, up to
  -- the first that fails, whose error is the last item, and then `None` for ever; each item is what
  -- the step at its record gives to the walker that the steps before left; and the items,
  -- collected, are the walk of the records from the initial state.
  pub drain-ops_with_initial_state :
      (program : PaintProgram) (initial_state : GraphicsStateSnapshot Num) (n : ℕ)
      → (items : List (R (PaintOp Num))) × IsRun program.envs program.source
          (new_walker f initial_state)
          0
          program.records
          items
        × (drain program n (ops_with_initial_state f initial_state) ≡ padded n items)
        × (gather items
            ≡ walk_from f program.envs
                (new_walker f initial_state)
                program.source
                0
                program.records)
  drain-ops_with_initial_state program initial_state n =
      let w = new_walker f initial_state in
      (
        events program.envs program.source w 0 program.records,
        events-IsRun program.envs program.source w 0 program.records,
        drain-events program n 0 w program.records
            (λ k. ap (get_elem? program.records) (let same : 0 + k ≡ k = omega arith in same)),
        gather-events program.envs program.source w 0 program.records,
      )
