-- ===== src/Paint/Program.antt =====
-- `PaintProgram` and the iterator `PaintOps` of crates/presslint-paint/src/paint_program.rs.
pub mod Replay
use presslint.Common.{
  ℕ, zero, suc, ◌+◌, Bool, true, false, Option, none, some, List, [], ◌∷◌, Bytes, get_elem?,
  if◌then◌else◌, Outcome, ok, err, panic, stuck,
}
use presslint.Syntax.Model.{OperatorRecord}
use presslint.Paint.Floats.{Float}
use presslint.Paint.Model.{GraphicsStateSnapshot, PaintOp, Envs, page_default}
use presslint.Paint.Operands.{R}
use presslint.Paint.Walker.{Walker, new_walker, step}

pub record PaintProgram : Type 0 where
  pub source : Bytes
  pub records : List OperatorRecord
  pub envs : Envs

module _ (f : Float) where
  open f use {Num}

  -- The program of an iterator does not change, and is an argument of `next`.
  pub record PaintOps : Type 0 where
    pub walker : Walker f
    pub index : ℕ
    pub done : Bool

  abbrev pub ops_with_initial_state : GraphicsStateSnapshot Num → PaintOps
  ops_with_initial_state initial_state = record {
    walker = new_walker f initial_state;
    index = 0;
    done = false;
  }

  abbrev pub ops : PaintOps
  ops = ops_with_initial_state (page_default f)

  -- The item that a `step` gives, and the iterator behind it.
  unfoldable pub stepped : PaintOps → R (PaintOp Num × Walker f) → R (PaintOp Num) × PaintOps
  stepped p (ok (op, w)) = (ok op, record { walker = w; index = p.index + 1; done = false })
  stepped p (err e) = (err e, record { walker = p.walker; index = p.index + 1; done = true })
  stepped p panic = (panic, record p { done = true })
  stepped p stuck = (stuck, record p { done = true })

  abbrev pub item : R (PaintOp Num) × PaintOps → Option (R (PaintOp Num)) × PaintOps
  item (x, p) = (some x, p)

  -- `Iterator::next`
  unfoldable pub next : PaintProgram → PaintOps → Option (R (PaintOp Num)) × PaintOps
  unfolding stepped
  next program p = if p.done then (none, p) else elim (get_elem? program.records p.index) [
    | none ↦ (none, p)
    | some r ↦ item (stepped p (step f program.envs p.walker program.source p.index r))
  ]
