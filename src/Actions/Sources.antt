-- ===== src/Actions/Sources.antt =====
-- Which operand of an entry a color conversion rewrites.
use presslint.Common.{
  ◌≡◌, refl, ap, ◌∙◌, ◌⊎◌, inl, inr, Bool, true, false, Option, none, some, List, [], ◌∷◌, map,
  Bool-cases, if◌then◌else◌,
}
use presslint.Syntax.Model.{ByteRange}
use presslint.Types.{ColorObservation, InventoryEntry}
use presslint.Actions.Model.{
  Action, SkipReason, non_process_color, missing_color_source, ambiguous_color_source,
}
use presslint.Actions.Plan.{
  is_process_space, ColorTally, tally_source, no_tally, tally_loop, tally_result, operand_boundary,
  convert_color_boundary, map_ok,
}

abbrev pub SomeUnsourced : List (Option ByteRange) → Type 0
SomeUnsourced [] = ⊥
SomeUnsourced (none ∷ ss) = Unit
SomeUnsourced (some r ∷ ss) = SomeUnsourced ss

-- What the sources of an entry's process colors allow: one sourced color, and no other.
pub data Verdict : List (Option ByteRange) → SkipReason ⊎ ByteRange → Type 0 where
  no_process : Verdict [] (inl non_process_color)
  unsourced :
      {ss : List (Option ByteRange)} → SomeUnsourced ss → Verdict ss (inl missing_color_source)
  several :
      {a b : ByteRange} (rs : List ByteRange)
      → Verdict (some a ∷ some b ∷ map some rs) (inl ambiguous_color_source)
  single : {r : ByteRange} → Verdict (some r ∷ []) (inr r)

-- The sources alone, one after the other.
abbrev tally_sources : ColorTally → List (Option ByteRange) → ColorTally
tally_sources t [] = t
tally_sources t (s ∷ ss) = tally_sources (tally_source s t.source t) ss

module _ {Num : Type 0} where
  -- The sources of the process colors, in order.
  abbrev pub process_sources : List (ColorObservation Num) → List (Option ByteRange)
  process_sources [] = []
  process_sources (c ∷ cs) =
      if is_process_space c.space then c.source ∷ process_sources cs else process_sources cs

  tally_loop-process_sources :
      (t : ColorTally) (cs : List (ColorObservation Num))
      → tally_loop t cs ≡ tally_sources t (process_sources cs)
  unfolding tally_loop
  tally_loop-process_sources t [] = refl
  tally_loop-process_sources t (c ∷ cs) = elim (Bool-cases (is_process_space c.space)) [
    | inl e ↦ rw e (tally_loop-process_sources (tally_source c.source t.source t) cs)
    | inr e ↦ rw e (tally_loop-process_sources t cs)
  ]

abbrev tally : Bool → Bool → Option ByteRange → ColorTally
tally missing ambiguous source = record {
  has_process_color = true;
  missing_source = missing;
  ambiguous_source = ambiguous;
  source = source;
}

-- A color without a source decides, whatever else there is.
unsourced_decides :
    (ambiguous : Bool) (source : Option ByteRange) (ss : List (Option ByteRange))
    → tally_result (tally_sources (tally true ambiguous source) ss) ≡ inl missing_color_source
unfolding tally_result tally_source
unsourced_decides ambiguous source [] = refl
unsourced_decides ambiguous source (none ∷ ss) = unsourced_decides ambiguous source ss
unsourced_decides ambiguous none (some r ∷ ss) = unsourced_decides ambiguous (some r) ss
unsourced_decides ambiguous (some s) (some r ∷ ss) = unsourced_decides true (some s) ss

-- The sources of a first color and of others that all have one.
abbrev first_result : Bool → ByteRange → List ByteRange → SkipReason ⊎ ByteRange
first_result false a [] = inr a
first_result true a [] = inl ambiguous_color_source
first_result ambiguous a (b ∷ rs) = inl ambiguous_color_source

first_result-true :
    (a : ByteRange) (rs : List ByteRange) → first_result true a rs ≡ inl ambiguous_color_source
first_result-true a [] = refl
first_result-true a (b ∷ rs) = refl

abbrev Settled : Bool → ByteRange → List (Option ByteRange) → SkipReason ⊎ ByteRange → Type 0
Settled ambiguous a ss result =
    (SomeUnsourced ss × (result ≡ inl missing_color_source))
    ⊎ ((rs : List ByteRange) × (ss ≡ map some rs) × (result ≡ first_result ambiguous a rs))

settle :
    (ambiguous : Bool) (a : ByteRange) (ss : List (Option ByteRange))
    → Settled ambiguous a ss (tally_result (tally_sources (tally false ambiguous (some a)) ss))
unfolding tally_result tally_source
settle true a [] = inr ([], refl, refl)
settle false a [] = inr ([], refl, refl)
settle ambiguous a (none ∷ ss) = inl (tt, unsourced_decides ambiguous (some a) ss)
settle ambiguous a (some b ∷ ss) = elim (settle true a ss) [
  | inl (h, e) ↦ inl (h, e)
  | inr (rs, same, e) ↦ inr (b ∷ rs, ap (λ l. some b ∷ l) same, e ∙ first_result-true a rs)
]

first_verdict :
    (a : ByteRange) (rs : List ByteRange) → Verdict (some a ∷ map some rs) (first_result false a rs)
first_verdict a [] = single
first_verdict a (b ∷ rs) = several rs

tally-Verdict :
    (ss : List (Option ByteRange)) → Verdict ss (tally_result (tally_sources no_tally ss))
unfolding tally_result tally_source
tally-Verdict [] = no_process
tally-Verdict (none ∷ ss) = rw (unsourced_decides false none ss) (unsourced tt)
tally-Verdict (some a ∷ ss) = elim (settle false a ss) [
  | inl (h, e) ↦ rw e (unsourced h)
  | inr (rs, same, e) ↦ rw (e, same) (first_verdict a rs)
]

module _ {Num : Type 0} where
  -- An entry can be converted exactly where one of its colors is a process color and that one has a
  -- source, which is then the record to rewrite, at the page and in the scope of the entry;
  -- otherwise the reason is that it has no process color, that one of them has no source, or that
  -- several have one, in this order.
  pub convert_color_boundary-Verdict :
      (entry : InventoryEntry Num) (action : Action Num)
      → (result : SkipReason ⊎ ByteRange) × Verdict (process_sources entry.colors) result
        × (convert_color_boundary entry action ≡ map_ok (operand_boundary entry action) result)
  unfolding convert_color_boundary
  convert_color_boundary-Verdict entry action = (
    tally_result (tally_loop no_tally entry.colors),
    rw (tally_loop-process_sources no_tally entry.colors)
        (tally-Verdict (process_sources entry.colors)),
    refl,
  )
