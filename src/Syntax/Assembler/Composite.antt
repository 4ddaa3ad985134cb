-- ===== src/Syntax/Assembler/Composite.antt =====
-- A composite operand is a group of tokens whose delimiters balance, and its loop has enough fuel.
use mathlib.Core.List.{append_assoc}
use presslint.Common.{
  ℕ, zero, suc, ◌+◌, ◌≤◌, ◌<◌, ◌≡◌, ◌↔◌, refl, sym, ap, ◌∙◌, inl, inr, true, some, List, [], ◌∷◌,
  ◌++◌, length, get_elem?, slice, slice-append, get_elem?-cases, get_elem?-lt, Bool-cases, arith,
  Ensures, returns, fails, Ensures-mono, Ensures->>=,
}
use presslint.Syntax.Model.{Token, TokenKind, Delimiter, TokenRef}
use presslint.Syntax.Assembler.{
  delimiter_eq, Inner, inner_arm, Appended, Loop, composite_arm, append_with, composite_loop,
  append_composite_operand,
}
use presslint.Syntax.Assembler.Grammar.{TokenAt, closer, is_item, Group, Inside}
use presslint.Syntax.Assembler.Refs.{
  ref, token_refs, slice-token_refs, is_closing, is_keyword, IsFault, checked_token_ref-Ensures,
}

-- From `index` on, `refs` has grown by the references of the tokens that were passed.
abbrev pub Appends : List Token → ℕ → List TokenRef → Appended → Type 0
Appends ts index refs a =
    (index < a.index)
    × (a.index ≤ length ts)
    × (a.refs ≡ refs ++ slice (token_refs ts) index a.index)

-- One token more in front.
Appends-step :
    (ts : List Token) (i : ℕ) (refs : List TokenRef) (t : Token)
    → get_elem? ts i ≡ some t
    → (a : Appended) → Appends ts (i + 1) (refs ++ ref i t ∷ []) a
    → Appends ts i refs a
Appends-step ts i refs t here a (lt, le, e) = (
  omega arith,
  le,
  e
      ∙ append_assoc refs (ref i t ∷ []) (slice (token_refs ts) (i + 1) a.index)
      ∙ ap (λ xs. refs ++ xs)
          (ap (λ xs. xs ++ slice (token_refs ts) (i + 1) a.index) (sym (slice-token_refs ts i here))
            ∙ slice-append (token_refs ts) i (i + 1) a.index (omega arith) (omega arith)),
)

-- Two runs, one behind the other.
Appends-trans :
    (ts : List Token) (i : ℕ) (refs : List TokenRef) (a b : Appended)
    → Appends ts i refs a
    → Appends ts a.index a.refs b
    → Appends ts i refs b
Appends-trans ts i refs a b (lt, le, e) (lt', le', e') = (
  omega arith,
  le',
  e'
      ∙ ap (λ xs. xs ++ slice (token_refs ts) a.index b.index) e
      ∙ append_assoc refs _ _
      ∙ ap (λ xs. refs ++ xs)
          (slice-append (token_refs ts) i a.index b.index (omega arith) (omega arith)),
)

inner_arm_cases :
    (k : TokenKind)
    → ((d : Delimiter) → inner_arm k ≡ Inner.nested d → closer k ≡ some d)
      × ((d : Delimiter)
          → inner_arm k ≡ Inner.closing d
          → (k ≡ TokenKind.delimiter d) × (is_closing d ≡ true))
      × (inner_arm k ≡ Inner.misplaced_operator → k ≡ TokenKind.operator)
      × (inner_arm k ≡ Inner.misplaced_keyword → is_keyword k ≡ true)
      × (inner_arm k ≡ Inner.item → is_item k ≡ true)
unfolding inner_arm
inner_arm_cases k = ground arith

delimiter_eq_iff : (a b : Delimiter) → (delimiter_eq a b ≡ true) ↔ (a ≡ b)
unfolding delimiter_eq
delimiter_eq_iff a b = ground arith

abbrev RangeAt : List Token → TokenRef → Type 0
RangeAt ts r = TokenAt ts r.token_index (λ t. r.range ≡ t.range)

-- The rest of a group that `c` closes, from `j` on.
abbrev Rest : List Token → ℕ → Delimiter → List TokenRef → Appended → Type 0
Rest ts j c xs a = Appends ts j xs a × Group ts j c a.index

-- What a loop promises from each index behind `i`.
abbrev Promises : List Token → Loop → ℕ → Type 0
Promises ts loop i =
    (r : TokenRef) (j : ℕ) (c : Delimiter) (xs : List TokenRef)
    → i < j
    → j ≤ length ts
    → RangeAt ts r
    → Inside ts r.token_index c j
    → Ensures (Rest ts j c xs) (IsFault ts) (loop r j c xs)

module _ (ts : List Token) (loop : Loop) (i : ℕ) (t : Token) (here : get_elem? ts i ≡ some t)
    (ih : Promises ts loop i) where
  lt : i < length ts
  lt = get_elem?-lt ts i here

  append_with-Ensures :
      (c : Delimiter) (refs : List TokenRef)
      → closer t.kind ≡ some c
      → Ensures
          (λ a. Appends ts i refs a × Group ts (i + 1) c a.index)
          (IsFault ts)
          (append_with loop ts i c refs)
  unfolding append_with
  append_with-Ensures c refs opens =
      Ensures->>= (checked_token_ref-Ensures ts i t here) (λ r (e, _). rw e (
        Ensures-mono (λ a (p, g). (Appends-step ts i refs t here a p, g)) (λ _ q. q)
          (ih (ref i t) (i + 1) c (refs ++ ref i t ∷ []) (omega arith) (omega (arith, lt))
            (t, here, refl) (Inside.opened (t, here, opens)))))

  composite_arm-Ensures :
      (arm : Inner) (open_ref : TokenRef) (expected : Delimiter) (refs : List TokenRef)
      → inner_arm t.kind ≡ arm
      → RangeAt ts open_ref
      → Inside ts open_ref.token_index expected i
      → Ensures
          (Rest ts i expected refs)
          (IsFault ts)
          (composite_arm loop ts open_ref i expected refs (ref i t) arm)
  unfolding composite_arm
  composite_arm-Ensures Inner.item open_ref expected refs e o in_group =
      let fits : TokenAt ts i (λ u. is_item u.kind ≡ true) =
        (t, here, (inner_arm_cases t.kind).4 e) in
      Ensures-mono (λ a (p, g). (Appends-step ts i refs t here a p, Group.item fits g)) (λ _ q. q)
        (ih open_ref (i + 1) expected (refs ++ ref i t ∷ []) (omega arith) (omega (arith, lt)) o
          (Inside.item in_group fits))
  composite_arm-Ensures (Inner.nested c) open_ref expected refs e o in_group =
      let opens = (inner_arm_cases t.kind).0 c e in
      Ensures->>= (append_with-Ensures c refs opens) (λ a (p, g).
        Ensures-mono
          (λ b (q, h). (Appends-trans ts i refs a b p q, Group.nested c (t, here, opens) g h))
          (λ _ q. q)
          (ih open_ref a.index expected a.refs p.0 p.1 o
            (Inside.nested c in_group (t, here, opens) g)))
  composite_arm-Ensures (Inner.closing c) open_ref expected refs e o in_group =
      let (kind, closes) = (inner_arm_cases t.kind).1 c e in
      elim (Bool-cases (delimiter_eq c expected)) [
        | inl same ↦ rw same (
            returns (
              (
                omega arith,
                omega (arith, lt),
                ap (λ xs. refs ++ xs) (sym (slice-token_refs ts i here)),
              ),
              Group.closed
                  (t, here, kind ∙ ap TokenKind.delimiter ((delimiter_eq_iff c expected).0 same)),
            ))
        | inr other ↦ rw other (
            fails (
              open_ref.token_index,
              expected,
              c,
              in_group,
              (t, here, (refl, kind)),
              closes,
              λ same. let hit = (delimiter_eq_iff c expected).1 same in cc,
            ))
      ]
  composite_arm-Ensures Inner.misplaced_operator open_ref expected refs e o in_group =
      fails
        (open_ref.token_index, expected, in_group, (t, here, (refl, (inner_arm_cases t.kind).2 e)))
  composite_arm-Ensures Inner.misplaced_keyword open_ref expected refs e o in_group =
      fails (t, here, (refl, (inner_arm_cases t.kind).3 e))

composite_loop-Ensures :
    (ts : List Token) (fuel : ℕ) (open_ref : TokenRef) (i : ℕ) (expected : Delimiter)
    (refs : List TokenRef)
    → length ts < fuel + i
    → i ≤ length ts
    → RangeAt ts open_ref
    → Inside ts open_ref.token_index expected i
    → Ensures
        (Rest ts i expected refs)
        (IsFault ts)
        (composite_loop ts fuel open_ref i expected refs)
unfolding composite_loop
composite_loop-Ensures ts zero open_ref i expected refs f le o g = absurd (omega arith)
composite_loop-Ensures ts (suc fuel) open_ref i expected refs f le o g =
    elim (get_elem?-cases ts i) [
      | inl (e, ge) ↦
          let end : i ≡ length ts = omega arith in
          rw (e, composite_loop) (fails (o, (expected, rw end at g)))
      | inr (t, here, lt) ↦
          rw (here, composite_loop)
            (Ensures->>= (checked_token_ref-Ensures ts i t here) (λ r (er, _). rw er (
              composite_arm-Ensures ts (composite_loop ts fuel) i t here
                (λ r j c xs lt' le' o' g'.
                  composite_loop-Ensures ts fuel r j c xs (omega arith) le' o' g')
                (inner_arm t.kind) open_ref expected refs refl o g)))
    ]

pub append_composite_operand-Ensures :
    (ts : List Token) (i : ℕ) (c : Delimiter) (refs : List TokenRef) (t : Token)
    → get_elem? ts i ≡ some t
    → closer t.kind ≡ some c
    → Ensures
        (λ a. Appends ts i refs a × Group ts (i + 1) c a.index)
        (IsFault ts)
        (append_composite_operand ts i c refs)
unfolding append_composite_operand
append_composite_operand-Ensures ts i c refs t here opens =
    append_with-Ensures ts (composite_loop ts (length ts)) i t here
      (λ r j d xs lt le o g. composite_loop-Ensures ts (length ts) r j d xs (omega arith) le o g) c
      refs opens
