-- ===== src/Color/OutputIntent.antt =====
-- crates/presslint-color/src/output_intent.rs: whether a document's output intents meet a policy.
use mathlib.Core.Bool.{decide, decide_iff}
use presslint.Common.{
  ◌≡◌, ◌≢◌, refl, ◌⊎◌, inl, inr, Bool, Option, none, some, List, [], ◌∷◌, Bytes, bytes_eq,
  bytes_eq→eq, bytes_eq_refl, if◌then◌else◌, Bool-cases,
}
use presslint.Color.Policy.{
  OutputIntentPolicy, OutputIntentSubtype, OutputIntentSubtype-discrete, OutputIntentTarget,
  named_condition, profile_backed, require_existing, ensure_target,
}

pub record ObservedOutputIntent : Type 0 where
  pub subtype : OutputIntentSubtype
  pub output_condition_identifier : Bytes

pub data OutputIntentRejection : Type 0 where
  no_existing_intent : OutputIntentRejection

pub data OutputIntentDecision : Type 0 where
  keep_intents : OutputIntentDecision
  satisfied_by_existing : OutputIntentDecision
  rejected : OutputIntentRejection → OutputIntentDecision
  already_satisfied : OutputIntentTarget → OutputIntentDecision
  conflicts_with_existing : OutputIntentTarget → ObservedOutputIntent → OutputIntentDecision
  requires_ensure_target : OutputIntentTarget → OutputIntentDecision

unfoldable pub target_identity : OutputIntentTarget → OutputIntentSubtype × Bytes
target_identity (named_condition c) = (c.subtype, c.output_condition_identifier)
target_identity (profile_backed p) = (p.subtype, p.output_condition_identifier)

-- `conflict.map_or_else(..)`
unfoldable pub conflict_decision :
    OutputIntentTarget → Option ObservedOutputIntent → OutputIntentDecision
conflict_decision target none = requires_ensure_target target
conflict_decision target (some existing) = conflicts_with_existing target existing

-- `if conflict.is_none() { conflict = Some(intent) }`
abbrev pub keep_first :
    Option ObservedOutputIntent → ObservedOutputIntent → Option ObservedOutputIntent
keep_first none intent = some intent
keep_first (some existing) intent = some existing

unfoldable pub same_subtype : OutputIntentSubtype → ObservedOutputIntent → Bool
same_subtype subtype intent = decide (OutputIntentSubtype-discrete intent.subtype subtype)

unfoldable pub intent_loop :
    OutputIntentTarget
    → OutputIntentSubtype
    → Bytes
    → Option ObservedOutputIntent
    → List ObservedOutputIntent
    → OutputIntentDecision
intent_loop target subtype identifier conflict [] = conflict_decision target conflict
intent_loop target subtype identifier conflict (intent ∷ intents) =
    let other = intent_loop target subtype identifier conflict intents in
    let clash = intent_loop target subtype identifier (keep_first conflict intent) intents in
    if same_subtype subtype intent
    then (if bytes_eq intent.output_condition_identifier identifier
        then already_satisfied target
        else clash)
    else other

unfoldable pub resolve_output_intent_policy :
    OutputIntentPolicy → List ObservedOutputIntent → OutputIntentDecision
unfolding target_identity conflict_decision same_subtype intent_loop
resolve_output_intent_policy OutputIntentPolicy.preserve observed = keep_intents
resolve_output_intent_policy require_existing [] = rejected no_existing_intent
resolve_output_intent_policy require_existing (intent ∷ intents) = satisfied_by_existing
resolve_output_intent_policy (ensure_target target) observed =
    intent_loop target (target_identity target).0 (target_identity target).1 none observed

module _ (subtype : OutputIntentSubtype) (identifier : Bytes) where
  abbrev pub Matches : ObservedOutputIntent → Type 0
  Matches x = (x.subtype ≡ subtype) × (x.output_condition_identifier ≡ identifier)

  -- Of the subtype, with another identifier.
  abbrev pub Clashes : ObservedOutputIntent → Type 0
  Clashes x = (x.subtype ≡ subtype) × (x.output_condition_identifier ≢ identifier)

  abbrev pub SomeMatches : List ObservedOutputIntent → Type 0
  SomeMatches [] = ⊥
  SomeMatches (x ∷ xs) = Matches x ⊎ SomeMatches xs

  abbrev pub NoneMatches : List ObservedOutputIntent → Type 0
  NoneMatches [] = Unit
  NoneMatches (x ∷ xs) = (¬ Matches x) × NoneMatches xs

  abbrev pub NoneClashes : List ObservedOutputIntent → Type 0
  NoneClashes [] = Unit
  NoneClashes (x ∷ xs) = (¬ Clashes x) × NoneClashes xs

  abbrev pub FirstClash : ObservedOutputIntent → List ObservedOutputIntent → Type 0
  FirstClash y [] = ⊥
  FirstClash y (x ∷ xs) = (Clashes x × (y ≡ x)) ⊎ ((¬ Clashes x) × FirstClash y xs)

  module _ (target : OutputIntentTarget) where
    -- What the intents ask for, where `conflict` was met before them: an exact match wins, wherever
    -- it stands; otherwise the first clash counts.
    pub data Ensured
        : Option ObservedOutputIntent
          → List ObservedOutputIntent
          → OutputIntentDecision
          → Type 0 where
      met :
          {c : Option ObservedOutputIntent} {xs : List ObservedOutputIntent}
          → SomeMatches xs
          → Ensured c xs (already_satisfied target)
      old_clash :
          {c : ObservedOutputIntent} {xs : List ObservedOutputIntent}
          → NoneMatches xs
          → Ensured (some c) xs (conflicts_with_existing target c)
      new_clash :
          {y : ObservedOutputIntent} {xs : List ObservedOutputIntent}
          → NoneMatches xs
          → FirstClash y xs
          → Ensured none xs (conflicts_with_existing target y)
      free :
          {xs : List ObservedOutputIntent}
          → NoneMatches xs
          → NoneClashes xs
          → Ensured none xs (requires_ensure_target target)

    pass_other :
        (x : ObservedOutputIntent) {c : Option ObservedOutputIntent}
        {xs : List ObservedOutputIntent} {d : OutputIntentDecision}
        → x.subtype ≢ subtype
        → Ensured c xs d
        → Ensured c (x ∷ xs) d
    pass_other x n (met h) = met (inr h)
    pass_other x n (old_clash h) = old_clash ((λ m. n m.0), h)
    pass_other x n (new_clash h k) = new_clash ((λ m. n m.0), h) (inr ((λ m. n m.0), k))
    pass_other x n (free h k) = free ((λ m. n m.0), h) ((λ m. n m.0), k)

    pass_clash :
        (x : ObservedOutputIntent) (c : Option ObservedOutputIntent)
        {xs : List ObservedOutputIntent} {d : OutputIntentDecision}
        → Clashes x
        → Ensured (keep_first c x) xs d
        → Ensured c (x ∷ xs) d
    pass_clash x none (s, n) (met h) = met (inr h)
    pass_clash x none (s, n) (old_clash h) = new_clash ((λ m. n m.1), h) (inl ((s, n), refl))
    pass_clash x (some c) (s, n) (met h) = met (inr h)
    pass_clash x (some c) (s, n) (old_clash h) = old_clash ((λ m. n m.1), h)

    intent_loop-Ensured :
        (c : Option ObservedOutputIntent) (xs : List ObservedOutputIntent)
        → Ensured c xs (intent_loop target subtype identifier c xs)
    unfolding intent_loop conflict_decision same_subtype
    intent_loop-Ensured none [] = free tt tt
    intent_loop-Ensured (some c) [] = old_clash tt
    intent_loop-Ensured c (x ∷ xs) =
        let decides = decide_iff (OutputIntentSubtype-discrete x.subtype subtype) in
        elim (Bool-cases (same_subtype subtype x)) [
          | inl e ↦ elim (Bool-cases (bytes_eq x.output_condition_identifier identifier)) [
            | inl e' ↦ rw (e, e') (met (inl (decides.0 e, bytes_eq→eq _ _ e')))
            | inr e' ↦
                rw (e, e')
                  (pass_clash x c
                    (
                      decides.0 e,
                      λ same. let hit = bytes_eq_refl identifier in let miss = rw same at e' in cc,
                    )
                    (intent_loop-Ensured (keep_first c x) xs))
          ]
          | inr e ↦
              rw e
                (pass_other x (λ same. let hit = decides.1 same in cc) (intent_loop-Ensured c xs))
        ]

abbrev pub IsIntentDecision :
    OutputIntentPolicy → List ObservedOutputIntent → OutputIntentDecision → Type 0
IsIntentDecision OutputIntentPolicy.preserve observed d = d ≡ keep_intents
IsIntentDecision require_existing [] d = d ≡ rejected no_existing_intent
IsIntentDecision require_existing (x ∷ xs) d = d ≡ satisfied_by_existing
IsIntentDecision (ensure_target target) observed d =
    Ensured (target_identity target).0 (target_identity target).1 target none observed d

-- Intents are kept where the policy says so; a required intent is there, or the decision rejects;
-- and a target is satisfied where some intent has its subtype and identifier, wherever that stands,
-- conflicts otherwise with the first intent of its subtype, and is to be ensured where there
-- is none of its subtype.
pub resolve_output_intent_policy-IsIntentDecision :
    (policy : OutputIntentPolicy) (observed : List ObservedOutputIntent)
    → IsIntentDecision policy observed (resolve_output_intent_policy policy observed)
unfolding resolve_output_intent_policy
resolve_output_intent_policy-IsIntentDecision OutputIntentPolicy.preserve observed = refl
resolve_output_intent_policy-IsIntentDecision require_existing [] = refl
resolve_output_intent_policy-IsIntentDecision require_existing (x ∷ xs) = refl
resolve_output_intent_policy-IsIntentDecision (ensure_target target) observed =
    intent_loop-Ensured (target_identity target).0 (target_identity target).1 target none observed
