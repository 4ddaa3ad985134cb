-- ===== src/Color/Overprint.antt =====
-- crates/presslint-color/src/overprint.rs: what becomes of overprint interactions.
use mathlib.Core.List.{append_assoc, append-nil}
use presslint.Common.{
  ◌≡◌, refl, ap, ◌∙◌, Bool, true, false, List, [], ◌∷◌, ◌++◌, Bytes, if◌then◌else◌,
}
use presslint.Types.{ColorSpace}
use presslint.Color.Policy.{OverprintPolicy}

pub data OverprintSensitivity : Type 0 where
  safe process_colorant_expansion spot_colorant_conversion unsupported : OverprintSensitivity

pub record ObservedOverprintInteraction : Type 0 where
  pub id : Bytes
  pub source : ColorSpace
  pub destination : ColorSpace
  pub sensitivity : OverprintSensitivity

pub data OverprintMitigationAction : Type 0 where
  preserve_zero_process_colorants preserve_spot_overprint_appearance : OverprintMitigationAction

pub record OverprintMitigation : Type 0 where
  pub interaction : ObservedOverprintInteraction
  pub action : OverprintMitigationAction

pub data OverprintRejection : Type 0 where
  unsafe_overprint_sensitive_conversions : List ObservedOverprintInteraction → OverprintRejection

pub data OverprintSkipReason : Type 0 where
  unsupported_interaction : OverprintSkipReason

pub record SkippedOverprintMitigation : Type 0 where
  pub interaction : ObservedOverprintInteraction
  pub reason : OverprintSkipReason

pub data OverprintDecision : Type 0 where
  keep_overprint : OverprintDecision
  no_unsafe_overprint : OverprintDecision
  rejected : OverprintRejection → OverprintDecision
  mitigated : List OverprintMitigation → List SkippedOverprintMitigation → OverprintDecision

unfoldable pub is_safe : OverprintSensitivity → Bool
is_safe safe = true
is_safe _ = false

-- `.filter(|interaction| interaction.sensitivity != Safe)`
unfoldable pub unsafe_ones : List ObservedOverprintInteraction → List ObservedOverprintInteraction
unsafe_ones [] = []
unsafe_ones (x ∷ xs) = if is_safe x.sensitivity then unsafe_ones xs else x ∷ unsafe_ones xs

-- The test `interactions.is_empty()`.
abbrev pub reject_all : List ObservedOverprintInteraction → OverprintDecision
reject_all [] = no_unsafe_overprint
reject_all (x ∷ xs) = rejected (unsafe_overprint_sensitive_conversions (x ∷ xs))

abbrev pub mitigation :
    ObservedOverprintInteraction → OverprintMitigationAction → OverprintMitigation
mitigation x action = record { interaction = x; action = action }

abbrev pub skipped_mitigation : ObservedOverprintInteraction → SkippedOverprintMitigation
skipped_mitigation x = record { interaction = x; reason = unsupported_interaction }

-- The arms of the loop: what one interaction adds to the two lists.
unfoldable pub mitigate_one :
    OverprintSensitivity
    → ObservedOverprintInteraction
    → List OverprintMitigation × List SkippedOverprintMitigation
    → List OverprintMitigation × List SkippedOverprintMitigation
mitigate_one safe x (supported, skipped) = (supported, skipped)
mitigate_one process_colorant_expansion x (supported, skipped) =
    (supported ++ mitigation x preserve_zero_process_colorants ∷ [], skipped)
mitigate_one spot_colorant_conversion x (supported, skipped) =
    (supported ++ mitigation x preserve_spot_overprint_appearance ∷ [], skipped)
mitigate_one unsupported x (supported, skipped) = (supported, skipped ++ skipped_mitigation x ∷ [])

unfoldable pub mitigate_loop :
    List OverprintMitigation × List SkippedOverprintMitigation
    → List ObservedOverprintInteraction
    → OverprintDecision
mitigate_loop (supported, skipped) [] = mitigated supported skipped
mitigate_loop lists (x ∷ xs) = mitigate_loop (mitigate_one x.sensitivity x lists) xs

unfoldable pub resolve_overprint_policy :
    OverprintPolicy → List ObservedOverprintInteraction → OverprintDecision
unfolding unsafe_ones is_safe mitigate_one mitigate_loop
resolve_overprint_policy OverprintPolicy.preserve observed = keep_overprint
resolve_overprint_policy OverprintPolicy.reject_unsafe observed = reject_all (unsafe_ones observed)
resolve_overprint_policy OverprintPolicy.mitigate observed = mitigate_loop ([], []) observed

-- The interactions, in order, are dealt out by what they are sensitive to.
pub data Sorts
    : List ObservedOverprintInteraction
      → List OverprintMitigation
      → List SkippedOverprintMitigation
      → Type 0 where
  done : Sorts [] [] []
  harmless :
      {x : ObservedOverprintInteraction} {xs : List ObservedOverprintInteraction}
      {ms : List OverprintMitigation} {ss : List SkippedOverprintMitigation}
      → x.sensitivity ≡ safe
      → Sorts xs ms ss
      → Sorts (x ∷ xs) ms ss
  expands :
      {x : ObservedOverprintInteraction} {xs : List ObservedOverprintInteraction}
      {ms : List OverprintMitigation} {ss : List SkippedOverprintMitigation}
      → x.sensitivity ≡ process_colorant_expansion
      → Sorts xs ms ss
      → Sorts (x ∷ xs) (mitigation x preserve_zero_process_colorants ∷ ms) ss
  converts :
      {x : ObservedOverprintInteraction} {xs : List ObservedOverprintInteraction}
      {ms : List OverprintMitigation} {ss : List SkippedOverprintMitigation}
      → x.sensitivity ≡ spot_colorant_conversion
      → Sorts xs ms ss
      → Sorts (x ∷ xs) (mitigation x preserve_spot_overprint_appearance ∷ ms) ss
  left_out :
      {x : ObservedOverprintInteraction} {xs : List ObservedOverprintInteraction}
      {ms : List OverprintMitigation} {ss : List SkippedOverprintMitigation}
      → x.sensitivity ≡ unsupported
      → Sorts xs ms ss
      → Sorts (x ∷ xs) ms (skipped_mitigation x ∷ ss)

-- The interactions that are not safe, in order.
pub data Unsafe
    : List ObservedOverprintInteraction → List ObservedOverprintInteraction → Type 0 where
  none_left : Unsafe [] []
  passes :
      {x : ObservedOverprintInteraction} {xs us : List ObservedOverprintInteraction}
      → x.sensitivity ≡ safe
      → Unsafe xs us
      → Unsafe (x ∷ xs) us
  stops :
      {x : ObservedOverprintInteraction} {xs us : List ObservedOverprintInteraction}
      → ¬ (x.sensitivity ≡ safe)
      → Unsafe xs us
      → Unsafe (x ∷ xs) (x ∷ us)

abbrev pub IsSome : List ObservedOverprintInteraction → Type 0
IsSome [] = ⊥
IsSome (x ∷ xs) = Unit

abbrev pub IsOverprintDecision :
    OverprintPolicy → List ObservedOverprintInteraction → OverprintDecision → Type 0
IsOverprintDecision policy observed keep_overprint = policy ≡ OverprintPolicy.preserve
IsOverprintDecision policy observed no_unsafe_overprint =
    (policy ≡ OverprintPolicy.reject_unsafe) × Unsafe observed []
IsOverprintDecision policy observed (rejected (unsafe_overprint_sensitive_conversions us)) =
    (policy ≡ OverprintPolicy.reject_unsafe) × IsSome us × Unsafe observed us
IsOverprintDecision policy observed (mitigated supported skipped) =
    (policy ≡ OverprintPolicy.mitigate) × Sorts observed supported skipped

sort_first :
    (k : OverprintSensitivity) (x : ObservedOverprintInteraction)
    → x.sensitivity ≡ k
    → (xs us : List ObservedOverprintInteraction) → Unsafe xs us
    → Unsafe (x ∷ xs) (if is_safe k then us else x ∷ us)
unfolding is_safe
sort_first safe x e xs us u = passes e u
sort_first process_colorant_expansion x e xs us u = stops (λ s. cc) u
sort_first spot_colorant_conversion x e xs us u = stops (λ s. cc) u
sort_first unsupported x e xs us u = stops (λ s. cc) u

unsafe_ones-Unsafe : (xs : List ObservedOverprintInteraction) → Unsafe xs (unsafe_ones xs)
unfolding unsafe_ones
unsafe_ones-Unsafe [] = none_left
unsafe_ones-Unsafe (x ∷ xs) =
    sort_first x.sensitivity x refl xs (unsafe_ones xs) (unsafe_ones-Unsafe xs)

reject_all-IsOverprintDecision :
    (observed us : List ObservedOverprintInteraction)
    → Unsafe observed us
    → IsOverprintDecision OverprintPolicy.reject_unsafe observed (reject_all us)
reject_all-IsOverprintDecision observed [] u = (refl, u)
reject_all-IsOverprintDecision observed (x ∷ us) u = (refl, tt, u)

abbrev Mitigates :
    List OverprintMitigation
    → List SkippedOverprintMitigation
    → List ObservedOverprintInteraction
    → OverprintDecision
    → Type 0
Mitigates supported skipped observed d =
    (ms : List OverprintMitigation) × (ss : List SkippedOverprintMitigation) × (d
      ≡ mitigated (supported ++ ms) (skipped ++ ss))
    × Sorts observed ms ss

mitigate_first :
    (k : OverprintSensitivity) (x : ObservedOverprintInteraction)
    → x.sensitivity ≡ k
    → (supported : List OverprintMitigation) (skipped : List SkippedOverprintMitigation)
      (xs : List ObservedOverprintInteraction)
    → ((ms : List OverprintMitigation) (ss : List SkippedOverprintMitigation)
        → Mitigates ms ss xs (mitigate_loop (ms, ss) xs))
    → Mitigates supported skipped
        (x ∷ xs)
        (mitigate_loop (mitigate_one k x (supported, skipped)) xs)
unfolding mitigate_one
mitigate_first safe x e supported skipped xs h =
    let (ms, ss, same, d) = h supported skipped in (ms, ss, same, harmless e d)
mitigate_first process_colorant_expansion x e supported skipped xs h =
    let m = mitigation x preserve_zero_process_colorants in
    let (ms, ss, same, d) = h (supported ++ m ∷ []) skipped in
    (
      m ∷ ms,
      ss,
      same ∙ ap (λ l. mitigated l (skipped ++ ss)) (append_assoc supported (m ∷ []) ms),
      expands e d,
    )
mitigate_first spot_colorant_conversion x e supported skipped xs h =
    let m = mitigation x preserve_spot_overprint_appearance in
    let (ms, ss, same, d) = h (supported ++ m ∷ []) skipped in
    (
      m ∷ ms,
      ss,
      same ∙ ap (λ l. mitigated l (skipped ++ ss)) (append_assoc supported (m ∷ []) ms),
      converts e d,
    )
mitigate_first unsupported x e supported skipped xs h =
    let m = skipped_mitigation x in
    let (ms, ss, same, d) = h supported (skipped ++ m ∷ []) in
    (
      ms,
      m ∷ ss,
      same ∙ ap (λ l. mitigated (supported ++ ms) l) (append_assoc skipped (m ∷ []) ss),
      left_out e d,
    )

mitigate_loop-Sorts :
    (supported : List OverprintMitigation) (skipped : List SkippedOverprintMitigation)
    (observed : List ObservedOverprintInteraction)
    → Mitigates supported skipped observed (mitigate_loop (supported, skipped) observed)
unfolding mitigate_loop
mitigate_loop-Sorts supported skipped [] =
    ([], [], rw (append-nil supported, append-nil skipped) refl, done)
mitigate_loop-Sorts supported skipped (x ∷ xs) =
    mitigate_first x.sensitivity x refl supported skipped xs (λ s k. mitigate_loop-Sorts s k xs)

-- Overprint is kept where the policy says so; a rejection lists the interactions that are not safe,
-- in order, and there is one, and without one there is no unsafe overprint; and a mitigation takes each interaction once, in order: the
-- safe ones drop out, the unsupported ones are skipped, and the others get their own action.
pub resolve_overprint_policy-IsOverprintDecision :
    (policy : OverprintPolicy) (observed : List ObservedOverprintInteraction)
    → IsOverprintDecision policy observed (resolve_overprint_policy policy observed)
unfolding resolve_overprint_policy
resolve_overprint_policy-IsOverprintDecision OverprintPolicy.preserve observed = refl
resolve_overprint_policy-IsOverprintDecision OverprintPolicy.reject_unsafe observed =
    reject_all-IsOverprintDecision observed (unsafe_ones observed) (unsafe_ones-Unsafe observed)
resolve_overprint_policy-IsOverprintDecision OverprintPolicy.mitigate observed =
    let (ms, ss, same, d) = mitigate_loop-Sorts [] [] observed in rw same (refl, d)
