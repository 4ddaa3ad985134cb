-- ===== src/Color/Spot.antt =====
-- crates/presslint-color/src/spot.rs: what becomes of spot colors.
use mathlib.Core.List.{append_assoc, append-nil}
use presslint.Common.{
  ◌≡◌, refl, ap, ◌∙◌, inl, inr, Bool, true, false, List, [], ◌∷◌, ◌++◌, Bytes, if◌then◌else◌,
  Bool-cases,
}
use presslint.Types.{ColorSpace}
use presslint.Color.Policy.{SpotPolicy}

pub record ObservedSpotColor : Type 0 where
  pub name : Bytes
  pub alternate : ColorSpace

pub data SpotRejection : Type 0 where
  spot_conversion_required : SpotRejection

pub data SpotSkipReason : Type 0 where
  unsupported_alternate : SpotSkipReason

pub record SkippedSpotConversion : Type 0 where
  pub spot : ObservedSpotColor
  pub reason : SpotSkipReason

pub data SpotDecision : Type 0 where
  keep_spots : SpotDecision
  no_spot_colors : SpotDecision
  rejected : SpotRejection → SpotDecision
  convert : List ObservedSpotColor → List SkippedSpotConversion → SpotDecision

unfoldable pub is_process_device_color_space : ColorSpace → Bool
is_process_device_color_space ColorSpace.device_gray = true
is_process_device_color_space ColorSpace.device_rgb = true
is_process_device_color_space ColorSpace.device_cmyk = true
is_process_device_color_space _ = false

abbrev pub skipped_spot : ObservedSpotColor → SkippedSpotConversion
skipped_spot spot = record { spot = spot; reason = unsupported_alternate }

-- The loop over the observed spots: `eligible` and `skipped` are the two lists as they stand.
unfoldable pub spot_loop :
    List ObservedSpotColor → List SkippedSpotConversion → List ObservedSpotColor → SpotDecision
spot_loop eligible skipped [] = convert eligible skipped
spot_loop eligible skipped (spot ∷ spots) =
    let process = spot_loop (eligible ++ spot ∷ []) skipped spots in
    let other = spot_loop eligible (skipped ++ skipped_spot spot ∷ []) spots in
    if is_process_device_color_space spot.alternate then process else other

unfoldable pub resolve_spot_policy : SpotPolicy → List ObservedSpotColor → SpotDecision
unfolding spot_loop is_process_device_color_space
resolve_spot_policy SpotPolicy.preserve observed = keep_spots
resolve_spot_policy SpotPolicy.reject [] = no_spot_colors
resolve_spot_policy SpotPolicy.reject (spot ∷ spots) = rejected spot_conversion_required
resolve_spot_policy SpotPolicy.convert_alternate observed = spot_loop [] [] observed

-- The spots, in order, are dealt out: those with a process alternate to the first list, the others
-- to the second.
pub data Deals
    : List ObservedSpotColor → List ObservedSpotColor → List SkippedSpotConversion → Type 0 where
  done : Deals [] [] []
  eligible_spot :
      {x : ObservedSpotColor} {xs es : List ObservedSpotColor} {ss : List SkippedSpotConversion}
      → is_process_device_color_space x.alternate ≡ true
      → Deals xs es ss
      → Deals (x ∷ xs) (x ∷ es) ss
  skipped_one :
      {x : ObservedSpotColor} {xs es : List ObservedSpotColor} {ss : List SkippedSpotConversion}
      → is_process_device_color_space x.alternate ≡ false
      → Deals xs es ss
      → Deals (x ∷ xs) es (skipped_spot x ∷ ss)

abbrev pub HasSpots : List ObservedSpotColor → Type 0
HasSpots [] = ⊥
HasSpots (x ∷ xs) = Unit

abbrev pub IsSpotDecision : SpotPolicy → List ObservedSpotColor → SpotDecision → Type 0
IsSpotDecision policy observed keep_spots = policy ≡ SpotPolicy.preserve
IsSpotDecision policy observed no_spot_colors = (policy ≡ SpotPolicy.reject) × (observed ≡ [])
IsSpotDecision policy observed (rejected reason) = (policy ≡ SpotPolicy.reject) × HasSpots observed
IsSpotDecision policy observed (convert eligible skipped) =
    (policy ≡ SpotPolicy.convert_alternate) × Deals observed eligible skipped

spot_loop-Deals :
    (eligible : List ObservedSpotColor) (skipped : List SkippedSpotConversion)
    (observed : List ObservedSpotColor)
    → (es : List ObservedSpotColor) × (ss : List SkippedSpotConversion) × (spot_loop eligible
          skipped observed
        ≡ convert (eligible ++ es) (skipped ++ ss))
      × Deals observed es ss
unfolding spot_loop
spot_loop-Deals eligible skipped [] =
    ([], [], rw (append-nil eligible, append-nil skipped) refl, done)
spot_loop-Deals eligible skipped (x ∷ xs) =
    elim (Bool-cases (is_process_device_color_space x.alternate)) [
      | inl e ↦
          let (es, ss, same, d) = spot_loop-Deals (eligible ++ x ∷ []) skipped xs in
          (
            x ∷ es,
            ss,
            rw e (same ∙ ap (λ l. convert l (skipped ++ ss)) (append_assoc eligible (x ∷ []) es)),
            eligible_spot e d,
          )
      | inr e ↦
          let (es, ss, same, d) = spot_loop-Deals eligible (skipped ++ skipped_spot x ∷ []) xs in
          (
            es,
            skipped_spot x ∷ ss,
            rw e (
                same
                ∙ ap (λ l. convert (eligible ++ es) l)
                    (append_assoc skipped (skipped_spot x ∷ []) ss)),
            skipped_one e d,
          )
    ]

-- Spots are kept where the policy says so; a rejection means that there are some; and a
-- conversion takes each observed spot once, in order, to the eligible ones where its alternate is a process
-- color space and to the skipped ones otherwise.
pub resolve_spot_policy-IsSpotDecision :
    (policy : SpotPolicy) (observed : List ObservedSpotColor)
    → IsSpotDecision policy observed (resolve_spot_policy policy observed)
unfolding resolve_spot_policy
resolve_spot_policy-IsSpotDecision SpotPolicy.preserve observed = refl
resolve_spot_policy-IsSpotDecision SpotPolicy.reject [] = (refl, refl)
resolve_spot_policy-IsSpotDecision SpotPolicy.reject (x ∷ xs) = (refl, tt)
resolve_spot_policy-IsSpotDecision SpotPolicy.convert_alternate observed =
    let (es, ss, same, d) = spot_loop-Deals [] [] observed in rw same (refl, d)
