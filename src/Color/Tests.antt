-- ===== src/Color/Tests.antt =====
-- The theorems of the color decisions at concrete inputs.
use mathlib.Core.Bool.{decide}
use presslint.Common.{◌≡◌, refl, Option, none, some, List, [], ◌∷◌, bytes_eq}
use presslint.Types.{ColorSpace, ColorSpace-discrete}
use presslint.Color.Policy.{
  ColorPolicy, TransformRequest, DeviceLinkPolicy, OutputIntentPolicy, OutputIntentSubtype,
  OutputIntentSubtype-discrete, OutputIntentTarget, SpotPolicy, OverprintPolicy,
}
use presslint.Color.DeviceLink.{
  DeviceLinkDescription, DeviceLinkDecision, resolve_device_link_policy, IsDecision,
  resolve_device_link_policy-IsDecision,
}
use presslint.Color.Spot.{
  ObservedSpotColor, resolve_spot_policy, IsSpotDecision, resolve_spot_policy-IsSpotDecision,
}
use presslint.Color.Overprint.{
  ObservedOverprintInteraction, OverprintSensitivity, resolve_overprint_policy, IsOverprintDecision,
  resolve_overprint_policy-IsOverprintDecision,
}
use presslint.Color.OutputIntent.{
  ObservedOutputIntent, OutputIntentDecision, resolve_output_intent_policy, IsIntentDecision,
  resolve_output_intent_policy-IsIntentDecision,
}
use presslint.Color.Plan.{
  ProfileReference, TransformCacheKey, TransformCacheKeyDecision, derive_transform_cache_key,
  SameTransform, derive_transform_cache_key_inj,
}

abbrev policy : ColorPolicy
policy = record { spot = SpotPolicy.convert_alternate; overprint = OverprintPolicy.mitigate }

abbrev request : TransformRequest
request = record {
  source = ColorSpace.device_rgb;
  destination = ColorSpace.device_cmyk;
  policy = policy;
}

abbrev gray_link : DeviceLinkDescription
gray_link = record {
  id = 103 ∷ [];
  source = ColorSpace.device_gray;
  destination = ColorSpace.device_cmyk;
}

abbrev rgb_link : DeviceLinkDescription
rgb_link = record {
  id = 114 ∷ [];
  source = ColorSpace.device_rgb;
  destination = ColorSpace.device_cmyk;
}

resolve_device_link_policy-IsDecision_example :
    IsDecision DeviceLinkPolicy.require request
      (gray_link ∷ rgb_link ∷ [])
      (resolve_device_link_policy DeviceLinkPolicy.require request (gray_link ∷ rgb_link ∷ []))
resolve_device_link_policy-IsDecision_example =
    resolve_device_link_policy-IsDecision DeviceLinkPolicy.require request
      (gray_link ∷ rgb_link ∷ [])

links_skip_gray :
    resolve_device_link_policy DeviceLinkPolicy.require request (gray_link ∷ rgb_link ∷ [])
    ≡ DeviceLinkDecision.use_device_link rgb_link
unfolding resolve_device_link_policy decide ColorSpace-discrete
links_skip_gray = refl

abbrev spots : List ObservedSpotColor
spots =
    record { name = 65 ∷ []; alternate = ColorSpace.device_cmyk }
    ∷ record { name = 66 ∷ []; alternate = ColorSpace.lab }
    ∷ []

resolve_spot_policy-IsSpotDecision_example :
    IsSpotDecision SpotPolicy.convert_alternate spots
      (resolve_spot_policy SpotPolicy.convert_alternate spots)
resolve_spot_policy-IsSpotDecision_example =
    resolve_spot_policy-IsSpotDecision SpotPolicy.convert_alternate spots

abbrev interaction : OverprintSensitivity → ObservedOverprintInteraction
interaction k = record {
  id = 105 ∷ [];
  source = ColorSpace.device_gray;
  destination = ColorSpace.device_cmyk;
  sensitivity = k;
}

abbrev interactions : List ObservedOverprintInteraction
interactions =
    interaction OverprintSensitivity.safe
    ∷ interaction OverprintSensitivity.process_colorant_expansion
    ∷ interaction OverprintSensitivity.unsupported
    ∷ []

resolve_overprint_policy-IsOverprintDecision_example :
    IsOverprintDecision OverprintPolicy.reject_unsafe interactions
      (resolve_overprint_policy OverprintPolicy.reject_unsafe interactions)
resolve_overprint_policy-IsOverprintDecision_example =
    resolve_overprint_policy-IsOverprintDecision OverprintPolicy.reject_unsafe interactions

abbrev target : OutputIntentTarget
target = OutputIntentTarget.named_condition (record {
  subtype = OutputIntentSubtype.gts_pdfx;
  output_condition_identifier = 70 ∷ 51 ∷ [];
  registry_name = 73 ∷ [];
})

abbrev intents : List ObservedOutputIntent
intents =
    record { subtype = OutputIntentSubtype.gts_pdfx; output_condition_identifier = 70 ∷ [] }
    ∷ record { subtype = OutputIntentSubtype.gts_pdfx; output_condition_identifier = 70 ∷ 51 ∷ [] }
    ∷ []

resolve_output_intent_policy-IsIntentDecision_example :
    IsIntentDecision
      (OutputIntentPolicy.ensure_target target)
      intents
      (resolve_output_intent_policy (OutputIntentPolicy.ensure_target target) intents)
resolve_output_intent_policy-IsIntentDecision_example =
    resolve_output_intent_policy-IsIntentDecision (OutputIntentPolicy.ensure_target target) intents

match_wins :
    resolve_output_intent_policy (OutputIntentPolicy.ensure_target target) intents
    ≡ OutputIntentDecision.already_satisfied target
unfolding resolve_output_intent_policy decide OutputIntentSubtype-discrete bytes_eq
match_wins = refl

abbrev profile : ProfileReference
profile = record { id = 112 ∷ [] }

abbrev key : TransformCacheKey
key = TransformCacheKey.device_link_key (114 ∷ []) ColorSpace.device_rgb ColorSpace.device_cmyk

key_of_link :
    (s : Option ProfileReference)
    → derive_transform_cache_key (DeviceLinkDecision.use_device_link rgb_link) request s none
      ≡ TransformCacheKeyDecision.keyed key
unfolding derive_transform_cache_key
key_of_link s = refl

derive_transform_cache_key_inj_example :
    (request.source ≡ request.source)
    × (request.destination ≡ request.destination)
    × SameTransform
        (DeviceLinkDecision.use_device_link rgb_link)
        (DeviceLinkDecision.use_device_link rgb_link)
        none
        (some profile)
        none
        none
derive_transform_cache_key_inj_example =
    derive_transform_cache_key_inj (DeviceLinkDecision.use_device_link rgb_link)
      (DeviceLinkDecision.use_device_link rgb_link) request request none (some profile) none none
      key (key_of_link none) (key_of_link (some profile))
