-- ===== src/Color/Plan.antt =====
-- crates/presslint-color/src/color_policy.rs, transform_plan.rs and transform_cache.rs: the decisions
-- put together, and the key under which a transform is cached.
use presslint.Common.{◌≡◌, Option, none, some, List, Bytes}
use presslint.Types.{ColorSpace}
use presslint.Color.Policy.{ColorPolicy, TransformRequest, TransformPlanRequest}
use presslint.Color.DeviceLink.{
  DeviceLinkDescription, DeviceLinkDecision, use_device_link, use_profile_connection_space,
  rejected, resolve_device_link_policy,
}
use presslint.Color.Spot.{ObservedSpotColor, SpotDecision, resolve_spot_policy}
use presslint.Color.Overprint.{
  ObservedOverprintInteraction, OverprintDecision, resolve_overprint_policy,
}
use presslint.Color.OutputIntent.{
  ObservedOutputIntent, OutputIntentDecision, resolve_output_intent_policy,
}

pub record ColorPolicyDecision : Type 0 where
  pub spot : SpotDecision
  pub overprint : OverprintDecision

unfoldable pub resolve_color_policy :
    ColorPolicy → List ObservedSpotColor → List ObservedOverprintInteraction → ColorPolicyDecision
resolve_color_policy policy spot_observed overprint_observed = record {
  spot = resolve_spot_policy policy.spot spot_observed;
  overprint = resolve_overprint_policy policy.overprint overprint_observed;
}

pub record TransformPlanDecision : Type 0 where
  pub device_link : DeviceLinkDecision
  pub output_intent : OutputIntentDecision
  pub color_policy : ColorPolicyDecision

unfoldable pub resolve_transform_plan :
    TransformPlanRequest
    → List DeviceLinkDescription
    → List ObservedOutputIntent
    → List ObservedSpotColor
    → List ObservedOverprintInteraction
    → TransformPlanDecision
unfolding resolve_color_policy
resolve_transform_plan request device_links output_intents spot_observed overprint_observed =
    record {
      device_link = resolve_device_link_policy request.device_link request.transform device_links;
      output_intent = resolve_output_intent_policy request.output_intent output_intents;
      color_policy = resolve_color_policy request.transform.policy spot_observed overprint_observed;
    }

-- A profile reference is its id.
pub record ProfileReference : Type 0 where
  pub id : Bytes

pub data TransformCacheKey : Type 0 where
  device_link_key : Bytes → ColorSpace → ColorSpace → TransformCacheKey
  profile_key : ProfileReference → ProfileReference → ColorSpace → ColorSpace → TransformCacheKey

pub data TransformCacheKeyRejection : Type 0 where
  rejected_device_link missing_source_profile_id : TransformCacheKeyRejection
  missing_destination_profile_id : TransformCacheKeyRejection

pub data TransformCacheKeyDecision : Type 0 where
  keyed : TransformCacheKey → TransformCacheKeyDecision
  no_key : TransformCacheKeyRejection → TransformCacheKeyDecision

unfoldable pub derive_transform_cache_key :
    DeviceLinkDecision
    → TransformRequest
    → Option ProfileReference
    → Option ProfileReference
    → TransformCacheKeyDecision
derive_transform_cache_key (rejected reason) request source_profile destination_profile =
    no_key rejected_device_link
derive_transform_cache_key (use_device_link link) request source_profile destination_profile =
    keyed (device_link_key link.id request.source request.destination)
derive_transform_cache_key use_profile_connection_space request none destination_profile =
    no_key missing_source_profile_id
derive_transform_cache_key use_profile_connection_space request (some s) none =
    no_key missing_destination_profile_id
derive_transform_cache_key use_profile_connection_space request (some s) (some d) =
    keyed (profile_key s d request.source request.destination)

-- The same transform: over links of one id, or from one profile to another.
abbrev pub SameTransform :
    DeviceLinkDecision
    → DeviceLinkDecision
    → Option ProfileReference
    → Option ProfileReference
    → Option ProfileReference
    → Option ProfileReference
    → Type 0
SameTransform (use_device_link l) (use_device_link l') s s' d d' = l.id ≡ l'.id
SameTransform use_profile_connection_space use_profile_connection_space s s' d d' =
    (s ≡ s') × (d ≡ d')
SameTransform _ _ s s' d d' = ⊥

-- Where two derivations give one and the same key, their requests have the same color spaces, and
-- they use the same transform: both a device link of the same id, or both the profile connection space
-- between the same profiles.
pub derive_transform_cache_key_inj :
    (l l' : DeviceLinkDecision) (r r' : TransformRequest) (s s' d d' : Option ProfileReference)
    (key : TransformCacheKey)
    → derive_transform_cache_key l r s d ≡ keyed key
    → derive_transform_cache_key l' r' s' d' ≡ keyed key
    → (r.source ≡ r'.source) × (r.destination ≡ r'.destination) × SameTransform l l' s s' d d'
unfolding derive_transform_cache_key
derive_transform_cache_key_inj (rejected x) l' r r' s s' d d' key e e' = cc
derive_transform_cache_key_inj (use_device_link l) (rejected x) r r' s s' d d' key e e' = cc
derive_transform_cache_key_inj (use_device_link l) (use_device_link l') r r' s s' d d' key e e' =
    (cc, cc, cc)
derive_transform_cache_key_inj (use_device_link l) use_profile_connection_space r r' s none d d' key
      e e' =
    cc
derive_transform_cache_key_inj (use_device_link l) use_profile_connection_space r r' s (some x) d
      none key e e' =
    cc
derive_transform_cache_key_inj (use_device_link l) use_profile_connection_space r r' s (some x) d
      (some y) key e e' =
    cc
derive_transform_cache_key_inj use_profile_connection_space (rejected x) r r' s s' d d' key e e' =
    cc
derive_transform_cache_key_inj use_profile_connection_space (use_device_link l) r r' none s' d d'
      key e e' =
    cc
derive_transform_cache_key_inj use_profile_connection_space (use_device_link l) r r' (some x) s'
      none d' key e e' =
    cc
derive_transform_cache_key_inj use_profile_connection_space (use_device_link l) r r' (some x) s'
      (some y) d' key e e' =
    cc
derive_transform_cache_key_inj use_profile_connection_space use_profile_connection_space r r' none
      s' d d' key e e' =
    cc
derive_transform_cache_key_inj use_profile_connection_space use_profile_connection_space r r'
      (some x) s' none d' key e e' =
    cc
derive_transform_cache_key_inj use_profile_connection_space use_profile_connection_space r r'
      (some x) none (some y) d' key e e' =
    cc
derive_transform_cache_key_inj use_profile_connection_space use_profile_connection_space r r'
      (some x) (some x') (some y) none key e e' =
    cc
derive_transform_cache_key_inj use_profile_connection_space use_profile_connection_space r r'
      (some x) (some x') (some y) (some y') key e e' =
    (cc, cc, (cc, cc))
