-- ===== src/Color/DeviceLink.antt =====
-- crates/presslint-color/src/devicelink.rs: which device link serves a transform.
use mathlib.Core.Bool.{decide, decide_iff}
use presslint.Common.{
  ◌≡◌, ◌≢◌, ◌↔◌, refl, ◌⊎◌, inl, inr, Bool, true, false, ◌&&◌, List, [], ◌∷◌, Bytes, if◌then◌else◌,
  Bool-cases, arith,
}
use presslint.Types.{ColorSpace, ColorSpace-discrete}
use presslint.Color.Policy.{DeviceLinkPolicy, require, prefer, forbid, TransformRequest}

pub record DeviceLinkDescription : Type 0 where
  pub id : Bytes
  pub source : ColorSpace
  pub destination : ColorSpace

pub data DeviceLinkRejection : Type 0 where
  no_matching_device_link : DeviceLinkRejection

pub data DeviceLinkDecision : Type 0 where
  use_device_link : DeviceLinkDescription → DeviceLinkDecision
  use_profile_connection_space : DeviceLinkDecision
  rejected : DeviceLinkRejection → DeviceLinkDecision

unfoldable pub link_serves : TransformRequest → DeviceLinkDescription → Bool
link_serves request link =
    decide (ColorSpace-discrete link.source request.source)
    && decide (ColorSpace-discrete link.destination request.destination)

-- The loop over the available links, and what stands behind it.
unfoldable pub link_loop : Bool → TransformRequest → List DeviceLinkDescription → DeviceLinkDecision
link_loop requires_match request [] =
    if requires_match then rejected no_matching_device_link else use_profile_connection_space
link_loop requires_match request (link ∷ links) =
    let rest = link_loop requires_match request links in
    if link_serves request link then use_device_link link else rest

unfoldable pub resolve_device_link_policy :
    DeviceLinkPolicy → TransformRequest → List DeviceLinkDescription → DeviceLinkDecision
unfolding link_loop link_serves
resolve_device_link_policy forbid request available = use_profile_connection_space
resolve_device_link_policy require request available = link_loop true request available
resolve_device_link_policy prefer request available = link_loop false request available

-- The link connects the request's color spaces.
abbrev pub Serves : TransformRequest → DeviceLinkDescription → Type 0
Serves request link = (link.source ≡ request.source) × (link.destination ≡ request.destination)

-- The first link that serves.
abbrev pub IsFirst : TransformRequest → DeviceLinkDescription → List DeviceLinkDescription → Type 0
IsFirst request link [] = ⊥
IsFirst request link (x ∷ xs) =
    (Serves request x × (link ≡ x)) ⊎ ((¬ Serves request x) × IsFirst request link xs)

abbrev pub NoneServes : TransformRequest → List DeviceLinkDescription → Type 0
NoneServes request [] = Unit
NoneServes request (x ∷ xs) = (¬ Serves request x) × NoneServes request xs

-- What the policy asks for, over the links.
abbrev pub IsDecision :
    DeviceLinkPolicy → TransformRequest → List DeviceLinkDescription → DeviceLinkDecision → Type 0
IsDecision policy request available (use_device_link link) =
    (policy ≢ forbid) × IsFirst request link available
IsDecision policy request available use_profile_connection_space =
    (policy ≡ forbid) ⊎ ((policy ≡ prefer) × NoneServes request available)
IsDecision policy request available (rejected reason) =
    (policy ≡ require) × NoneServes request available

link_serves_iff :
    (request : TransformRequest) (link : DeviceLinkDescription)
    → (link_serves request link ≡ true) ↔ Serves request link
unfolding link_serves
link_serves_iff request link =
    let s = decide_iff (ColorSpace-discrete link.source request.source) in
    let d = decide_iff (ColorSpace-discrete link.destination request.destination) in
    (λ e. (s.0 (ground (arith, e)), d.0 (ground (arith, e))), λ (p, q). rw (s.1 p, d.1 q) refl)

abbrev IsLoopDecision :
    Bool → TransformRequest → List DeviceLinkDescription → DeviceLinkDecision → Type 0
IsLoopDecision requires request available (use_device_link link) = IsFirst request link available
IsLoopDecision requires request available use_profile_connection_space =
    (requires ≡ false) × NoneServes request available
IsLoopDecision requires request available (rejected reason) =
    (requires ≡ true) × NoneServes request available

-- A link that does not serve, before the others.
IsLoopDecision-cons :
    (requires : Bool) (request : TransformRequest) (x : DeviceLinkDescription)
    (xs : List DeviceLinkDescription) (d : DeviceLinkDecision)
    → ¬ Serves request x
    → IsLoopDecision requires request xs d
    → IsLoopDecision requires request (x ∷ xs) d
IsLoopDecision-cons requires request x xs (use_device_link link) n h = inr (n, h)
IsLoopDecision-cons requires request x xs use_profile_connection_space n (b, h) = (b, (n, h))
IsLoopDecision-cons requires request x xs (rejected reason) n (b, h) = (b, (n, h))

link_loop-IsLoopDecision :
    (requires : Bool) (request : TransformRequest) (available : List DeviceLinkDescription)
    → IsLoopDecision requires request available (link_loop requires request available)
unfolding link_loop
link_loop-IsLoopDecision true request [] = (refl, tt)
link_loop-IsLoopDecision false request [] = (refl, tt)
link_loop-IsLoopDecision requires request (x ∷ xs) = elim (Bool-cases (link_serves request x)) [
  | inl e ↦ rw e (inl ((link_serves_iff request x).0 e, refl))
  | inr e ↦ rw e (
      IsLoopDecision-cons requires request x xs _
        (λ s. let yes_it_does = (link_serves_iff request x).1 s in cc)
        (link_loop-IsLoopDecision requires request xs))
]

required :
    (request : TransformRequest) (available : List DeviceLinkDescription) (d : DeviceLinkDecision)
    → IsLoopDecision true request available d
    → IsDecision require request available d
required request available (use_device_link link) h = ((λ e. cc), h)
required request available use_profile_connection_space (b, h) = cc
required request available (rejected reason) (b, h) = (refl, h)

preferred :
    (request : TransformRequest) (available : List DeviceLinkDescription) (d : DeviceLinkDecision)
    → IsLoopDecision false request available d
    → IsDecision prefer request available d
preferred request available (use_device_link link) h = ((λ e. cc), h)
preferred request available use_profile_connection_space (b, h) = inr (refl, h)
preferred request available (rejected reason) (b, h) = cc

-- The decision is a link only where the policy does not forbid one, and then the first that
-- connects the request's color spaces; it is the profile connection space where links are
-- forbidden, or preferred and none connects the spaces; and a rejection where one is required and
-- none does.
pub resolve_device_link_policy-IsDecision :
    (policy : DeviceLinkPolicy) (request : TransformRequest)
    (available : List DeviceLinkDescription)
    → IsDecision policy request available (resolve_device_link_policy policy request available)
unfolding resolve_device_link_policy
resolve_device_link_policy-IsDecision forbid request available = inl refl
resolve_device_link_policy-IsDecision require request available =
    required request available _ (link_loop-IsLoopDecision true request available)
resolve_device_link_policy-IsDecision prefer request available =
    preferred request available _ (link_loop-IsLoopDecision false request available)
