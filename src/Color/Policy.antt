-- ===== src/Color/Policy.antt =====
-- crates/presslint-color/src/policy.rs. A `String` is its UTF-8 bytes.
use presslint.Common.{Bytes}
use presslint.Types.{ColorSpace}

pub data SpotPolicy : Type 0 where
  preserve reject convert_alternate : SpotPolicy

pub data OverprintPolicy : Type 0 where
  preserve reject_unsafe mitigate : OverprintPolicy

pub record ColorPolicy : Type 0 where
  pub spot : SpotPolicy
  pub overprint : OverprintPolicy

pub record TransformRequest : Type 0 where
  pub source : ColorSpace
  pub destination : ColorSpace
  pub policy : ColorPolicy

pub data DeviceLinkPolicy : Type 0 where
  require prefer forbid : DeviceLinkPolicy

pub data OutputIntentSubtype : Type 0 where
  gts_pdfx gts_pdfa1 iso_pdfe1 : OutputIntentSubtype

unfoldable pub OutputIntentSubtype-discrete : Discrete OutputIntentSubtype
OutputIntentSubtype-discrete = hlevel

pub record NamedOutputCondition : Type 0 where
  pub subtype : OutputIntentSubtype
  pub output_condition_identifier : Bytes
  pub registry_name : Bytes

pub data OutputProfileSource : Type 0 where
  opaque_id : Bytes → OutputProfileSource
  embedded_bytes : Bytes → OutputProfileSource

pub record ProfileBackedOutputIntent : Type 0 where
  pub subtype : OutputIntentSubtype
  pub output_condition_identifier : Bytes
  pub output_condition : Bytes
  pub info : Bytes
  pub profile : OutputProfileSource

pub data OutputIntentTarget : Type 0 where
  named_condition : NamedOutputCondition → OutputIntentTarget
  profile_backed : ProfileBackedOutputIntent → OutputIntentTarget

pub data OutputIntentPolicy : Type 0 where
  preserve : OutputIntentPolicy
  require_existing : OutputIntentPolicy
  ensure_target : OutputIntentTarget → OutputIntentPolicy

pub record TransformPlanRequest : Type 0 where
  pub transform : TransformRequest
  pub device_link : DeviceLinkPolicy
  pub output_intent : OutputIntentPolicy
